-- ===== src/Api/Order/Actions.antt =====
-- The order of the methods in the transactions of `claimRewardReceipt` and `boost` (sdk/api.ts).
use discount_program.Common.{
  ℕ, String, Bool, true, false, ◌≡◌, refl, ◌∙◌, Option, some, List, [], ◌∷◌, ◌++◌, ok, ◌>>=◌,
  Returns, Bool-cases, inl, inr, if◌then◌else◌,
}
use discount_program.Common.Table.{Table, lookup}
use discount_program.Constants.{rewards_center_idl}
use discount_program.Data.{
  PublicKey, AccountType, IdlAccountData, AccountData, AccountMeta, ReceiptManager, StakeBooster,
  Instruction, Transaction,
}
use discount_program.Packages.{Packages, Connection}
use discount_program.Pda.{find_stake_pool_id, find_stake_booster_id, find_reward_receipt_id}
use discount_program.Accounts.{fetch_idl_account_data_by_id}
use discount_program.Payment.{is_zero, addresses, with_remaining_accounts_for_payment_info}
use discount_program.Api.Mints.{MintInfo, stake_entry_id_of, update_total_stake_seconds_call}
use discount_program.Api.Actions.{
  check_receipt_manager, check_stake_booster, is_parsed, booster_identifier,
  init_reward_receipt_call, claim_reward_receipt_call, boost_stake_entry_call, claim_reward_receipt,
  boost,
}
use discount_program.Api.Order.{methods, methods-append, payment-methods}

module _ (p : Packages) (c : Connection) (wallet : PublicKey) where
  -- The accounts of the second payment, and the call itself.
  action-methods :
      (tx : Transaction) (id : PublicKey) (payment : IdlAccountData AccountType.payment_info)
      (call : List AccountMeta → Instruction) (name : String) (before : List String)
      → c.fetch_idl_account AccountType.payment_info id rewards_center_idl ≡ ok payment
      → methods tx ≡ before
      → ((metas : List AccountMeta) → methods (call metas ∷ []) ≡ name ∷ [])
      → Returns
          (λ ty. methods ty ≡ before ++ name ∷ [])
          (with_remaining_accounts_for_payment_info p c tx wallet id >>= λ (ty, metas).
            ok (ty ++ call metas ∷ []))
  unfolding with_remaining_accounts_for_payment_info
  action-methods tx id payment call name before fetched h named =
      elim (Bool-cases (is_zero payment.parsed.payment_amount)) [
        | inl free ↦ rw (fetched, free, methods-append, named, h) refl
        | inr paid ↦ rw (fetched, paid, methods-append, named, payment-methods p wallet, h) refl
      ]

  receipt-methods :
      (b : Bool) (receipt manager entry : PublicKey)
      → methods (
          update_total_stake_seconds_call p wallet entry
          ∷ (if b then [] else init_reward_receipt_call p wallet receipt manager entry ∷ []))
        ≡ "updateTotalStakeSeconds" ∷ (if b then [] else "initRewardReceipt" ∷ [])
  unfolding init_reward_receipt_call
  receipt-methods true receipt manager entry = refl
  receipt-methods false receipt manager entry = refl

  -- The receipt of the mint's stake entry.
  abbrev pub receipt_of : String → MintInfo → PublicKey → PublicKey
  receipt_of identifier info manager_id =
      find_reward_receipt_id p manager_id
        (stake_entry_id_of p wallet (find_stake_pool_id p identifier) info)

  -- What `claimRewardReceipt` fetches.
  abbrev pub fetched_table : String → MintInfo → PublicKey → Table AccountData
  fetched_table identifier info manager_id =
      fetch_idl_account_data_by_id p c
        (some manager_id ∷ some (receipt_of identifier info manager_id) ∷ [])

  -- Where the receipt manager is found among the fetched accounts and its payment info can be
  -- fetched, the transaction of claimRewardReceipt is made, and calls updateTotalStakeSeconds,
  -- initRewardReceipt if the receipt is missing or is not decoded, and claimRewardReceipt, in this
  -- order.
  pub claim_reward_receipt-methods :
      (identifier : String) (info : MintInfo) (manager_id : PublicKey) (manager : ReceiptManager)
      (payment : IdlAccountData AccountType.payment_info)
      → check_receipt_manager (fetched_table identifier info manager_id) manager_id ≡ ok manager
      → c.fetch_idl_account AccountType.payment_info manager.claim_action_payment_info
          rewards_center_idl
        ≡ ok payment
      → Returns
          (λ tx.
            methods tx
            ≡ ("updateTotalStakeSeconds"
                ∷ (if is_parsed (
                      lookup
                        (receipt_of identifier info manager_id)
                        (fetched_table identifier info manager_id))
                    then []
                    else "initRewardReceipt" ∷ []))
              ++ "claimRewardReceipt" ∷ [])
          (claim_reward_receipt p c wallet identifier info manager_id)
  unfolding claim_reward_receipt claim_reward_receipt_call
  claim_reward_receipt-methods identifier info manager_id manager payment checked fetched =
      rw checked (
        action-methods _ manager.claim_action_payment_info payment _ "claimRewardReceipt" _ fetched
          (payment-methods p wallet _ manager.payment_mint (addresses p manager.payment_shares)
            ∙ receipt-methods _ _ manager_id _)
          (λ metas. refl))

  -- Where the booster of the given number is found and its payment info can be fetched, the
  -- transaction of boost is made, and calls updateTotalStakeSeconds and then boostStakeEntry.
  pub boost-methods :
      (identifier : String) (info : MintInfo) (seconds : ℕ) (booster_number : Option ℕ)
      (booster_id : PublicKey) (booster : StakeBooster)
      (payment : IdlAccountData AccountType.payment_info)
      → find_stake_booster_id p
          (find_stake_pool_id p identifier)
          (booster_identifier booster_number)
        ≡ booster_id
      → check_stake_booster (fetch_idl_account_data_by_id p c (some booster_id ∷ [])) booster_id
        ≡ ok booster
      → c.fetch_idl_account AccountType.payment_info booster.boost_action_payment_info
          rewards_center_idl
        ≡ ok payment
      → Returns
          (λ tx. methods tx ≡ "updateTotalStakeSeconds" ∷ "boostStakeEntry" ∷ [])
          (boost p c wallet identifier info seconds booster_number)
  unfolding boost boost_stake_entry_call
  boost-methods identifier info seconds booster_number booster_id booster payment same checked
        fetched =
      rw (same, checked)
        (action-methods _ booster.boost_action_payment_info payment _ "boostStakeEntry"
          ("updateTotalStakeSeconds" ∷ []) fetched
          (payment-methods p wallet _ booster.payment_mint (addresses p booster.payment_shares))
          (λ metas. refl))
