-- ===== src/Api/Actions.antt =====
-- `claimRewardReceipt` and `boost` of sdk/api.ts: one transaction for one mint.
use discount_program.Common.{
  ℕ, ◌==◌, String, Bool, true, false, Option, none, some, List, [], ◌∷◌, ◌++◌, Result, ok, throw,
  receipt_manager_not_found, stake_booster_not_found, ◌>>=◌, if◌then◌else◌,
}
use discount_program.Common.Int.{ℤ, pos}
use discount_program.Common.Table.{Table, lookup}
use discount_program.Data.{
  PublicKey, ReceiptManager, StakeBooster, AccountData, Parsed, unknown, Argument, AccountMeta,
  Instruction, Transaction,
}
use discount_program.Packages.{Packages, Connection}
use discount_program.Pda.{find_stake_pool_id, find_reward_receipt_id, find_stake_booster_id}
use discount_program.Accounts.{fetch_idl_account_data_by_id}
use discount_program.Payment.{
  addresses, with_remaining_accounts_for_payment, with_remaining_accounts_for_payment_info,
}
use discount_program.Api.Mints.{
  MintInfo, stake_entry_id_of, method_call, update_total_stake_seconds_call,
}

unfoldable pub check_receipt_manager : Table AccountData → PublicKey → Result ReceiptManager
check_receipt_manager table id = elim (lookup id table) [
  | none ↦ throw receipt_manager_not_found
  | some a ↦ elim a.parsed [ Parsed.receipt_manager m ↦ ok m | _ ↦ throw receipt_manager_not_found ]
]

unfoldable pub check_stake_booster : Table AccountData → PublicKey → Result StakeBooster
check_stake_booster table id = elim (lookup id table) [
  | none ↦ throw stake_booster_not_found
  | some a ↦ elim a.parsed [ Parsed.stake_booster b ↦ ok b | _ ↦ throw stake_booster_not_found ]
]

-- `accountDataById[id]?.parsed`, as a condition
unfoldable pub is_parsed : Option AccountData → Bool
is_parsed none = false
is_parsed (some a) = elim a.parsed [ unknown ↦ false | _ ↦ true ]

-- `stakeBoosterIdentifer ? new BN(stakeBoosterIdentifer) : undefined`; 0 is falsy.
abbrev pub booster_identifier : Option ℕ → Option ℤ
booster_identifier none = none
booster_identifier (some k) = if k == 0 then none else some (pos k)

module _ (p : Packages) (wallet : PublicKey) where
  unfoldable pub init_reward_receipt_call :
      (reward_receipt_id receipt_manager_id stake_entry_id : PublicKey) → Instruction
  init_reward_receipt_call reward_receipt_id receipt_manager_id stake_entry_id =
      method_call "initRewardReceipt" []
        (("rewardReceipt", reward_receipt_id)
          ∷ ("receiptManager", receipt_manager_id)
          ∷ ("stakeEntry", stake_entry_id)
          ∷ ("payer", wallet)
          ∷ [])
        []

  unfoldable pub claim_reward_receipt_call :
      (reward_receipt_id receipt_manager_id stake_entry_id : PublicKey)
      → List AccountMeta
      → Instruction
  claim_reward_receipt_call reward_receipt_id receipt_manager_id stake_entry_id metas =
      method_call "claimRewardReceipt" []
        (("rewardReceipt", reward_receipt_id)
          ∷ ("receiptManager", receipt_manager_id)
          ∷ ("stakeEntry", stake_entry_id)
          ∷ ("payer", wallet)
          ∷ ("claimer", wallet)
          ∷ [])
        metas

  unfoldable pub boost_stake_entry_call :
      (stake_pool_id stake_booster_id stake_entry_id mint_id : PublicKey)
      → (seconds : ℕ) → List AccountMeta
      → Instruction
  boost_stake_entry_call stake_pool_id stake_booster_id stake_entry_id mint_id seconds metas =
      method_call "boostStakeEntry" (Argument.fields (("secondsToBoost", pos seconds) ∷ []) ∷ [])
        (("stakePool", stake_pool_id)
          ∷ ("stakeBooster", stake_booster_id)
          ∷ ("stakeEntry", stake_entry_id)
          ∷ ("stakeMint", mint_id)
          ∷ [])
        metas

unfoldable pub claim_reward_receipt :
    Packages
    → Connection
    → (wallet : PublicKey) → String
    → MintInfo
    → (receipt_manager_id : PublicKey) → Result Transaction
claim_reward_receipt p c wallet identifier info receipt_manager_id = do
  let stake_entry_id = stake_entry_id_of p wallet (find_stake_pool_id p identifier) info
  let reward_receipt_id = find_reward_receipt_id p receipt_manager_id stake_entry_id
  let table =
      fetch_idl_account_data_by_id p c (some receipt_manager_id ∷ some reward_receipt_id ∷ [])
  manager ← check_receipt_manager table receipt_manager_id
  let init =
      if is_parsed (lookup reward_receipt_id table)
      then []
      else init_reward_receipt_call p wallet reward_receipt_id receipt_manager_id stake_entry_id
        ∷ []
  let (tx, for_payment) =
      with_remaining_accounts_for_payment p
        (update_total_stake_seconds_call p wallet stake_entry_id ∷ init) wallet manager.payment_mint
        (addresses p manager.payment_shares)
  (tx', for_action) ←
      with_remaining_accounts_for_payment_info p c tx wallet manager.claim_action_payment_info
  ok (
      tx'
      ++ claim_reward_receipt_call p wallet reward_receipt_id receipt_manager_id stake_entry_id
          (for_payment ++ for_action)
        ∷ [])

unfoldable pub boost :
    Packages
    → Connection
    → (wallet : PublicKey) → String
    → MintInfo
    → (seconds_to_boost : ℕ) → (stake_booster_identifier : Option ℕ) → Result Transaction
boost p c wallet identifier info seconds_to_boost stake_booster_identifier = do
  let stake_pool_id = find_stake_pool_id p identifier
  let stake_entry_id = stake_entry_id_of p wallet stake_pool_id info
  let stake_booster_id =
      find_stake_booster_id p stake_pool_id (booster_identifier stake_booster_identifier)
  let table = fetch_idl_account_data_by_id p c (some stake_booster_id ∷ [])
  booster ← check_stake_booster table stake_booster_id
  let (tx, for_payment) =
      with_remaining_accounts_for_payment p
        (update_total_stake_seconds_call p wallet stake_entry_id ∷ []) wallet booster.payment_mint
        (addresses p booster.payment_shares)
  (tx', for_action) ←
      with_remaining_accounts_for_payment_info p c tx wallet booster.boost_action_payment_info
  ok (
      tx'
      ++ boost_stake_entry_call p wallet stake_pool_id stake_booster_id stake_entry_id info.mint_id
          seconds_to_boost (for_payment ++ for_action)
        ∷ [])
