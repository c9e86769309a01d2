-- ===== src/Api/Conforms/Transactions.antt =====
-- Every transaction that sdk/api.ts builds conforms to the IDL.
use discount_program.Common.{
  Bool, true, false, ◌==◌, Option, none, some, List, [], ◌∷◌, ◌++◌, Result, ok, throw, ◌>>=◌,
  Ensures, Ensures-bind, for_each-Ensures, for_each, All, All-append, Bool-cases, Option-cases, inl,
  inr, if◌then◌else◌,
}
use discount_program.Data.{
  PublicKey, AccountType, IdlAccountData, AccountData, AccountMeta, PaymentInfo, Metadata,
  Instruction, Transaction,
}
use discount_program.Packages.{Packages, Connection}
use discount_program.Common.Table.{Table}
use discount_program.Constants.{rewards_center_idl}
use discount_program.Payment.{
  is_zero, create_token_accounts, with_remaining_accounts_for_payment,
  with_remaining_accounts_for_payment_info_sync, with_remaining_accounts_for_payment_info,
}
use discount_program.Api.Stake.{StakeMint, stake_calls, stake_transaction, metadata_of}
use discount_program.Api.Claims.{payment_info_at, optional_payment}
use discount_program.Api.Conforms.{Conforms, AllConform}
use discount_program.Api.Conforms.Calls.{
  init_entry_call-Conforms, stake_ccs_call-Conforms, stake_pnft_call-Conforms,
  stake_edition_call-Conforms,
}

pub init-Conform : (b : Bool) (i : Instruction) → Conforms i → AllConform (if b then [] else i ∷ [])
init-Conform true i h = tt
init-Conform false i h = (h, tt)

pub snoc-Conform :
    (tx : Transaction) (i : Instruction) → AllConform tx → Conforms i → AllConform (tx ++ i ∷ [])
snoc-Conform tx i h k = All-append Conforms tx (i ∷ []) h (k, tt)

module _ (p : Packages) (wallet : PublicKey) where
  create_token_accounts-Conform :
      (mint : PublicKey) (ts : List PublicKey) → AllConform (create_token_accounts p wallet mint ts)
  create_token_accounts-Conform mint [] = tt
  create_token_accounts-Conform mint (t ∷ ts) = (tt, create_token_accounts-Conform mint ts)

  pub payment-Conform :
      (tx : Transaction) (mint : PublicKey) (ts : List PublicKey)
      → AllConform tx
      → AllConform (with_remaining_accounts_for_payment p tx wallet mint ts).0
  unfolding with_remaining_accounts_for_payment
  payment-Conform tx mint ts h = elim (Bool-cases (mint == p.default_key)) [
    | inl sol ↦ rw sol h
    | inr token ↦ rw token (All-append Conforms tx _ h (create_token_accounts-Conform mint ts))
  ]

  pub sync-Conform :
      (tx : Transaction) (id : PublicKey) (info : PaymentInfo)
      → AllConform tx
      → AllConform (with_remaining_accounts_for_payment_info_sync p tx wallet id info).0
  unfolding with_remaining_accounts_for_payment_info_sync
  sync-Conform tx id info h = elim (Bool-cases (is_zero info.payment_amount)) [
    | inl free ↦ rw free h
    | inr paid ↦ rw paid (payment-Conform tx info.payment_mint _ h)
  ]

  pub optional-Conform :
      (table : Table AccountData) (tx : Transaction) (id : PublicKey)
      → AllConform tx
      → AllConform (optional_payment p wallet table tx id).0
  unfolding optional_payment
  optional-Conform table tx id h = elim (Option-cases (payment_info_at table id)) [
    | inl nothing ↦ rw (nothing, optional_payment) h
    | inr (info, found) ↦ rw (found, optional_payment) (sync-Conform tx info.0 info.1 h)
  ]

  pub async-Conform :
      (c : Connection) (tx : Transaction) (id : PublicKey)
      → AllConform tx
      → Ensures
          (λ (r : Transaction × List AccountMeta). AllConform r.0)
          (with_remaining_accounts_for_payment_info p c tx wallet id)
  unfolding with_remaining_accounts_for_payment_info
  async-Conform c tx id h =
      Ensures-bind (λ (r : Transaction × List AccountMeta). AllConform r.0)
        (c.fetch_idl_account AccountType.payment_info id rewards_center_idl) _
        (λ account. elim (Bool-cases (is_zero account.parsed.payment_amount)) [
          | inl free ↦ rw free h
          | inr paid ↦ rw paid (payment-Conform tx account.parsed.payment_mint _ h)
        ])

  module _ (pool : PublicKey) where
    stake_calls-Conform :
        (m : StakeMint) (manager : Option AccountData) (metadata : Option Metadata)
        (metas : List AccountMeta)
        → Ensures AllConform (stake_calls p wallet pool m manager metadata metas)
    unfolding stake_calls
    stake_calls-Conform m (some manager) metadata metas =
        Ensures-bind AllConform (p.mint_manager_from_account_info manager.info) _
          (λ mm. (stake_ccs_call-Conforms p wallet pool metas m mm, tt))
    stake_calls-Conform m none none metas = (stake_edition_call-Conforms p wallet pool metas m, tt)
    stake_calls-Conform m none (some metadata) metas =
        elim (Option-cases metadata.programmable_config) [
          | inl plain ↦ rw plain (stake_edition_call-Conforms p wallet pool metas m, tt)
          | inr (rule_set, config) ↦
              rw config (tt, (stake_pnft_call-Conforms p wallet pool metas m rule_set, tt))
        ]

    append-Ensures :
        (tx : Transaction) (calls : Result Transaction)
        → AllConform tx
        → Ensures AllConform calls
        → Ensures AllConform (calls >>= λ cs. ok (tx ++ cs))
    append-Ensures tx (ok cs) h k = All-append Conforms tx cs h k
    append-Ensures tx (throw e) h k = tt

    stake_transaction-Conform :
        (table : Table AccountData) (data_ : IdlAccountData AccountType.stake_pool)
        (payment : IdlAccountData AccountType.payment_info) (m : StakeMint)
        → Ensures AllConform (stake_transaction p wallet pool table data_ payment m)
    unfolding stake_transaction
    stake_transaction-Conform table data_ payment m =
        Ensures-bind AllConform (metadata_of p wallet pool _) _ (λ metadata.
          append-Ensures _ _
            (sync-Conform _ payment.pubkey payment.parsed
              (init-Conform _ _ (init_entry_call-Conforms p wallet pool _ m)))
            (stake_calls-Conform m _ metadata _))

    pub stake-Conform :
        (table : Table AccountData) (data_ : IdlAccountData AccountType.stake_pool)
        (payment : IdlAccountData AccountType.payment_info) (mints : List StakeMint)
        → Ensures
            (All AllConform)
            (for_each (stake_transaction p wallet pool table data_ payment) mints)
    stake-Conform table data_ payment mints =
        for_each-Ensures AllConform _ mints (stake_transaction-Conform table data_ payment)
