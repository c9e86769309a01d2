-- ===== src/Payment.antt =====
-- sdk/payment.ts: the accounts that a payment needs. `transaction.add` is explicit: a function that
-- adds to the transaction takes it, and returns it beside the accounts.
use discount_program.Common.{
  ℕ, Bool, true, false, ◌==◌, List, [], ◌∷◌, ◌++◌, map, Result, ok, ◌>>=◌, if◌then◌else◌,
}
use discount_program.Common.Int.{ℤ, pos, negsuc}
use discount_program.Data.{
  PublicKey, PaymentInfo, PaymentShare, AccountMeta, Transaction, create_associated_token_account,
  AccountType,
}
use discount_program.Packages.{Packages, Connection}
use discount_program.Constants.{rewards_center_idl}

-- `BASIS_POINTS_DIVISOR`
abbrev pub basis_points_divisor : ℕ
basis_points_divisor = 10000

abbrev pub meta : PublicKey → Bool → Bool → AccountMeta
meta pubkey is_signer is_writable = record {
  pubkey = pubkey;
  is_signer = is_signer;
  is_writable = is_writable;
}

abbrev pub writable : PublicKey → AccountMeta
writable pubkey = meta pubkey false true

-- `Number(amount) === 0`
abbrev pub is_zero : ℤ → Bool
is_zero (pos n) = n == 0
is_zero (negsuc n) = false

module _ (p : Packages) where
  -- `getAssociatedTokenAddressSync(mint, owner, true)`
  abbrev pub ata : PublicKey → PublicKey → PublicKey
  ata mint owner = p.get_associated_token_address_sync mint owner true

  -- the loop that adds an instruction for each target
  abbrev pub create_token_accounts : PublicKey → PublicKey → List PublicKey → Transaction
  create_token_accounts payer mint [] = []
  create_token_accounts payer mint (t ∷ ts) =
      create_associated_token_account payer (ata mint t) t mint
      ∷ create_token_accounts payer mint ts

  unfoldable pub with_remaining_accounts_for_payment :
      Transaction
      → (payer payment_mint : PublicKey) → List PublicKey
      → Transaction × List AccountMeta
  with_remaining_accounts_for_payment tx payer payment_mint payment_targets =
      if payment_mint == p.default_key
      then (
        tx,
        meta payer true true ∷ meta p.system_program_id false false ∷ map writable payment_targets,
      )
      else (
        tx ++ create_token_accounts payer payment_mint payment_targets,
        meta payer true true
            ∷ meta p.token_program_id false false
            ∷ writable (ata payment_mint payer)
            ∷ map (λ t. writable (ata payment_mint t)) payment_targets,
      )

  abbrev pub addresses : List PaymentShare → List PublicKey
  addresses shares = map (λ s. s.address) shares

  unfoldable pub with_remaining_accounts_for_payment_info_sync :
      Transaction
      → (payer : PublicKey) → (pubkey : PublicKey) → PaymentInfo
      → Transaction × List AccountMeta
  with_remaining_accounts_for_payment_info_sync tx payer pubkey info =
      let (tx', metas) =
        with_remaining_accounts_for_payment tx payer info.payment_mint
          (addresses info.payment_shares) in
      if is_zero info.payment_amount
      then (tx, meta pubkey false false ∷ [])
      else (tx', meta pubkey false false ∷ metas)

  unfoldable pub with_remaining_accounts_for_payment_info :
      Connection
      → Transaction
      → (payer : PublicKey) → (info_id : PublicKey) → Result (Transaction × List AccountMeta)
  with_remaining_accounts_for_payment_info c tx payer info_id =
      c.fetch_idl_account AccountType.payment_info info_id rewards_center_idl >>= λ account.
      let info = account.parsed in
      let (tx', metas) =
        with_remaining_accounts_for_payment tx payer info.payment_mint
          (addresses info.payment_shares) in
      ok (
        if is_zero info.payment_amount
        then (tx, meta info_id false false ∷ [])
        else (tx', meta info_id false false ∷ metas))
