-- ===== src/Program/Payment.antt =====
-- `handle_payment` and `handle_payment_info` of programs/rewards-center/src/payment/state.rs.
pub mod Accepted
pub mod Amounts
pub mod Info
use discount_program.Common.{
  ℕ, String, zero, suc, ◌+◌, ◌*◌, ◌/◌, ◌%◌, ◌^◌, ◌-◌, ◌==◌, Bool, true, false, not, ◌&&◌, Option,
  none, some, List, [], ◌∷◌, if◌then◌else◌, ltb,
}
use discount_program.Common.Int.{pos_part}
use discount_program.Data.{PublicKey, PaymentShare, PaymentInfo, AccountMeta}
use discount_program.Payment.{basis_points_divisor}
use discount_program.Program.Outcome.{
  Outcome, done, err, panic, invalid_payment_info, invalid_transfer_program,
  invalid_payer_token_account, invalid_payment_share, invalid_token_account, ◌>>=◌, ◌>>◌,
  checked_mul, checked_add, checked_sub, next_account, constraint_seeds, account_in_use,
}

-- `Account::<TokenAccount>`, with the fields that are read.
pub record TokenAccount : Type 0 where
  pub owner : PublicKey
  pub mint : PublicKey

-- A transfer of the handler: from the payer (or its token account) to an account.
pub record Transfer : Type 0 where
  pub to : PublicKey
  pub amount : ℕ

-- What the handler reads of the chain and of its libraries: `Pubkey::default()`, the ids of the
-- system and token programs, and the token accounts.
pub record Host : Type 0 where
  pub default_key : PublicKey
  pub system_program_id : PublicKey
  pub token_program_id : PublicKey
  pub token_account : PublicKey → Option TokenAccount
  -- `Pubkey::from_str(text).unwrap()`
  pub from_str : String → PublicKey
  -- the payment info that an account holds
  pub payment_info : PublicKey → Option PaymentInfo

abbrev pub ensure : Bool → Outcome (Unit {0}) → Outcome (Unit {0})
ensure true e = done tt
ensure false e = e

-- Anchor's `init`, for an account that is `in_use` or not, at the address that its seeds give
abbrev pub init_account : (in_use : Bool) → (key address : PublicKey) → Outcome (Unit {0})
init_account in_use key address =
    ensure (key == address) (err constraint_seeds) >> ensure (not in_use) (err account_in_use)

-- `Account::<TokenAccount>::try_from(info)?`, whose failure is an error of Anchor
abbrev pub token_account_of : Host → PublicKey → Outcome TokenAccount
token_account_of host key = elim (host.token_account key) [
  | none ↦ err invalid_token_account
  | some account ↦ done account
]

-- `Account::<PaymentInfo>::try_from(info)?`
abbrev pub payment_info_of : Host → PublicKey → Outcome PaymentInfo
payment_info_of host key = elim (host.payment_info key) [
  | none ↦ err invalid_payment_info
  | some info ↦ done info
]

-- `share_amounts`, and their sum: each product is checked; the sum of the iterator is not (the
-- release profile of Cargo.toml has no overflow checks), and wraps at 64 bits.
unfoldable pub share_amounts_sum : (payment_amount : ℕ) → List PaymentShare → Outcome ℕ
share_amounts_sum payment_amount [] = done 0
share_amounts_sum payment_amount (s ∷ shares) = do
  amount ← checked_mul 64 payment_amount s.basis_points
  rest ← share_amounts_sum payment_amount shares
  done ((amount + rest) % 2 ^ 64)

-- `u64::from(remainder > 0)`
abbrev pub remainder_part : ℕ → ℕ
remainder_part zero = 0
remainder_part (suc n) = 1

-- `payment_share_amount`
unfoldable pub share_amount : (payment_amount basis_points remainder : ℕ) → Outcome ℕ
share_amount payment_amount basis_points remainder = do
  product ← checked_mul 64 payment_amount basis_points
  checked_add 64 (product / basis_points_divisor) (remainder_part remainder)

-- The check of the account of one share, for SOL and for a token.
unfoldable pub check_share_account : Host → (mint account address : PublicKey) → Outcome (Unit {0})
check_share_account host mint account address =
    if mint == host.default_key
    then ensure (account == address) (err invalid_payment_share)
    else (token_account_of host account >>= λ t.
        ensure (t.owner == address && (t.mint == mint)) (err invalid_token_account))

-- The loop over the shares; a share of no basis points takes no account.
unfoldable pub pay_shares :
    Host
    → (payment_amount : ℕ) → (mint : PublicKey) → (remainder : ℕ) → List PaymentShare
    → List AccountMeta
    → Outcome (List Transfer × List AccountMeta)
pay_shares host payment_amount mint remainder [] accounts = done ([], accounts)
pay_shares host payment_amount mint remainder (s ∷ shares) accounts =
    let skipped = pay_shares host payment_amount mint remainder shares accounts in
    let paid : Outcome (List Transfer × List AccountMeta) =
      (share_amount payment_amount s.basis_points remainder >>= λ amount.
      next_account accounts >>= λ (account, rest).
      check_share_account host mint account.pubkey s.address >>= λ _.
      pay_shares host payment_amount mint (remainder - remainder_part remainder) shares rest
      >>= λ (transfers, left). done (
          if ltb 0 amount
          then (record { to = account.pubkey; amount = amount } ∷ transfers, left)
          else (transfers, left))) in
    if s.basis_points == 0 then skipped else paid

-- The payer's token account, where the payment is in a token.
unfoldable pub check_payer_account :
    Host → (mint payer : PublicKey) → List AccountMeta → Outcome (List AccountMeta)
check_payer_account host mint payer accounts =
    if mint == host.default_key
    then done accounts
    else (next_account accounts >>= λ (account, rest). token_account_of host account.pubkey >>= λ t.
        ensure (t.owner == payer && (t.mint == mint)) (err invalid_payer_token_account) >>= λ _.
        done rest)

unfoldable pub handle_payment :
    Host
    → (payment_amount : ℕ) → (mint : PublicKey) → List PaymentShare
    → List AccountMeta
    → Outcome (List Transfer × List AccountMeta)
handle_payment host payment_amount mint shares accounts = do
  (payer, accounts') ← next_account accounts
  (transfer_program, accounts'') ← next_account accounts'
  ensure
      (transfer_program.pubkey
        == (if mint == host.default_key then host.system_program_id else host.token_program_id))
      (err invalid_transfer_program)
  rest ← check_payer_account host mint payer.pubkey accounts''
  sum ← share_amounts_sum payment_amount shares
  remainder ← checked_sub payment_amount (sum / basis_points_divisor)
  pay_shares host payment_amount mint remainder shares rest

-- The one payment info that the program takes.
abbrev pub program_payment_info : Host → PublicKey
program_payment_info host = host.from_str "3w1HMpFgYcHgUYcxKRfLf3Q2rAu3M5VqgzzwTDWRV3fw"

unfoldable pub handle_payment_info :
    Host → List AccountMeta → Outcome (List Transfer × List AccountMeta)
handle_payment_info host accounts = do
  (account, rest) ← next_account accounts
  ensure (program_payment_info host == account.pubkey) panic
  info ← payment_info_of host account.pubkey
  let amount = pos_part info.payment_amount
  let payment = handle_payment host amount info.payment_mint info.payment_shares rest
  if amount == 0 then done ([], rest) else payment
