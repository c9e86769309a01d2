-- ===== src/Program/Outcome.antt =====
-- How a handler of the program ends: with a value, with one of its errors, or with a panic (a
-- failed `unwrap`, `expect` or checked operation).
pub mod Done
use discount_program.Common.{
  ℕ, ◌+◌, ◌-◌, ◌*◌, ◌^◌, List, [], ◌∷◌, leb, ltb, Option, none, some, if◌then◌else◌,
}
use discount_program.Data.{AccountMeta}

-- The errors of programs/rewards-center/src/errors.rs that these handlers return. From
-- `not_enough_account_keys` on they are those of `next_account_info`, of Anchor's constraints
-- (`seeds`, `address`, `init`, `close`, and `constraint` with no error of its own) and of the programs that
-- the handlers call.
pub data ProgramError : Type 0 where
  invalid_payment_info invalid_payment_shares : ProgramError
  invalid_transfer_program invalid_payer_token_account : ProgramError
  invalid_payment_share invalid_token_account : ProgramError
  invalid_mint_metadata_owner invalid_mint_metadata : ProgramError
  invalid_stake_authorization_record mint_not_allowed_in_pool : ProgramError
  cannot_update_unstaked_entry cooldown_second_remaining : ProgramError
  invalid_derivation invalid_escrow invalid_authority : ProgramError
  invalid_stake_pool invalid_stake_entry invalid_user_stake_mint_token_account : ProgramError
  stake_pool_has_ended min_stake_seconds_not_satisfied : ProgramError
  invalid_reward_mint invalid_user_reward_mint_token_account : ProgramError
  cannot_close_staked_entry cannot_close_pool_with_staked_entries instruction_missing : ProgramError
  not_enough_account_keys constraint_seeds constraint_address constraint_raw constraint_close :
      ProgramError
  account_in_use call_failed : ProgramError

pub data Outcome {ℓ} (A : Type ℓ) : Type ℓ where
  done : A → Outcome A
  err : ProgramError → Outcome A
  panic : Outcome A

infixl 5 ◌>>=◌ ◌>>◌
abbrev pub ◌>>=◌ {ℓ κ} : {A : Type ℓ} {B : Type κ} → Outcome A → (A → Outcome B) → Outcome B
done a >>= f = f a
err e >>= f = err e
panic >>= f = panic

abbrev pub ◌>>◌ {ℓ} : {B : Type ℓ} → Outcome (Unit {0}) → Outcome B → Outcome B
m >> k = m >>= λ _. k

-- Checked operations on a `w`-bit unsigned number.
abbrev pub checked_mul : (w a b : ℕ) → Outcome ℕ
checked_mul w a b = if ltb (a * b) (2 ^ w) then done (a * b) else panic

abbrev pub checked_add : (w a b : ℕ) → Outcome ℕ
checked_add w a b = if ltb (a + b) (2 ^ w) then done (a + b) else panic

abbrev pub checked_sub : (a b : ℕ) → Outcome ℕ
checked_sub a b = if leb b a then done (a - b) else panic

-- `next_account_info`: the first account, and the rest.
abbrev pub next_account : List AccountMeta → Outcome (AccountMeta × List AccountMeta)
next_account [] = err not_enough_account_keys
next_account (a ∷ rest) = done (a, rest)

-- `invoke(...)?`: the call of another program, which may fail.
abbrev pub invoked {ℓ} : {A : Type ℓ} → Option A → Outcome A
invoked none = err call_failed
invoked (some a) = done a
