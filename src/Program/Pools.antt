-- ===== src/Program/Pools.antt =====
-- The handlers on stake pools: programs/rewards-center/src/stake_pool and discount. The size of an
-- account (`resize_account`) is not modelled.
pub mod Fee
use discount_program.Common.{
  ℕ, ◌<◌, String, Bool, not, Option, none, some, List, ◌==◌, same_string, if◌then◌else◌, ltb,
}
use discount_program.Common.Int.{ℤ}
use discount_program.Data.{PublicKey, StakePool, AccountMeta}
use discount_program.Program.Outcome.{
  Outcome, done, err, ◌>>=◌, ◌>>◌, next_account, invoked, account_in_use, constraint_raw,
  instruction_missing, invalid_authority, cannot_close_pool_with_staked_entries,
}
use discount_program.Program.Payment.{Transfer, ensure, init_account}

pub record UpdatePoolIx : Type 0 where
  pub allowed_collections : List PublicKey
  pub allowed_creators : List PublicKey
  pub requires_authorization : Bool
  pub authority : PublicKey
  pub reset_on_unstake : Bool
  pub cooldown_seconds : Option ℕ
  pub min_stake_seconds : Option ℕ
  pub end_date : Option ℤ
  pub stake_payment_info : PublicKey
  pub unstake_payment_info : PublicKey

-- The fields that `UpdatePoolIx` has too, and the identifier.
pub record InitPoolIx : Type 0 where
  pub settings : UpdatePoolIx
  pub identifier : String

pub record Discount : Type 0 where
  pub discount_str : String
  pub authority : PublicKey
  pub identifier : String

-- What the handlers read of their libraries and of the chain: `Pubkey::from_str(text).unwrap()`,
-- `find_program_address`, the `Discount` accounts, the accounts in use, and the
-- transfer of the system program, which gives the lamports of the payer that are left.
pub record PoolHost : Type 0 where
  pub from_str : String → PublicKey
  pub find_stake_pool : String → PublicKey × ℕ
  pub find_discount : String → PublicKey × ℕ
  pub discount : PublicKey → Option Discount
  pub in_use : PublicKey → Bool
  pub transfer : (payer to : PublicKey) → (lamports : ℕ) → Option ℕ

unfoldable pub init_discount : PoolHost → (discount_data : PublicKey) → Discount → Outcome Discount
init_discount host discount_data ix =
    init_account (host.in_use discount_data) discount_data (host.find_discount ix.identifier).0
    >>= λ _. done (record {
      discount_str = ix.discount_str;
      authority = ix.authority;
      identifier = ix.identifier;
    })

-- `lamports`: 3 SOL, or 1 SOL
unfoldable pub pool_fee : Discount → ℕ
pool_fee d = if same_string d.discount_str "discount" then 1000000000 else 3000000000

-- The account that is paid, `owner`.
abbrev pub pool_owner : PoolHost → PublicKey
pool_owner host = host.from_str "Se9gzT3Ep3E452LPyYaWKYqcCvsAwtHhRQwQvmoXFxG"

-- A pool with these settings.
abbrev pub pool_with : UpdatePoolIx → (bump total_staked : ℕ) → (identifier : String) → StakePool
pool_with ix bump total_staked identifier = record {
  bump = bump;
  authority = ix.authority;
  total_staked = total_staked;
  reset_on_unstake = ix.reset_on_unstake;
  cooldown_seconds = ix.cooldown_seconds;
  min_stake_seconds = ix.min_stake_seconds;
  end_date = ix.end_date;
  stake_payment_info = ix.stake_payment_info;
  unstake_payment_info = ix.unstake_payment_info;
  requires_authorization = ix.requires_authorization;
  allowed_creators = ix.allowed_creators;
  allowed_collections = ix.allowed_collections;
  identifier = identifier;
}

-- The new pool, and the transfer that is made.
unfoldable pub init_pool :
    PoolHost
    → (stake_pool owner payer : PublicKey) → InitPoolIx
    → List AccountMeta
    → Outcome (StakePool × Transfer)
init_pool host stake_pool owner payer ix remaining = do
  init_account (host.in_use stake_pool) stake_pool (host.find_stake_pool ix.identifier).0
  ensure (owner == pool_owner host) (err constraint_raw)
  (account, rest) ← next_account remaining
  discount ← elim (host.discount account.pubkey) [
    | none ↦ err instruction_missing
    | some d ↦ done d
  ]
  let fee = pool_fee discount
  left ← invoked (host.transfer payer owner fee)
  done (
    pool_with ix.settings (host.find_stake_pool ix.identifier).1 0 ix.identifier,
    record { to = owner; amount = fee },
  )

unfoldable pub update_pool : (authority : PublicKey) → UpdatePoolIx → StakePool → Outcome StakePool
update_pool authority ix pool = ensure (pool.authority == authority) (err constraint_raw) >>= λ _.
    done (pool_with ix pool.bump pool.total_staked pool.identifier)

-- What closing leaves is the account of `authority`, which gets the lamports.
unfoldable pub close_stake_pool : (authority : PublicKey) → StakePool → Outcome PublicKey
close_stake_pool authority pool =
    ensure (pool.authority == authority) (err invalid_authority) >>= λ _.
    if ltb 0 pool.total_staked then err cannot_close_pool_with_staked_entries else done authority
