-- ===== src/Program/Entries.antt =====
-- The handlers on stake entries: programs/rewards-center/src/stake_entry, but for those of pnfts/
-- and multiplier_stake_seconds/. `stake_entry_fill_zeros` writes the unused end of an account's
-- data, which is not modelled.
use discount_program.Common.{ℕ, Bool, not, Option, none, List, ◌==◌, if◌then◌else◌, ltb}
use discount_program.Common.Int.{ℤ, pos}
use discount_program.Data.{PublicKey, StakePool, StakeEntry, AccountInfo, AccountMeta}
use discount_program.Program.Outcome.{
  Outcome, done, err, ◌>>=◌, ◌>>◌, constraint_seeds, account_in_use, invalid_stake_pool,
  invalid_authority, cannot_close_staked_entry,
}
use discount_program.Program.Payment.{Host, ensure}
use discount_program.Program.Authorization.{MintHost, mint_is_allowed}

-- What the handlers read of their libraries and of the chain: that of payments and mints, the
-- addresses from `find_program_address`, those from `create_program_address` with a given bump, the
-- accounts in use, and the ids of programs.
pub record EntryHost : Type 0 where
  pub payments : Host
  pub mints : MintHost
  pub find_stake_entry : (pool mint seed : PublicKey) → PublicKey × ℕ
  pub create_stake_entry : (pool mint seed : PublicKey) (bump : ℕ) → Option PublicKey
  pub find_user_escrow : (user : PublicKey) → PublicKey
  pub in_use : PublicKey → Bool
  pub token_metadata_id : PublicKey
  pub sysvar_instructions_id : PublicKey
  pub auth_rules_id : PublicKey

unfoldable pub stake_seed : EntryHost → (supply : ℕ) → (user : PublicKey) → PublicKey
stake_seed host supply user = if ltb 1 supply then user else host.payments.default_key

-- The accounts of `InitEntryCtx`, with the argument `user` and the supply of the mint.
pub record InitEntry : Type 0 where
  pub stake_entry : PublicKey
  pub stake_pool : PublicKey
  pub stake_mint : PublicKey
  pub supply : ℕ
  pub stake_mint_metadata : PublicKey
  pub metadata_info : AccountInfo
  pub user : PublicKey
  pub remaining_accounts : List AccountMeta

-- A new account holds zeros; the default key is 0 in all its bytes.
abbrev pub zeroed : EntryHost → StakeEntry
zeroed host = record {
  bump = 0;
  kind = 0;
  pool = host.payments.default_key;
  amount = pos 0;
  stake_mint = host.payments.default_key;
  last_staker = host.payments.default_key;
  last_staked_at = pos 0;
  last_updated_at = pos 0;
  total_stake_seconds = pos 0;
  used_stake_seconds = pos 0;
  cooldown_start_seconds = none;
  multiplier_stake_seconds = none;
  multiplier_basis_points = none;
}

unfoldable pub init_entry : EntryHost → InitEntry → StakePool → Outcome StakeEntry
init_entry host a pool = do
  let found = host.find_stake_entry a.stake_pool a.stake_mint (stake_seed host a.supply a.user)
  ensure (a.stake_entry == found.0) (err constraint_seeds)
  ensure (not (host.in_use a.stake_entry)) (err account_in_use)
  rest ←
      mint_is_allowed host.mints a.stake_pool pool a.stake_mint_metadata a.metadata_info
        a.stake_mint a.remaining_accounts
  done (record (zeroed host) {
    bump = found.1;
    pool = a.stake_pool;
    stake_mint = a.stake_mint;
    amount = pos 0;
  })

-- The constraints that `reset_stake_entry` and `close_stake_entry` put on their accounts.
unfoldable pub check_authority :
    (stake_pool authority : PublicKey) → StakePool → StakeEntry → Outcome (Unit {0})
check_authority stake_pool authority pool entry =
    ensure (stake_pool == entry.pool) (err invalid_stake_pool)
    >> ensure (pool.authority == authority) (err invalid_authority)

unfoldable pub reset_stake_entry :
    (now : ℤ) → (stake_pool authority : PublicKey) → StakePool → StakeEntry → Outcome StakeEntry
reset_stake_entry now stake_pool authority pool entry =
    check_authority stake_pool authority pool entry >>= λ _. done (record entry {
      total_stake_seconds = pos 0;
      used_stake_seconds = pos 0;
      last_updated_at = now;
      last_staked_at = now;
      cooldown_start_seconds = none;
      multiplier_stake_seconds = none;
    })

-- What closing leaves is the account of `authority`, which gets the lamports.
unfoldable pub close_stake_entry :
    Host → (stake_pool authority : PublicKey) → StakePool → StakeEntry → Outcome PublicKey
close_stake_entry host stake_pool authority pool entry =
    check_authority stake_pool authority pool entry >>= λ _.
    ensure (entry.last_staker == host.default_key) (err cannot_close_staked_entry) >>= λ _.
    done authority
