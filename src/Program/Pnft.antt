-- ===== src/Program/Pnft.antt =====
-- `stakePnft` and `unstakePnft`: programs/rewards-center/src/stake_entry/pnfts. The four calls of
-- the token metadata program are a parameter; `Tokens` is what that program keeps. The accounts that
-- are only handed on to it are those of `PnftAccounts`.
pub mod Changes
pub mod Returns
pub mod Waiting
pub mod Cooldown
pub mod Early
use discount_program.Common.{
  ℕ, Bool, true, false, not, Option, none, some, List, [], ◌==◌, if◌then◌else◌, ltb, leb, ◌&&◌, ◌%◌,
  ◌^◌, ◌-◌, ◌+◌,
}
use discount_program.Common.Int.{ℤ, pos, negsuc, pos_part, ◌-ℤ◌, ltb_ℤ}
use discount_program.Data.{PublicKey, StakePool, StakeEntry, UserEscrow, AccountInfo, AccountMeta}
use discount_program.Program.Outcome.{
  Outcome, done, err, panic, ◌>>=◌, ◌>>◌, checked_add, checked_sub, invoked, constraint_seeds,
  constraint_address, invalid_stake_pool, invalid_stake_entry, invalid_escrow,
  invalid_user_stake_mint_token_account, stake_pool_has_ended, min_stake_seconds_not_satisfied,
  cooldown_second_remaining,
}
use discount_program.Program.Payment.{Transfer, ensure, handle_payment_info}
use discount_program.Program.Staking.{increment_total_stake_seconds}
use discount_program.Program.Authorization.{mint_is_allowed}
use discount_program.Program.Entries.{EntryHost, stake_seed}

-- `StakePNFTCtx` and `UnstakePNFTCtx`, which have the same accounts: the keys, and of the mint and
-- the user's token account what is read.
pub record PnftAccounts : Type 0 where
  pub stake_pool : PublicKey
  pub stake_entry : PublicKey
  pub stake_mint : PublicKey
  pub supply : ℕ
  pub stake_mint_metadata : PublicKey
  pub metadata_info : AccountInfo
  pub stake_mint_edition : PublicKey
  pub stake_token_record_account : PublicKey
  pub authorization_rules : PublicKey
  pub user : PublicKey
  pub user_escrow : PublicKey
  pub user_stake_mint_token_account : PublicKey
  pub token_amount : ℕ
  pub token_mint : PublicKey
  pub token_owner : PublicKey
  pub token_metadata_program : PublicKey
  pub sysvar_instructions : PublicKey
  pub authorization_rules_program : PublicKey
  pub remaining_accounts : List AccountMeta

pub data RevokeArgs : Type 0 where
  migration_v1 staking_v1 : RevokeArgs

-- The token metadata program: its instructions, `none` where it refuses, and
-- `TokenRecord::from_account_info(...)?.delegate_role`, with the role `Migration`.
pub record TokenMetadata (Tokens : Type 0) : Type 1 where
  pub delegate : PnftAccounts → Tokens → Option Tokens
  pub lock : PnftAccounts → Tokens → Option Tokens
  pub unlock : PnftAccounts → Tokens → Option Tokens
  pub revoke : RevokeArgs → PnftAccounts → Tokens → Option Tokens
  pub delegate_role : PublicKey → Tokens → Option (Option ℕ)
  pub migration : ℕ

-- What the two handlers leave: the accounts that they write to, and the transfers of the payment.
pub record PnftResult (Tokens : Type 0) : Type 0 where
  pub pool : StakePool
  pub entry : StakeEntry
  pub escrow : UserEscrow
  pub tokens : Tokens
  pub payments : List Transfer

-- An account is at the address that its seeds and its bump make, if they make one.
abbrev is_address : PublicKey → Option PublicKey → Bool
is_address key made = elim made [ none ↦ false | some address ↦ key == address ]

-- The constraints on the accounts, in the order of their declaration.
unfoldable pub check_accounts : EntryHost → PnftAccounts → StakeEntry → Outcome (Unit {0})
check_accounts host a entry = do
  ensure (entry.pool == a.stake_pool) (err invalid_stake_pool)
  let seed = stake_seed host a.supply a.user
  ensure
      (is_address a.stake_entry
        (host.create_stake_entry entry.pool entry.stake_mint seed entry.bump))
      (err constraint_seeds)
  ensure (entry.stake_mint == a.stake_mint) (err invalid_stake_entry)
  ensure (a.user_escrow == host.find_user_escrow a.user) (err constraint_seeds)
  ensure (ltb 0 a.token_amount && (a.token_mint == entry.stake_mint && (a.token_owner == a.user)))
      (err invalid_user_stake_mint_token_account)
  ensure
      (a.token_metadata_program == host.token_metadata_id
        && (a.sysvar_instructions == host.sysvar_instructions_id
            && (a.authorization_rules_program == host.auth_rules_id)))
      (err constraint_address)

-- `escrow_seeds`
unfoldable pub escrow_seeds : EntryHost → (user expected : PublicKey) → Outcome (Unit {0})
escrow_seeds host user expected =
    ensure (host.find_user_escrow user == expected) (err invalid_escrow)

-- `end_date.is_some() && unix_timestamp > end_date.unwrap()`
unfoldable pub has_ended : (now : ℤ) → StakePool → Bool
has_ended now pool = elim pool.end_date [ none ↦ false | some date ↦ ltb_ℤ date now ]

-- `as u32` of an `i64`, in two's complement
unfoldable pub as_u32 : ℤ → ℕ
as_u32 (pos n) = n % 2 ^ 32
as_u32 (negsuc n) = 2 ^ 32 - 1 - n % 2 ^ 32

-- The update of an entry that is staked already.
unfoldable pub catch_up : (now : ℤ) → StakeEntry → Outcome StakeEntry
catch_up now entry =
    let counted = increment_total_stake_seconds now entry in
    if pos_part entry.amount == 0
    then done entry
    else (counted >>= λ e. done (record e { cooldown_start_seconds = none }))

-- What staking does to the pool and the entry.
unfoldable pub enter :
    (now : ℤ) → (user : PublicKey) → StakePool → StakeEntry → Outcome (StakePool × StakeEntry)
enter now user pool entry = do
  updated ← catch_up now entry
  amount ← checked_add 64 (pos_part updated.amount) 1
  total ← checked_add 32 pool.total_staked 1
  done (
    record pool { total_staked = total },
    record updated {
      last_staker = user;
      last_staked_at = now;
      last_updated_at = now;
      amount = pos amount;
    },
  )

-- The two calls that close a stake: `Delegate` and `Lock`.
abbrev pub lock_token :
    {Tokens : Type 0} → TokenMetadata Tokens → PnftAccounts → Tokens → Outcome Tokens
lock_token meta a tokens = invoked (meta.delegate a tokens) >>= λ t. invoked (meta.lock a t)

unfoldable pub stake_pnft :
    {Tokens : Type 0}
    → EntryHost
    → TokenMetadata Tokens
    → (now : ℤ) → PnftAccounts
    → StakePool
    → StakeEntry
    → UserEscrow
    → Tokens
    → Outcome (PnftResult Tokens)
stake_pnft host meta now a pool entry escrow tokens = do
  check_accounts host a entry
  escrow_seeds host a.user a.user_escrow
  ensure (not (has_ended now pool)) (err stake_pool_has_ended)
  rest ←
      mint_is_allowed host.mints a.stake_pool pool a.stake_mint_metadata a.metadata_info
        a.stake_mint a.remaining_accounts
  (payments, left) ← handle_payment_info host.payments rest
  (pool', entry') ← enter now a.user pool entry
  tokens' ← lock_token meta a tokens
  done (record {
    pool = pool';
    entry = entry';
    escrow = record escrow { user = a.user };
    tokens = tokens';
    payments = payments;
  })

-- The minimum time, if the pool has one.
unfoldable pub check_min_stake : (now : ℤ) → StakePool → StakeEntry → Outcome (Unit {0})
check_min_stake now pool entry = elim pool.min_stake_seconds [
  | none ↦ done tt
  | some seconds ↦
      ensure (not (ltb 0 seconds && ltb (as_u32 (now -ℤ entry.last_staked_at)) seconds))
        (err min_stake_seconds_not_satisfied)
]

-- Whether unstaking starts the cooldown of the entry, which is then all that it does.
unfoldable pub starts_cooldown : (now : ℤ) → StakePool → StakeEntry → Outcome Bool
starts_cooldown now pool entry = elim pool.cooldown_seconds [
  | none ↦ done false
  | some seconds ↦ elim entry.cooldown_start_seconds [
    | none ↦ done (ltb 0 seconds)
    | some start ↦
        if ltb 0 seconds && ltb (as_u32 (now -ℤ start)) seconds
        then err cooldown_second_remaining
        else done false
  ]
]

-- What unstaking does to the pool and the entry.
unfoldable pub leave :
    EntryHost → (now : ℤ) → StakePool → StakeEntry → Outcome (StakePool × StakeEntry)
leave host now pool entry = do
  updated ← increment_total_stake_seconds now entry
  let entry' = record updated {
    last_staker = host.payments.default_key;
    amount = pos 0;
    cooldown_start_seconds = none;
  }
  total ← checked_sub pool.total_staked 1
  done (
    record pool { total_staked = total },
    if pool.reset_on_unstake
        then record entry' { total_stake_seconds = pos 0; multiplier_stake_seconds = none }
        else entry',
  )

abbrev pub revoke_args : {Tokens : Type 0} → TokenMetadata Tokens → Option ℕ → RevokeArgs
revoke_args meta none = staking_v1
revoke_args meta (some role) = if role == meta.migration then migration_v1 else staking_v1

-- The two calls that end a stake: `Unlock`, and `Revoke` by the role in the token's record.
abbrev pub unlock_token :
    {Tokens : Type 0} → TokenMetadata Tokens → PnftAccounts → Tokens → Outcome Tokens
unlock_token meta a tokens = invoked (meta.unlock a tokens) >>= λ t.
    invoked (meta.delegate_role a.stake_token_record_account t) >>= λ role.
    invoked (meta.revoke (revoke_args meta role) a t)

-- After the checks: the payment, the changes, and the token.
unfoldable pub finish_unstake :
    {Tokens : Type 0}
    → EntryHost
    → TokenMetadata Tokens
    → (now : ℤ) → PnftAccounts
    → StakePool
    → StakeEntry
    → UserEscrow
    → Tokens
    → Outcome (PnftResult Tokens)
finish_unstake host meta now a pool entry escrow tokens = do
  (payments, left) ← handle_payment_info host.payments a.remaining_accounts
  (pool', entry') ← leave host now pool entry
  tokens' ← unlock_token meta a tokens
  done (record {
    pool = pool';
    entry = entry';
    escrow = record escrow { user = a.user };
    tokens = tokens';
    payments = payments;
  })

unfoldable pub unstake_pnft :
    {Tokens : Type 0}
    → EntryHost
    → TokenMetadata Tokens
    → (now : ℤ) → PnftAccounts
    → StakePool
    → StakeEntry
    → UserEscrow
    → Tokens
    → Outcome (PnftResult Tokens)
unstake_pnft host meta now a pool entry escrow tokens = do
  check_accounts host a entry
  escrow_seeds host a.user a.user_escrow
  check_min_stake now pool entry
  starts ← starts_cooldown now pool entry
  let finished = finish_unstake host meta now a pool entry escrow tokens
  if starts
      then done (record {
        pool = pool;
        entry = record entry { cooldown_start_seconds = some now };
        escrow = record escrow { user = a.user };
        tokens = tokens;
        payments = [];
      })
      else finished
