-- ===== src/Program/Pnft/Changes.antt =====
-- What stakePnft and unstakePnft have done when they return, read off their results.
use discount_program.Common.{
  ◌≡◌, refl, Bool, true, false, ◌+◌, ◌<◌, ◌^◌, arith, some, none, inl, inr, ◌⊎◌,
}
use discount_program.Common.Int.{ℤ, pos, pos_part}
use discount_program.Data.{PublicKey, StakePool, StakeEntry, UserEscrow}
use discount_program.Program.Outcome.{done, err, ProgramError}
use discount_program.Program.Outcome.Done.{Outcome-cases}
use discount_program.Program.Payment.{ensure}
use discount_program.Program.Staking.{increment_total_stake_seconds}
use discount_program.Program.Entries.{EntryHost}
use discount_program.Program.Pnft.{
  PnftAccounts, PnftResult, TokenMetadata, check_accounts, catch_up, enter, leave, stake_pnft,
  unstake_pnft, finish_unstake, lock_token, unlock_token,
}

pub ensure-done :
    (b : Bool) (e : ProgramError) (u : Unit {0}) → ensure b (err e) ≡ done u → b ≡ true
ensure-done true e u h = refl
ensure-done false e u h = ground arith

-- An entry after an update: another count of seconds, as of `now`.
pub record Updated (now : ℤ) (e e' : StakeEntry) : Type 0 where
  pub amount : e'.amount ≡ e.amount
  pub pool : e'.pool ≡ e.pool
  pub stake_mint : e'.stake_mint ≡ e.stake_mint
  pub last_staker : e'.last_staker ≡ e.last_staker
  pub last_staked_at : e'.last_staked_at ≡ e.last_staked_at
  pub last_updated_at : e'.last_updated_at ≡ now
  pub cooldown : e'.cooldown_start_seconds ≡ e.cooldown_start_seconds
  pub points : e'.multiplier_basis_points ≡ e.multiplier_basis_points

pub increment-done :
    (now : ℤ) (e e' : StakeEntry) → increment_total_stake_seconds now e ≡ done e' → Updated now e e'
unfolding increment_total_stake_seconds
increment-done now e e' h = ground arith

-- The fields of an entry that an update leaves as they are.
pub record Kept (e e' : StakeEntry) : Type 0 where
  pub amount : e'.amount ≡ e.amount
  pub pool : e'.pool ≡ e.pool
  pub stake_mint : e'.stake_mint ≡ e.stake_mint
  pub points : e'.multiplier_basis_points ≡ e.multiplier_basis_points
  pub cooldown :
      ((pos_part e.amount ≡ 0) × (e'.cooldown_start_seconds ≡ e.cooldown_start_seconds))
      ⊎ (e'.cooldown_start_seconds ≡ none)

catch_up-done : (now : ℤ) (e e' : StakeEntry) → catch_up now e ≡ done e' → Kept e e'
unfolding catch_up
catch_up-done now e e' h = elim (Outcome-cases (increment_total_stake_seconds now e)) [
  | inl (x, is) ↦ ground (arith, increment-done now e x is)
  | inr (inl (_, is)) ↦ ground arith
  | inr (inr is) ↦ ground arith
]

-- A pool and an entry after a stake.
pub record Entered (now : ℤ) (user : PublicKey) (p p' : StakePool) (e e' : StakeEntry)
    : Type 0 where
  pub total : p'.total_staked ≡ p.total_staked + 1
  pub in_range : p'.total_staked < 2 ^ 32
  pub amount : e'.amount ≡ pos (pos_part e.amount + 1)
  pub pool : e'.pool ≡ e.pool
  pub stake_mint : e'.stake_mint ≡ e.stake_mint
  pub last_staker : e'.last_staker ≡ user
  pub last_staked_at : e'.last_staked_at ≡ now
  pub last_updated_at : e'.last_updated_at ≡ now
  pub points : e'.multiplier_basis_points ≡ e.multiplier_basis_points
  pub cooldown :
      ((pos_part e.amount ≡ 0) × (e'.cooldown_start_seconds ≡ e.cooldown_start_seconds))
      ⊎ (e'.cooldown_start_seconds ≡ none)

pub enter-done :
    (now : ℤ) (user : PublicKey) (pool : StakePool) (e : StakeEntry) (r : StakePool × StakeEntry)
    → enter now user pool e ≡ done r
    → Entered now user pool r.0 e r.1
unfolding enter
enter-done now user pool e r h = elim (Outcome-cases (catch_up now e)) [
  | inl (x, is) ↦ ground (arith, catch_up-done now e x is)
  | inr (inl (_, is)) ↦ ground arith
  | inr (inr is) ↦ ground arith
]

-- A pool and an entry after the end of a stake.
pub record Left (now : ℤ) (default_key : PublicKey) (p p' : StakePool) (e e' : StakeEntry)
    : Type 0 where
  pub total : p'.total_staked + 1 ≡ p.total_staked
  pub amount : e'.amount ≡ pos 0
  pub pool : e'.pool ≡ e.pool
  pub stake_mint : e'.stake_mint ≡ e.stake_mint
  pub last_staker : e'.last_staker ≡ default_key
  pub last_staked_at : e'.last_staked_at ≡ e.last_staked_at
  pub last_updated_at : e'.last_updated_at ≡ now
  pub cooldown : e'.cooldown_start_seconds ≡ none
  pub points : e'.multiplier_basis_points ≡ e.multiplier_basis_points

pub leave-done :
    (host : EntryHost) (now : ℤ) (pool : StakePool) (e : StakeEntry) (r : StakePool × StakeEntry)
    → leave host now pool e ≡ done r
    → Left now host.payments.default_key pool r.0 e r.1
unfolding leave
leave-done host now pool e r h = elim (Outcome-cases (increment_total_stake_seconds now e)) [
  | inl (x, is) ↦ ground (arith, increment-done now e x is)
  | inr (inl (_, is)) ↦ ground arith
  | inr (inr is) ↦ ground arith
]

module _ {Tokens : Type 0} (host : EntryHost) (meta : TokenMetadata Tokens) (now : ℤ)
    (a : PnftAccounts) (pool : StakePool) (e : StakeEntry) (escrow : UserEscrow) (tokens : Tokens)
    (r : PnftResult Tokens) where
  pub record Staked : Type 0 where
    pub accounts : check_accounts host a e ≡ done tt
    pub changes : enter now a.user pool e ≡ done (r.pool, r.entry)
    pub locked : lock_token meta a tokens ≡ done r.tokens

  pub stake_pnft-done : stake_pnft host meta now a pool e escrow tokens ≡ done r → Staked
  unfolding stake_pnft
  stake_pnft-done h = ground arith

  pub record Finished : Type 0 where
    pub changes : leave host now pool e ≡ done (r.pool, r.entry)
    pub unlocked : unlock_token meta a tokens ≡ done r.tokens

  pub record Cooling : Type 0 where
    pub same_pool : r.pool ≡ pool
    pub started : r.entry ≡ record e { cooldown_start_seconds = some now }
    pub same_tokens : r.tokens ≡ tokens

  pub finish_unstake-done : finish_unstake host meta now a pool e escrow tokens ≡ done r → Finished
  unfolding finish_unstake
  finish_unstake-done h = ground arith

  pub unstake_pnft-done :
      unstake_pnft host meta now a pool e escrow tokens ≡ done r
      → (check_accounts host a e ≡ done tt) × (Cooling ⊎ Finished)
  unfolding unstake_pnft
  unstake_pnft-done h = ground (arith, finish_unstake-done)
