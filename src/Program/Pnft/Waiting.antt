-- ===== src/Program/Pnft/Waiting.antt =====
-- The minimum time and the cooldown of a pool, for times that are not further apart than an u32
-- holds.
use discount_program.Common.{
  ℕ, ◌+◌, ◌-◌, ◌≤◌, ◌<◌, ◌^◌, ◌≡◌, refl, true, false, Option, some, none, arith, ltb, if◌then◌else◌,
}
use discount_program.Common.Int.{ℤ, pos, ◌-ℤ◌, pos-sub}
use discount_program.Data.{StakePool, StakeEntry}
use discount_program.Program.Outcome.{
  done, err, min_stake_seconds_not_satisfied, cooldown_second_remaining,
}
use discount_program.Program.Pnft.{check_min_stake, starts_cooldown, as_u32}

abbrev pub seconds_of : Option ℕ → ℕ
seconds_of none = 0
seconds_of (some n) = n

elapsed_u32 :
    (now x : ℕ) (t : ℤ) → t ≡ pos x → x ≤ now → now < x + 2 ^ 32 → as_u32 (pos now -ℤ t) ≡ now - x
unfolding as_u32
elapsed_u32 now x t is le lt = rw (is, pos-sub now x le) (omega arith)

pub min_stake_lem :
    (now x : ℕ) (pool : StakePool) (e : StakeEntry)
    → e.last_staked_at ≡ pos x
    → x + seconds_of pool.min_stake_seconds ≤ now
    → now < x + 2 ^ 32
    → check_min_stake (pos now) pool e ≡ done tt
unfolding check_min_stake
min_stake_lem now x pool e is le lt = ground (arith, elapsed_u32 now x e.last_staked_at is)

pub no_cooldown_lem :
    (now : ℤ) (pool : StakePool) (e : StakeEntry)
    → e.cooldown_start_seconds ≡ none
    → seconds_of pool.cooldown_seconds ≡ 0
    → starts_cooldown now pool e ≡ done false
unfolding starts_cooldown
no_cooldown_lem now pool e unset zero_ = ground arith

pub starts_lem :
    (now : ℤ) (pool : StakePool) (e : StakeEntry)
    → e.cooldown_start_seconds ≡ none
    → 0 < seconds_of pool.cooldown_seconds
    → starts_cooldown now pool e ≡ done true
unfolding starts_cooldown
starts_lem now pool e unset positive = ground arith

pub over_lem :
    (start now : ℕ) (pool : StakePool) (e : StakeEntry)
    → e.cooldown_start_seconds ≡ some (pos start)
    → start + seconds_of pool.cooldown_seconds ≤ now
    → now < start + 2 ^ 32
    → starts_cooldown (pos now) pool e ≡ done false
unfolding starts_cooldown
over_lem start now pool e set le lt = ground (arith, elapsed_u32 now start (pos start) refl)

-- The two checks at any time, by the times at which they let an entry through.
pub check_min_stake_lem :
    (now x : ℕ) (pool : StakePool) (e : StakeEntry)
    → e.last_staked_at ≡ pos x
    → x ≤ now
    → now < x + 2 ^ 32
    → check_min_stake (pos now) pool e ≡ (
        if ltb now (x + seconds_of pool.min_stake_seconds)
        then err min_stake_seconds_not_satisfied
        else done tt)
unfolding check_min_stake
check_min_stake_lem now x pool e is le lt = ground (arith, elapsed_u32 now x e.last_staked_at is)

pub starts_cooldown_lem :
    (start now : ℕ) (pool : StakePool) (e : StakeEntry)
    → e.cooldown_start_seconds ≡ some (pos start)
    → start ≤ now
    → now < start + 2 ^ 32
    → starts_cooldown (pos now) pool e ≡ (
        if ltb now (start + seconds_of pool.cooldown_seconds)
        then err cooldown_second_remaining
        else done false)
unfolding starts_cooldown
starts_cooldown_lem start now pool e set le lt =
    ground (arith, elapsed_u32 now start (pos start) refl)
