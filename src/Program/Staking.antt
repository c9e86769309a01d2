-- ===== src/Program/Staking.antt =====
-- programs/rewards-center/src/stake_entry/update_total_stake_seconds.rs: how a stake entry gains
-- seconds. The entry is the account of the IDL; `now` is `Clock::get().unwrap().unix_timestamp`.
use discount_program.Common.{ℕ, ◌+◌, ◌-◌, ◌/◌, ◌^◌, min, Option, none, some, ◌==◌, if◌then◌else◌}
use discount_program.Common.Int.{ℤ, pos, negsuc, pos_part}
use discount_program.Data.{StakeEntry}
use discount_program.Payment.{basis_points_divisor}
use discount_program.Program.Outcome.{
  Outcome, done, err, panic, ◌>>=◌, checked_mul, cannot_update_unstaked_entry,
  cooldown_second_remaining,
}
use discount_program.Program.Payment.{Host}

-- `u128::try_from(x).unwrap()` of an `i64`
abbrev pub to_u128 : ℤ → Outcome ℕ
to_u128 (pos n) = done n
to_u128 (negsuc n) = panic

-- `a.saturating_add(b)` of `u128`s
abbrev pub saturating_add : ℕ → ℕ → ℕ
saturating_add a b = min (a + b) (2 ^ 128 - 1)

abbrev pub unwrap_or : Option ℤ → ℤ → ℤ
unwrap_or none b = b
unwrap_or (some a) b = a

-- The `multiplier_stake_seconds` of the entry, after `increased` more seconds.
unfoldable pub multiplied_seconds : StakeEntry → (increased : ℕ) → Outcome (Option ℤ)
multiplied_seconds e increased = elim e.multiplier_basis_points [
  | none ↦ done e.multiplier_stake_seconds
  | some points ↦
      let base = pos_part (unwrap_or e.multiplier_stake_seconds e.total_stake_seconds) in
      (checked_mul 128 increased (pos_part points) >>= λ product.
      done (some (pos (saturating_add base (product / basis_points_divisor)))))
]

unfoldable pub increment_total_stake_seconds : (now : ℤ) → StakeEntry → Outcome StakeEntry
increment_total_stake_seconds now e = do
  current ← to_u128 (unwrap_or e.cooldown_start_seconds now)
  updated ← to_u128 e.last_updated_at
  increased ← checked_mul 128 (current - updated) (pos_part e.amount)
  multiplied ← multiplied_seconds e increased
  done (record e {
    multiplier_stake_seconds = multiplied;
    total_stake_seconds = pos (saturating_add (pos_part e.total_stake_seconds) increased);
    last_updated_at = now;
  })

-- The handler of `updateTotalStakeSeconds`, with the constraint on its account.
unfoldable pub update_total_stake_seconds : Host → (now : ℤ) → StakeEntry → Outcome StakeEntry
update_total_stake_seconds host now e =
    if e.last_staker == host.default_key
    then err cannot_update_unstaked_entry
    else elim e.cooldown_start_seconds [
      | none ↦ increment_total_stake_seconds now e
      | some _ ↦ err cooldown_second_remaining
    ]
