-- ===== src/Rewards/ClosedForm.antt =====
-- `calculatePendingRewards` of sdk/rewardDistribution.ts on amounts that are not negative, as one
-- formula over the natural numbers.
use discount_program.Common.{
  ℕ, zero, suc, ◌+◌, ◌-◌, ◌*◌, ◌/◌, ◌%◌, ◌^◌, ◌≤◌, ◌<◌, ◌≡◌, refl, ◌∙◌, ap, Option, none, some, ok,
  min, arith, if◌then◌else◌,
}
use native.Mathlib.Nat.{pow-suc}
use discount_program.Common.Int.{ℤ, pos, pos_part, ltb_ℤ, pos-add, pos-sub, pos-mul}
use discount_program.Data.{StakeEntry, RewardEntry, RewardDistributor}
use discount_program.Packages.{BigNumber, IsDocumented}
use discount_program.Rewards.Pending.{
  RewardEntryData, current_seconds, staked_seconds, reward_seconds_received, multiplier,
  cap_seconds, reward_seconds, reward_for, time_left, reward_amount_to_receive, next_rewards_in,
}

-- The number is not negative, as a `u64` or `u128` is not.
abbrev pub IsUnsigned : ℤ → Type 0
IsUnsigned x = x ≡ pos (pos_part x)

abbrev pub AreUnsigned : Option ℤ → Type 0
AreUnsigned none = Unit
AreUnsigned (some x) = IsUnsigned x

-- The fields that the calculation reads are not negative.
pub record IsEntry (e : StakeEntry) : Type 0 where
  pub staked_at : IsUnsigned e.last_staked_at
  pub amount : IsUnsigned e.amount
  pub total : IsUnsigned e.total_stake_seconds
  pub cooldown : AreUnsigned e.cooldown_start_seconds

pub record IsDistributor (d : RewardDistributor) : Type 0 where
  pub duration : IsUnsigned d.reward_duration_seconds
  pub amount : IsUnsigned d.reward_amount
  pub multiplier : IsUnsigned d.default_multiplier
  pub most : AreUnsigned d.max_reward_seconds_received
  -- a `u8`
  pub decimals : d.multiplier_decimals < 256

pub record IsRewardEntry (r : RewardEntry) : Type 0 where
  pub received : IsUnsigned r.reward_seconds_received
  pub multiplier : IsUnsigned r.multiplier

abbrev pub AreRewardEntries : Option RewardEntry → Type 0
AreRewardEntries none = Unit
AreRewardEntries (some r) = IsRewardEntry r

abbrev pub parsed_entry : Option RewardEntryData → Option RewardEntry
parsed_entry none = none
parsed_entry (some account) = some account.parsed

-- The quantities of the calculation, as natural numbers.
abbrev pub current : StakeEntry → ℕ → ℕ
current e now = elim e.cooldown_start_seconds [ none ↦ now | some s ↦ pos_part s ]

abbrev pub staked : StakeEntry → ℕ → ℕ
staked e now =
    (current e now - pos_part e.last_staked_at) * pos_part e.amount + pos_part e.total_stake_seconds

abbrev pub capped : RewardDistributor → ℕ → ℕ
capped d seconds = elim d.max_reward_seconds_received [
  | none ↦ seconds
  | some most ↦ min seconds (pos_part most)
]

abbrev pub received : Option RewardEntry → ℕ
received none = 0
received (some r) = pos_part r.reward_seconds_received

abbrev pub factor : RewardDistributor → Option RewardEntry → ℕ
factor d none = pos_part d.default_multiplier
factor d (some r) = pos_part r.multiplier

-- Whole periods, times the reward of one, scaled by the multiplier.
abbrev pub earned : RewardDistributor → Option RewardEntry → ℕ → ℕ
earned d r seconds =
    (seconds - received r)
    / pos_part d.reward_duration_seconds
    * pos_part d.reward_amount
    * factor d r
    / 10 ^ d.multiplier_decimals

min_lem : (a b : ℕ) → (if ltb_ℤ (pos a) (pos b) then pos a else pos b) ≡ pos (min a b)
min_lem a b = ground arith

cap_lem :
    (n : BigNumber) (doc : IsDocumented n) (o : Option ℤ)
    → AreUnsigned o
    → (s : ℕ)
    → cap_seconds n o (pos s) ≡ pos (elim o [ none ↦ s | some most ↦ min s (pos_part most) ])
unfolding cap_seconds
cap_lem n doc none h s = refl
cap_lem n doc (some most) h s = rw (h, doc.minimum_lem) (min_lem s (pos_part most))

pow_pos : (k : ℕ) → 0 < 10 ^ k
pow_pos zero = omega arith
pow_pos (suc k) = omega (arith, pow-suc 10 k, pow_pos k)

reward_for_lem :
    (n : BigNumber) (doc : IsDocumented n) (s q u a f k m : ℕ)
    → q ≤ s
    → 0 < u
    → k < 256
    → reward_for n (pos s) (pos q) (pos u) (pos a) (pos f) k (pos m)
      ≡ ok (pos (min ((s - q) / u * a * f / 10 ^ k) m))
unfolding reward_for
reward_for_lem n doc s q u a f k m due some_time small =
    rw
      (
        doc.sub_lem,
        pos-sub s q due,
        doc.div_lem (s - q) u some_time,
        doc.number_lem 10 (omega arith),
        doc.number_lem k (omega arith),
        doc.pow_lem,
        doc.mul_lem,
        doc.mul_lem,
        pos-mul,
        pos-mul,
        doc.div_lem ((s - q) / u * a * f) (10 ^ k) (pow_pos k),
        doc.gt_lem,
      )
      (ground arith)

time_left_lem :
    (n : BigNumber) (doc : IsDocumented n) (u t : ℕ)
    → 0 < u
    → time_left n (pos u) (pos t) ≡ ok (pos (u - t % u))
unfolding time_left
time_left_lem n doc u t some_time =
    rw (doc.remainder_lem t u some_time, doc.sub_lem) (ap ok (pos-sub u (t % u) (grind arith)))

accrue_lem :
    (n : BigNumber) (doc : IsDocumented n) (t : ℕ) (x y : ℤ)
    → IsUnsigned x
    → IsUnsigned y
    → n.add (n.mul (pos t) x) y ≡ pos (t * pos_part x + pos_part y)
accrue_lem n doc t x y hx hy = rw (hx, hy, doc.mul_lem, pos-mul, doc.add_lem) (pos-add _ _)

module _ (n : BigNumber) (doc : IsDocumented n) (d : RewardDistributor) (e : StakeEntry) (now : ℕ)
    (in_range : now < 2 ^ 53) (de : IsDistributor d) (ee : IsEntry e)
    (later : pos_part e.last_staked_at ≤ current e now) where
  current_seconds_lem : current_seconds n e (pos now) ≡ pos (current e now)
  unfolding current_seconds
  current_seconds_lem = ground (arith, doc.number_lem now in_range, ee.cooldown)

  since_lem :
      n.sub (current_seconds n e (pos now)) e.last_staked_at
      ≡ pos (current e now - pos_part e.last_staked_at)
  since_lem = rw (current_seconds_lem, ee.staked_at, doc.sub_lem) (pos-sub _ _ later)

  pub staked_seconds_lem : staked_seconds n e (pos now) ≡ pos (staked e now)
  unfolding staked_seconds
  staked_seconds_lem =
      ap (λ t. n.add (n.mul t e.amount) e.total_stake_seconds) since_lem
      ∙ accrue_lem n doc _ e.amount e.total_stake_seconds ee.amount ee.total

  reward_seconds_lem : reward_seconds n d e (pos now) ≡ pos (capped d (staked e now))
  unfolding reward_seconds
  reward_seconds_lem =
      ap (cap_seconds n d.max_reward_seconds_received) staked_seconds_lem
      ∙ cap_lem n doc d.max_reward_seconds_received de.most (staked e now)

  module _ (r : Option RewardEntry) (re : AreRewardEntries r) where
    received_lem : reward_seconds_received n r ≡ pos (received r)
    unfolding reward_seconds_received
    received_lem = ground (arith, doc.number_lem 0 (omega arith), re)

    multiplier_lem : multiplier n d r ≡ pos (factor d r)
    unfolding multiplier
    multiplier_lem = ground (arith, de.multiplier, re)

    module _ (some_time : 0 < pos_part d.reward_duration_seconds)
        (due : received r ≤ capped d (staked e now)) (remaining : ℕ) where
      pub reward_amount_lem :
          reward_amount_to_receive n d e r (pos remaining) (pos now)
          ≡ ok (pos (min (earned d r (capped d (staked e now))) remaining))
      unfolding reward_amount_to_receive
      reward_amount_lem =
          rw (reward_seconds_lem, received_lem, multiplier_lem, de.duration, de.amount)
            (reward_for_lem n doc _ _ _ _ _ _ _ due some_time de.decimals)

      pub next_rewards_lem :
          next_rewards_in n d e (pos now)
          ≡ ok (
              pos (
                pos_part d.reward_duration_seconds
                - (current e now - pos_part e.last_staked_at + pos_part e.total_stake_seconds)
                  % pos_part d.reward_duration_seconds))
      unfolding next_rewards_in
      next_rewards_lem =
          rw (since_lem, ee.total, doc.add_lem, pos-add, de.duration)
            (time_left_lem n doc _ _ some_time)
