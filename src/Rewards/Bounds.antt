-- ===== src/Rewards/Bounds.antt =====
-- What the preview of `calculatePendingRewards` (sdk/rewardDistribution.ts) comes to.
use discount_program.Common.{
  ℕ, ◌+◌, ◌-◌, ◌%◌, ◌^◌, ◌≤◌, ◌<◌, ◌≡◌, ◌==◌, min, Result, ok, throw, ◌>>=◌, Ensures, Ensures-bind,
  Returns, Returns-eq, false, ==_iff, Option, arith, Bool-cases, inl, inr,
}
use discount_program.Common.Int.{ℤ, pos, pos_part, ◌≤ℤ◌}
use discount_program.Data.{RewardEntry, StakeEntry, RewardDistributor}
use discount_program.Packages.{BigNumber, IsDocumented}
use discount_program.Rewards.Pending.{
  StakeEntryData, RewardEntryData, RewardDistributorData, reward_for, reward_amount_to_receive,
  calculate_pending_rewards,
}
use discount_program.Rewards.ClosedForm.{
  IsEntry, IsDistributor, AreRewardEntries, parsed_entry, current, staked, capped, received, earned,
  reward_amount_lem, next_rewards_lem,
}

-- The inputs of a calculation in an ordinary state: no amount is negative, the clock is past the
-- time of staking, a period has some length, and no more seconds are paid for than were earned.
pub record IsOrdinary (d : RewardDistributor) (e : StakeEntry) (r : Option RewardEntry) (now : ℕ)
    : Type 0 where
  pub in_range : now < 2 ^ 53
  pub distributor : IsDistributor d
  pub entry : IsEntry e
  pub reward_entry : AreRewardEntries r
  pub later : pos_part e.last_staked_at ≤ current e now
  pub some_time : 0 < pos_part d.reward_duration_seconds
  pub due : received r ≤ capped d (staked e now)

-- The first of the two numbers, the amount, is at most `remaining`.
abbrev pub IsCapped : ℤ → ℤ × ℤ → Type 0
IsCapped remaining x = x.0 ≤ℤ remaining

-- Seconds since the entry was staked, plus the seconds on record.
abbrev pub elapsed : StakeEntry → ℕ → ℕ
elapsed e now = current e now - pos_part e.last_staked_at + pos_part e.total_stake_seconds

reward_for-Ensures :
    (n : BigNumber) (doc : IsDocumented n) (s q u a f : ℤ) (k : ℕ) (m : ℤ)
    → Ensures (λ x. x ≤ℤ m) (reward_for n s q u a f k m)
unfolding reward_for
reward_for-Ensures n doc s q u a f k m =
    Ensures-bind (λ x. x ≤ℤ m) (n.div (n.sub s q) u) _
      (λ periods.
        Ensures-bind (λ x. x ≤ℤ m) (n.div _ _) _ (λ reward. ground (arith, doc.gt_lem reward m)))

reward_amount-Ensures :
    (n : BigNumber) (doc : IsDocumented n) (d : RewardDistributor) (e : StakeEntry)
    (r : Option RewardEntry) (remaining now : ℤ)
    → Ensures (λ x. x ≤ℤ remaining) (reward_amount_to_receive n d e r remaining now)
unfolding reward_amount_to_receive
reward_amount-Ensures n doc d e r remaining now = reward_for-Ensures n doc _ _ _ _ _ _ remaining

pair-Ensures :
    (remaining : ℤ) (a b : Result ℤ)
    → Ensures (λ x. x ≤ℤ remaining) a
    → Ensures (IsCapped remaining) (a >>= λ x. b >>= λ y. ok (x, y))
pair-Ensures remaining (ok x) (ok y) h = h
pair-Ensures remaining (ok x) (throw _) h = tt
pair-Ensures remaining (throw _) b h = tt

module _ (n : BigNumber) (doc : IsDocumented n) (d : RewardDistributorData)
    (e : StakeEntryData) where
  other_pool :
      (r : Option RewardEntryData) (remaining now : ℤ)
      → (e.parsed.pool == d.parsed.stake_pool) ≡ false
      → calculate_pending_rewards n d e r remaining now ≡ ok (n.number (pos 0), n.number (pos 0))
  unfolding calculate_pending_rewards
  other_pool r remaining now other = rw other

  -- For an entry of the distributor's pool, in an ordinary state, the preview is the reward of the
  -- whole periods that are not yet paid, scaled by the multiplier and cut to what remains, and the
  -- time that is left of the current period (bn.js as documented).
  pub calculate_closed :
      (r : Option RewardEntryData) (remaining now : ℕ)
      → IsOrdinary d.parsed e.parsed (parsed_entry r) now
      → e.parsed.pool ≡ d.parsed.stake_pool
      → calculate_pending_rewards n d e r (pos remaining) (pos now)
        ≡ ok (
          pos (
              min
                (earned d.parsed (parsed_entry r) (capped d.parsed (staked e.parsed now)))
                remaining),
          pos (
              pos_part d.parsed.reward_duration_seconds
              - elapsed e.parsed now % pos_part d.parsed.reward_duration_seconds),
        )
  unfolding calculate_pending_rewards
  calculate_closed r remaining now h same = rw (
    (==_iff _ _).1 same,
    reward_amount_lem n doc d.parsed e.parsed now h.in_range h.distributor h.entry h.later
        (parsed_entry r) h.reward_entry h.some_time h.due remaining,
    next_rewards_lem n doc d.parsed e.parsed now h.in_range h.distributor h.entry h.later
        (parsed_entry r) h.reward_entry h.some_time h.due remaining,
  )

  -- For a remaining amount that is not negative, no preview that calculatePendingRewards returns is
  -- above it, whatever the accounts hold (bn.js as documented).
  pub calculate-le-remaining :
      (r : Option RewardEntryData) (remaining now : ℤ)
      → pos 0 ≤ℤ remaining
      → Ensures (IsCapped remaining) (calculate_pending_rewards n d e r remaining now)
  unfolding calculate_pending_rewards
  calculate-le-remaining r remaining now h =
      elim (Bool-cases (e.parsed.pool == d.parsed.stake_pool)) [
        | inl same ↦ rw same (
            pair-Ensures remaining _ _
              (reward_amount-Ensures n doc d.parsed e.parsed (parsed_entry r) remaining now))
        | inr other ↦ rw (other, doc.number_lem 0 (omega arith)) h
      ]

  -- An entry of another pool, or one in an ordinary state, has a preview, of at most what remains.
  pub calculate-Returns :
      (r : Option RewardEntryData) (remaining now : ℕ)
      → (e.parsed.pool ≡ d.parsed.stake_pool → IsOrdinary d.parsed e.parsed (parsed_entry r) now)
      → Returns
          (IsCapped (pos remaining))
          (calculate_pending_rewards n d e r (pos remaining) (pos now))
  calculate-Returns r remaining now h = elim (Bool-cases (e.parsed.pool == d.parsed.stake_pool)) [
    | inl same ↦
        Returns-eq (IsCapped (pos remaining)) _ _
          (calculate_closed r remaining now (h ((==_iff _ _).0 same)) ((==_iff _ _).0 same))
          (omega arith)
    | inr other ↦
        Returns-eq (IsCapped (pos remaining)) _ (n.number (pos 0), n.number (pos 0))
          (other_pool r (pos remaining) (pos now) other)
          (rw (doc.number_lem 0 (omega arith)) (omega arith))
  ]
