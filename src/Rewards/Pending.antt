-- ===== src/Rewards/Pending.antt =====
-- `calculatePendingRewards` of sdk/rewardDistribution.ts. A `BN` is truthy also at zero, so a test
-- of an optional field asks only whether it is there.
use discount_program.Common.{ℕ, ◌==◌, Option, none, some, Result, ok, ◌>>=◌, if◌then◌else◌, not}
use discount_program.Common.Int.{ℤ, pos}
use discount_program.Data.{AccountType, StakeEntry, RewardEntry, RewardDistributor, IdlAccountData}
use discount_program.Packages.{BigNumber}

-- `StakeEntry`, `RewardEntry` and `RewardDistributor` of sdk/constants.ts
abbrev pub StakeEntryData : Type 0
StakeEntryData = IdlAccountData AccountType.stake_entry

abbrev pub RewardEntryData : Type 0
RewardEntryData = IdlAccountData AccountType.reward_entry

abbrev pub RewardDistributorData : Type 0
RewardDistributorData = IdlAccountData AccountType.reward_distributor

module _ (n : BigNumber) where
  open n use {add, sub, mul, div, remainder, pow, gt, minimum, number}

  -- `currentSeconds`: when the cooldown began, or else now
  unfoldable pub current_seconds : StakeEntry → ℤ → ℤ
  current_seconds e now = elim e.cooldown_start_seconds [ none ↦ number now | some s ↦ s ]

  -- the first `rewardSeconds`
  unfoldable pub staked_seconds : StakeEntry → ℤ → ℤ
  staked_seconds e now =
      add (mul (sub (current_seconds e now) e.last_staked_at) e.amount) e.total_stake_seconds

  unfoldable pub reward_seconds_received : Option RewardEntry → ℤ
  reward_seconds_received none = number (pos 0)
  reward_seconds_received (some r) = r.reward_seconds_received

  unfoldable pub multiplier : RewardDistributor → Option RewardEntry → ℤ
  multiplier d none = d.default_multiplier
  multiplier d (some r) = r.multiplier

  -- `BN.min(rewardSeconds, maxRewardSecondsReceived)`, where there is a maximum
  unfoldable pub cap_seconds : Option ℤ → ℤ → ℤ
  cap_seconds none seconds = seconds
  cap_seconds (some most) seconds = minimum seconds most

  -- `rewardSeconds`, after the cap
  unfoldable pub reward_seconds : RewardDistributor → StakeEntry → ℤ → ℤ
  reward_seconds d e now = cap_seconds d.max_reward_seconds_received (staked_seconds e now)

  -- The chain of operations that gives `rewardAmountToReceive`, and its cap by what remains.
  unfoldable pub reward_for :
      (seconds received duration amount factor : ℤ) (decimals : ℕ) (remaining : ℤ) → Result ℤ
  reward_for seconds received duration amount factor decimals remaining = do
    periods ← div (sub seconds received) duration
    reward ← div (mul (mul periods amount) factor) (pow (number (pos 10)) (number (pos decimals)))
    ok (if gt reward remaining then remaining else reward)

  unfoldable pub reward_amount_to_receive :
      RewardDistributor → StakeEntry → Option RewardEntry → (remaining now : ℤ) → Result ℤ
  reward_amount_to_receive d e r remaining now =
      reward_for (reward_seconds d e now) (reward_seconds_received r) d.reward_duration_seconds
        d.reward_amount (multiplier d r) d.multiplier_decimals remaining

  -- The time to the end of the period that `elapsed` stands in.
  unfoldable pub time_left : (duration elapsed : ℤ) → Result ℤ
  time_left duration elapsed = do ok (sub duration (← remainder elapsed duration))

  unfoldable pub next_rewards_in : RewardDistributor → StakeEntry → ℤ → Result ℤ
  next_rewards_in d e now =
      time_left d.reward_duration_seconds
        (add (sub (current_seconds e now) e.last_staked_at) e.total_stake_seconds)

  unfoldable pub calculate_pending_rewards :
      RewardDistributorData
      → StakeEntryData
      → Option RewardEntryData
      → (remaining now : ℤ) → Result (ℤ × ℤ)
  calculate_pending_rewards distributor entry reward_entry remaining now =
      let r : Option RewardEntry = elim reward_entry [
        | none ↦ none
        | some account ↦ some account.parsed
      ] in
      let computed : Result (ℤ × ℤ) =
        (reward_amount_to_receive distributor.parsed entry.parsed r remaining now >>= λ amount.
        next_rewards_in distributor.parsed entry.parsed now >>= λ next. ok (amount, next)) in
      if not (entry.parsed.pool == distributor.parsed.stake_pool)
      then ok (number (pos 0), number (pos 0))
      else computed
