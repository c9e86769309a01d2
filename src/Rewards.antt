-- ===== src/Rewards.antt =====
-- sdk/rewardDistribution.ts: the rewards that a user can claim, as the SDK previews them.
pub mod Pending
pub mod Pool
pub mod ClosedForm
pub mod Bounds
pub mod Totals
pub use Pending.{
  StakeEntryData, RewardEntryData, RewardDistributorData, current_seconds, staked_seconds,
  reward_seconds_received, multiplier, cap_seconds, reward_seconds, reward_for, time_left,
  reward_amount_to_receive, next_rewards_in, calculate_pending_rewards,
}
pub use Pool.{
  Preview, RewardMap, find_reward_entry, reward_map_from, get_reward_map, split_entries,
  get_pending_rewards_for_pool,
}
