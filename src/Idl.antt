-- ===== src/Idl.antt =====
-- The IDL that the SDK ships (`export const IDL` of sdk/idl/cardinal_rewards_center.ts), by the
-- instructions that it declares.
pub mod Defs
pub mod Pools
pub mod Entries
pub mod Staking
pub mod Boosts
pub mod Receipts
pub mod Rewards
pub mod Payments
pub mod Types
pub mod Errors
pub use Defs.{IdlType, IdlAccount, IdlField, IdlInstruction, Idl}
use discount_program.Common.{[], ◌∷◌}
use Pools.{init_pool, update_pool, close_stake_pool, authorize_mint, deauthorize_mint}
use Entries.{
  init_entry, update_total_stake_seconds, reset_stake_entry, set_stake_entry_multiplier,
  set_stake_entry_multiplier_stake_seconds, increment_stake_entry_multiplier_stake_seconds,
  decrement_stake_entry_multiplier_stake_seconds, resize_stake_entry, close_stake_entry,
}
use Staking.{stake_edition, unstake_edition, stake_ccs, unstake_ccs, stake_pnft, unstake_pnft}
use Boosts.{init_stake_booster, update_stake_booster, boost_stake_entry, close_stake_booster}
use Receipts.{
  init_receipt_manager, update_receipt_manager, close_receipt_manager, init_reward_receipt,
  close_reward_receipt, claim_reward_receipt, set_reward_receipt_allowed,
}
use Rewards.{
  init_reward_distributor, update_reward_distributor, close_reward_distributor, reclaim_funds,
  init_reward_entry, close_reward_entry, update_reward_entry, claim_rewards,
}
use Payments.{init_payment_info, update_payment_info, close_payment_info}

abbrev pub idl : Idl
idl = record {
  version = "3.7.0";
  name = "cardinal_rewards_center";
  instructions =
      init_pool ∷ update_pool ∷ close_stake_pool ∷ init_entry ∷ update_total_stake_seconds
      ∷ reset_stake_entry ∷ set_stake_entry_multiplier ∷ set_stake_entry_multiplier_stake_seconds
      ∷ increment_stake_entry_multiplier_stake_seconds
      ∷ decrement_stake_entry_multiplier_stake_seconds ∷ resize_stake_entry ∷ close_stake_entry
      ∷ stake_edition ∷ unstake_edition ∷ stake_ccs ∷ unstake_ccs ∷ stake_pnft ∷ unstake_pnft
      ∷ authorize_mint ∷ deauthorize_mint ∷ init_stake_booster ∷ update_stake_booster
      ∷ boost_stake_entry ∷ close_stake_booster ∷ init_receipt_manager ∷ update_receipt_manager
      ∷ close_receipt_manager ∷ init_reward_receipt ∷ close_reward_receipt ∷ claim_reward_receipt
      ∷ set_reward_receipt_allowed ∷ init_reward_distributor ∷ update_reward_distributor
      ∷ close_reward_distributor ∷ reclaim_funds ∷ init_reward_entry ∷ close_reward_entry
      ∷ update_reward_entry ∷ claim_rewards ∷ init_payment_info ∷ update_payment_info
      ∷ close_payment_info ∷ [];
}
