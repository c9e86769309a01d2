-- ===== src/Program/Contexts.antt =====
-- The instructions that the program serves, with their accounts and arguments: the functions of the
-- `#[program]` module of programs/rewards-center/src/lib.rs.
pub mod Pools
mod Entries
mod Rewards
mod Payments
pub mod Agrees
use discount_program.Common.{List, [], ◌∷◌}
use discount_program.Idl.Defs.{IdlInstruction}
use Pools.{
  init_pool_context, update_pool_context, close_stake_pool_context, init_discount_context,
  authorize_mint_context, deauthorize_mint_context,
}
use Entries.{
  init_entry_context, update_total_stake_seconds_context, reset_stake_entry_context,
  resize_stake_entry_context, close_stake_entry_context, stake_pnft_context, unstake_pnft_context,
}
use Rewards.{
  init_reward_distributor_context, update_reward_distributor_context,
  close_reward_distributor_context, reclaim_funds_context, init_reward_entry_context,
  close_reward_entry_context, update_reward_entry_context, claim_rewards_context,
}
use Payments.{init_payment_info_context, update_payment_info_context, close_payment_info_context}

abbrev pub served : List IdlInstruction
served =
    init_pool_context ∷ update_pool_context ∷ close_stake_pool_context ∷ init_discount_context
    ∷ init_entry_context ∷ update_total_stake_seconds_context ∷ reset_stake_entry_context
    ∷ resize_stake_entry_context ∷ close_stake_entry_context ∷ stake_pnft_context
    ∷ unstake_pnft_context ∷ authorize_mint_context ∷ deauthorize_mint_context
    ∷ init_reward_distributor_context ∷ update_reward_distributor_context
    ∷ close_reward_distributor_context ∷ reclaim_funds_context ∷ init_reward_entry_context
    ∷ close_reward_entry_context ∷ update_reward_entry_context ∷ claim_rewards_context
    ∷ init_payment_info_context ∷ update_payment_info_context ∷ close_payment_info_context ∷ []
