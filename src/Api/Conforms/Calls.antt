-- ===== src/Api/Conforms/Calls.antt =====
-- Each call that sdk/api.ts builds conforms to the IDL.
use discount_program.Common.{ℕ, Option, List, refl}
use discount_program.Data.{PublicKey, RewardDistributor, AccountMeta, MintManager}
use discount_program.Packages.{Packages}
use discount_program.Api.Mints.{update_total_stake_seconds_call, init_reward_entry_call}
use discount_program.Api.Stake.{
  StakeMint, init_entry_call, stake_ccs_call, stake_pnft_call, stake_edition_call,
}
use discount_program.Api.Claims.{ClaimMint}
use discount_program.Api.Unstake.{
  claim_rewards_call, unstake_ccs_call, unstake_pnft_call, unstake_edition_call,
}
use discount_program.Api.Actions.{
  init_reward_receipt_call, claim_reward_receipt_call, boost_stake_entry_call,
}
use discount_program.Api.Conforms.{Conforms}

module _ (p : Packages) (wallet : PublicKey) where
  pub update_total_stake_seconds_call-Conforms :
      (entry : PublicKey) → Conforms (update_total_stake_seconds_call p wallet entry)
  update_total_stake_seconds_call-Conforms entry = refl

  pub init_reward_entry_call-Conforms :
      (distributor entry : PublicKey) → Conforms (init_reward_entry_call p wallet distributor entry)
  init_reward_entry_call-Conforms distributor entry = refl

  pub init_reward_receipt_call-Conforms :
      (receipt manager entry : PublicKey)
      → Conforms (init_reward_receipt_call p wallet receipt manager entry)
  unfolding init_reward_receipt_call
  init_reward_receipt_call-Conforms receipt manager entry = refl

  pub claim_reward_receipt_call-Conforms :
      (receipt manager entry : PublicKey) (metas : List AccountMeta)
      → Conforms (claim_reward_receipt_call p wallet receipt manager entry metas)
  unfolding claim_reward_receipt_call
  claim_reward_receipt_call-Conforms receipt manager entry metas = refl

  pub boost_stake_entry_call-Conforms :
      (pool booster entry mint : PublicKey) (seconds : ℕ) (metas : List AccountMeta)
      → Conforms (boost_stake_entry_call p wallet pool booster entry mint seconds metas)
  unfolding boost_stake_entry_call
  boost_stake_entry_call-Conforms pool booster entry mint seconds metas = refl

module _ (p : Packages) (wallet pool : PublicKey) (metas : List AccountMeta) where
  pub init_entry_call-Conforms : (m : StakeMint) → Conforms (init_entry_call p wallet pool m metas)
  unfolding init_entry_call
  init_entry_call-Conforms m = refl

  pub stake_ccs_call-Conforms :
      (m : StakeMint) (manager : MintManager)
      → Conforms (stake_ccs_call p wallet pool m manager metas)
  unfolding stake_ccs_call
  stake_ccs_call-Conforms m manager = refl

  pub stake_pnft_call-Conforms :
      (m : StakeMint) (rule_set : Option PublicKey)
      → Conforms (stake_pnft_call p wallet pool m rule_set metas)
  unfolding stake_pnft_call
  stake_pnft_call-Conforms m rule_set = refl

  pub stake_edition_call-Conforms :
      (m : StakeMint) → Conforms (stake_edition_call p wallet pool m metas)
  unfolding stake_edition_call
  stake_edition_call-Conforms m = refl

  pub unstake_ccs_call-Conforms :
      (m : ClaimMint) → Conforms (unstake_ccs_call p wallet pool m metas)
  unfolding unstake_ccs_call
  unstake_ccs_call-Conforms m = refl

  pub unstake_pnft_call-Conforms :
      (m : ClaimMint) (rule_set : Option PublicKey)
      → Conforms (unstake_pnft_call p wallet pool m rule_set metas)
  unfolding unstake_pnft_call
  unstake_pnft_call-Conforms m rule_set = refl

  pub unstake_edition_call-Conforms :
      (m : ClaimMint) → Conforms (unstake_edition_call p wallet pool m metas)
  unfolding unstake_edition_call
  unstake_edition_call-Conforms m = refl

  pub claim_rewards_call-Conforms :
      (entry id : PublicKey) (d : RewardDistributor) (account : PublicKey)
      → Conforms (claim_rewards_call p wallet pool entry id d account metas)
  unfolding claim_rewards_call
  claim_rewards_call-Conforms entry id d account = refl
