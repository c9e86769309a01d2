-- ===== src/Idl/Rewards.antt =====
-- The instructions of the IDL (sdk/idl/cardinal_rewards_center.ts) on reward distributors and reward entries.
use discount_program.Common.{true, false, [], ◌∷◌}
use discount_program.Idl.Defs.{IdlInstruction, account, field, u64, defined}

abbrev pub init_reward_distributor : IdlInstruction
init_reward_distributor = record {
  name = "initRewardDistributor";
  accounts =
      account "rewardDistributor" true false
      ∷ account "stakePool" false false
      ∷ account "rewardMint" true false
      ∷ account "authority" true true
      ∷ account "payer" true true
      ∷ account "tokenProgram" false false
      ∷ account "systemProgram" false false
      ∷ [];
  args = field "ix" (defined "InitRewardDistributorIx") ∷ [];
}

abbrev pub update_reward_distributor : IdlInstruction
update_reward_distributor = record {
  name = "updateRewardDistributor";
  accounts = account "rewardDistributor" true false ∷ account "authority" false true ∷ [];
  args = field "ix" (defined "UpdateRewardDistributorIx") ∷ [];
}

abbrev pub close_reward_distributor : IdlInstruction
close_reward_distributor = record {
  name = "closeRewardDistributor";
  accounts =
      account "rewardDistributor" true false
      ∷ account "stakePool" false false
      ∷ account "rewardMint" true false
      ∷ account "rewardDistributorTokenAccount" true false
      ∷ account "authorityTokenAccount" true false
      ∷ account "signer" true true
      ∷ account "tokenProgram" false false
      ∷ [];
  args = [];
}

abbrev pub reclaim_funds : IdlInstruction
reclaim_funds = record {
  name = "reclaimFunds";
  accounts =
      account "rewardDistributor" true false
      ∷ account "rewardDistributorTokenAccount" true false
      ∷ account "authorityTokenAccount" true false
      ∷ account "authority" true true
      ∷ account "tokenProgram" false false
      ∷ [];
  args = field "amount" u64 ∷ [];
}

abbrev pub init_reward_entry : IdlInstruction
init_reward_entry = record {
  name = "initRewardEntry";
  accounts =
      account "rewardEntry" true false
      ∷ account "stakeEntry" false false
      ∷ account "rewardDistributor" true false
      ∷ account "payer" true true
      ∷ account "systemProgram" false false
      ∷ [];
  args = [];
}

abbrev pub close_reward_entry : IdlInstruction
close_reward_entry = record {
  name = "closeRewardEntry";
  accounts =
      account "rewardDistributor" false false
      ∷ account "rewardEntry" true false
      ∷ account "authority" true true
      ∷ [];
  args = [];
}

abbrev pub update_reward_entry : IdlInstruction
update_reward_entry = record {
  name = "updateRewardEntry";
  accounts =
      account "rewardEntry" true false
      ∷ account "rewardDistributor" false false
      ∷ account "authority" false true
      ∷ [];
  args = field "ix" (defined "UpdateRewardEntryIx") ∷ [];
}

abbrev pub claim_rewards : IdlInstruction
claim_rewards = record {
  name = "claimRewards";
  accounts =
      account "rewardEntry" true false
      ∷ account "rewardDistributor" true false
      ∷ account "stakeEntry" false false
      ∷ account "stakePool" false false
      ∷ account "rewardMint" true false
      ∷ account "userRewardMintTokenAccount" true false
      ∷ account "rewardDistributorTokenAccount" true false
      ∷ account "user" true true
      ∷ account "tokenProgram" false false
      ∷ account "systemProgram" false false
      ∷ [];
  args = [];
}
