-- ===== src/Idl/Staking.antt =====
-- The instructions of the IDL (sdk/idl/cardinal_rewards_center.ts) on staking and unstaking.
use discount_program.Common.{true, false, [], ◌∷◌}
use discount_program.Idl.Defs.{IdlInstruction, account, field, u64}

abbrev pub stake_edition : IdlInstruction
stake_edition = record {
  name = "stakeEdition";
  accounts =
      account "stakePool" true false
      ∷ account "stakeEntry" true false
      ∷ account "stakeMint" false false
      ∷ account "stakeMintEdition" false false
      ∷ account "stakeMintMetadata" false false
      ∷ account "user" true true
      ∷ account "userEscrow" true false
      ∷ account "userStakeMintTokenAccount" true false
      ∷ account "tokenMetadataProgram" false false
      ∷ account "tokenProgram" false false
      ∷ account "systemProgram" false false
      ∷ [];
  args = field "amount" u64 ∷ [];
}

abbrev pub unstake_edition : IdlInstruction
unstake_edition = record {
  name = "unstakeEdition";
  accounts =
      account "stakePool" true false
      ∷ account "stakeEntry" true false
      ∷ account "stakeMint" false false
      ∷ account "stakeMintEdition" false false
      ∷ account "user" true true
      ∷ account "userEscrow" true false
      ∷ account "userStakeMintTokenAccount" true false
      ∷ account "tokenMetadataProgram" false false
      ∷ account "tokenProgram" false false
      ∷ account "systemProgram" false false
      ∷ [];
  args = [];
}

abbrev pub stake_ccs : IdlInstruction
stake_ccs = record {
  name = "stakeCcs";
  accounts =
      account "stakePool" true false
      ∷ account "stakeEntry" true false
      ∷ account "stakeMint" false false
      ∷ account "stakeMintMetadata" false false
      ∷ account "stakeMintManager" true false
      ∷ account "stakeMintManagerRuleset" false false
      ∷ account "user" true true
      ∷ account "userEscrow" true false
      ∷ account "userStakeMintTokenAccount" true false
      ∷ account "creatorStandardProgram" false false
      ∷ account "tokenProgram" false false
      ∷ account "systemProgram" false false
      ∷ [];
  args = field "amount" u64 ∷ [];
}

abbrev pub unstake_ccs : IdlInstruction
unstake_ccs = record {
  name = "unstakeCcs";
  accounts =
      account "stakePool" true false
      ∷ account "stakeEntry" true false
      ∷ account "stakeMint" false false
      ∷ account "stakeMintManager" true false
      ∷ account "user" true true
      ∷ account "userEscrow" true false
      ∷ account "userStakeMintTokenAccount" true false
      ∷ account "creatorStandardProgram" false false
      ∷ account "tokenProgram" false false
      ∷ account "systemProgram" false false
      ∷ [];
  args = [];
}

abbrev pub stake_pnft : IdlInstruction
stake_pnft = record {
  name = "stakePnft";
  accounts =
      account "stakePool" true false
      ∷ account "stakeEntry" true false
      ∷ account "stakeMint" false false
      ∷ account "stakeMintMetadata" true false
      ∷ account "stakeMintEdition" false false
      ∷ account "stakeTokenRecordAccount" true false
      ∷ account "authorizationRules" false false
      ∷ account "user" true true
      ∷ account "userEscrow" true false
      ∷ account "userStakeMintTokenAccount" true false
      ∷ account "tokenMetadataProgram" false false
      ∷ account "sysvarInstructions" false false
      ∷ account "authorizationRulesProgram" false false
      ∷ account "tokenProgram" false false
      ∷ account "systemProgram" false false
      ∷ [];
  args = [];
}

abbrev pub unstake_pnft : IdlInstruction
unstake_pnft = record {
  name = "unstakePnft";
  accounts =
      account "stakePool" true false
      ∷ account "stakeEntry" true false
      ∷ account "stakeMint" false false
      ∷ account "stakeMintMetadata" true false
      ∷ account "stakeMintEdition" false false
      ∷ account "stakeTokenRecordAccount" true false
      ∷ account "authorizationRules" false false
      ∷ account "user" true true
      ∷ account "userEscrow" true false
      ∷ account "userStakeMintTokenAccount" true false
      ∷ account "tokenMetadataProgram" false false
      ∷ account "sysvarInstructions" false false
      ∷ account "authorizationRulesProgram" false false
      ∷ account "tokenProgram" false false
      ∷ account "systemProgram" false false
      ∷ [];
  args = [];
}
