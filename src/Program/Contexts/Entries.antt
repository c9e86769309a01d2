-- ===== src/Program/Contexts/Entries.antt =====
-- The accounts and arguments of the instructions on stake entries, from their contexts in
-- programs/rewards-center/src, by the names that Anchor's clients use.
use discount_program.Common.{true, false, [], ◌∷◌}
use discount_program.Idl.Defs.{IdlInstruction, account, field, public_key}

abbrev pub init_entry_context : IdlInstruction
init_entry_context = record {
  name = "initEntry";
  accounts =
      account "stakeEntry" true false
      ∷ account "stakePool" true false
      ∷ account "stakeMint" false false
      ∷ account "stakeMintMetadata" false false
      ∷ account "payer" true true
      ∷ account "systemProgram" false false
      ∷ [];
  args = field "user" public_key ∷ [];
}

abbrev pub update_total_stake_seconds_context : IdlInstruction
update_total_stake_seconds_context = record {
  name = "updateTotalStakeSeconds";
  accounts = account "stakeEntry" true false ∷ account "updater" true true ∷ [];
  args = [];
}

abbrev pub reset_stake_entry_context : IdlInstruction
reset_stake_entry_context = record {
  name = "resetStakeEntry";
  accounts =
      account "stakePool" false false
      ∷ account "stakeEntry" true false
      ∷ account "authority" true true
      ∷ [];
  args = [];
}

abbrev pub resize_stake_entry_context : IdlInstruction
resize_stake_entry_context = record {
  name = "resizeStakeEntry";
  accounts =
      account "stakeEntry" true false
      ∷ account "payer" true true
      ∷ account "systemProgram" false false
      ∷ [];
  args = [];
}

abbrev pub close_stake_entry_context : IdlInstruction
close_stake_entry_context = record {
  name = "closeStakeEntry";
  accounts =
      account "stakePool" false false
      ∷ account "stakeEntry" true false
      ∷ account "authority" true true
      ∷ [];
  args = [];
}

abbrev pub stake_pnft_context : IdlInstruction
stake_pnft_context = record {
  name = "stakePnft";
  accounts =
      account "stakePool" true false
      ∷ account "stakeEntry" true false
      ∷ account "stakeMint" false false
      ∷ account "stakeMintMetadata" true false
      ∷ account "stakeMintEdition" false false
      ∷ account "stakeTokenRecordAccount" true false
      ∷ account "authorizationRules" false false
      ∷ account "user" true true
      ∷ account "userEscrow" true false
      ∷ account "userStakeMintTokenAccount" true false
      ∷ account "tokenMetadataProgram" false false
      ∷ account "sysvarInstructions" false false
      ∷ account "authorizationRulesProgram" false false
      ∷ account "tokenProgram" false false
      ∷ account "systemProgram" false false
      ∷ [];
  args = [];
}

abbrev pub unstake_pnft_context : IdlInstruction
unstake_pnft_context = record {
  name = "unstakePnft";
  accounts =
      account "stakePool" true false
      ∷ account "stakeEntry" true false
      ∷ account "stakeMint" false false
      ∷ account "stakeMintMetadata" true false
      ∷ account "stakeMintEdition" false false
      ∷ account "stakeTokenRecordAccount" true false
      ∷ account "authorizationRules" false false
      ∷ account "user" true true
      ∷ account "userEscrow" true false
      ∷ account "userStakeMintTokenAccount" true false
      ∷ account "tokenMetadataProgram" false false
      ∷ account "sysvarInstructions" false false
      ∷ account "authorizationRulesProgram" false false
      ∷ account "tokenProgram" false false
      ∷ account "systemProgram" false false
      ∷ [];
  args = [];
}
