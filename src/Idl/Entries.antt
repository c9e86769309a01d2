-- ===== src/Idl/Entries.antt =====
-- The instructions of the IDL (sdk/idl/cardinal_rewards_center.ts) on stake entries.
use discount_program.Common.{true, false, [], ◌∷◌}
use discount_program.Idl.Defs.{IdlInstruction, account, field, u64, u128, public_key, option}

abbrev pub init_entry : IdlInstruction
init_entry = record {
  name = "initEntry";
  accounts =
      account "stakeEntry" true false
      ∷ account "stakePool" true false
      ∷ account "stakeMint" false false
      ∷ account "stakeMintMetadata" false false
      ∷ account "payer" true true
      ∷ account "systemProgram" false false
      ∷ [];
  args = field "user" public_key ∷ [];
}

abbrev pub update_total_stake_seconds : IdlInstruction
update_total_stake_seconds = record {
  name = "updateTotalStakeSeconds";
  accounts = account "stakeEntry" true false ∷ account "updater" true true ∷ [];
  args = [];
}

abbrev pub reset_stake_entry : IdlInstruction
reset_stake_entry = record {
  name = "resetStakeEntry";
  accounts =
      account "stakePool" false false
      ∷ account "stakeEntry" true false
      ∷ account "authority" true true
      ∷ [];
  args = [];
}

abbrev pub set_stake_entry_multiplier : IdlInstruction
set_stake_entry_multiplier = record {
  name = "setStakeEntryMultiplier";
  accounts =
      account "stakePool" false false
      ∷ account "stakeEntry" true false
      ∷ account "authority" true true
      ∷ [];
  args = field "multiplierBasisPoints" (option u64) ∷ [];
}

abbrev pub set_stake_entry_multiplier_stake_seconds : IdlInstruction
set_stake_entry_multiplier_stake_seconds = record {
  name = "setStakeEntryMultiplierStakeSeconds";
  accounts =
      account "stakePool" false false
      ∷ account "stakeEntry" true false
      ∷ account "authority" true true
      ∷ [];
  args = field "multiplierStakeSeconds" (option u128) ∷ [];
}

abbrev pub increment_stake_entry_multiplier_stake_seconds : IdlInstruction
increment_stake_entry_multiplier_stake_seconds = record {
  name = "incrementStakeEntryMultiplierStakeSeconds";
  accounts =
      account "stakePool" false false
      ∷ account "stakeEntry" true false
      ∷ account "authority" true true
      ∷ [];
  args = field "multiplierStakeSeconds" u128 ∷ [];
}

abbrev pub decrement_stake_entry_multiplier_stake_seconds : IdlInstruction
decrement_stake_entry_multiplier_stake_seconds = record {
  name = "decrementStakeEntryMultiplierStakeSeconds";
  accounts =
      account "stakePool" false false
      ∷ account "stakeEntry" true false
      ∷ account "authority" true true
      ∷ [];
  args = field "multiplierStakeSeconds" u128 ∷ [];
}

abbrev pub resize_stake_entry : IdlInstruction
resize_stake_entry = record {
  name = "resizeStakeEntry";
  accounts =
      account "stakeEntry" true false
      ∷ account "payer" true true
      ∷ account "systemProgram" false false
      ∷ [];
  args = [];
}

abbrev pub close_stake_entry : IdlInstruction
close_stake_entry = record {
  name = "closeStakeEntry";
  accounts =
      account "stakePool" false false
      ∷ account "stakeEntry" true false
      ∷ account "authority" true true
      ∷ [];
  args = [];
}
