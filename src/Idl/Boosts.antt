-- ===== src/Idl/Boosts.antt =====
-- The instructions of the IDL (sdk/idl/cardinal_rewards_center.ts) on stake boosters.
use discount_program.Common.{true, false, [], ◌∷◌}
use discount_program.Idl.Defs.{IdlInstruction, account, field, defined}

abbrev pub init_stake_booster : IdlInstruction
init_stake_booster = record {
  name = "initStakeBooster";
  accounts =
      account "stakeBooster" true false
      ∷ account "stakePool" true false
      ∷ account "authority" true true
      ∷ account "payer" true true
      ∷ account "systemProgram" false false
      ∷ [];
  args = field "ix" (defined "InitStakeBoosterIx") ∷ [];
}

abbrev pub update_stake_booster : IdlInstruction
update_stake_booster = record {
  name = "updateStakeBooster";
  accounts =
      account "stakeBooster" true false
      ∷ account "stakePool" true false
      ∷ account "authority" true true
      ∷ [];
  args = field "ix" (defined "UpdateStakeBoosterIx") ∷ [];
}

abbrev pub boost_stake_entry : IdlInstruction
boost_stake_entry = record {
  name = "boostStakeEntry";
  accounts =
      account "stakeBooster" true false
      ∷ account "stakePool" true false
      ∷ account "stakeEntry" true false
      ∷ account "stakeMint" false false
      ∷ [];
  args = field "ix" (defined "BoostStakeEntryIx") ∷ [];
}

abbrev pub close_stake_booster : IdlInstruction
close_stake_booster = record {
  name = "closeStakeBooster";
  accounts =
      account "stakeBooster" true false
      ∷ account "stakePool" true false
      ∷ account "authority" true true
      ∷ [];
  args = [];
}
