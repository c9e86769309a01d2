-- ===== src/Idl/Pools.antt =====
-- The instructions of the IDL (sdk/idl/cardinal_rewards_center.ts) on stake pools and mint authorizations.
use discount_program.Common.{true, false, [], ◌∷◌}
use discount_program.Idl.Defs.{IdlInstruction, account, field, public_key, defined}

abbrev pub init_pool : IdlInstruction
init_pool = record {
  name = "initPool";
  accounts =
      account "stakePool" true false
      ∷ account "payer" true true
      ∷ account "systemProgram" false false
      ∷ [];
  args = field "ix" (defined "InitPoolIx") ∷ [];
}

abbrev pub update_pool : IdlInstruction
update_pool = record {
  name = "updatePool";
  accounts =
      account "stakePool" true false
      ∷ account "authority" false true
      ∷ account "payer" true true
      ∷ account "systemProgram" false false
      ∷ [];
  args = field "ix" (defined "UpdatePoolIx") ∷ [];
}

abbrev pub close_stake_pool : IdlInstruction
close_stake_pool = record {
  name = "closeStakePool";
  accounts = account "stakePool" true false ∷ account "authority" true true ∷ [];
  args = [];
}

abbrev pub authorize_mint : IdlInstruction
authorize_mint = record {
  name = "authorizeMint";
  accounts =
      account "stakePool" true false
      ∷ account "stakeAuthorizationRecord" true false
      ∷ account "authority" true true
      ∷ account "payer" true true
      ∷ account "systemProgram" false false
      ∷ [];
  args = field "mint" public_key ∷ [];
}

abbrev pub deauthorize_mint : IdlInstruction
deauthorize_mint = record {
  name = "deauthorizeMint";
  accounts =
      account "stakePool" true false
      ∷ account "stakeAuthorizationRecord" true false
      ∷ account "authority" true true
      ∷ [];
  args = [];
}
