-- ===== src/Program/Contexts/Pools.antt =====
-- The accounts and arguments of the instructions on stake pools, discounts and mint authorizations, from their contexts in
-- programs/rewards-center/src, by the names that Anchor's clients use.
use discount_program.Common.{true, false, [], ◌∷◌}
use discount_program.Idl.Defs.{IdlInstruction, account, field, public_key, defined}

abbrev pub init_pool_context : IdlInstruction
init_pool_context = record {
  name = "initPool";
  accounts =
      account "stakePool" true false
      ∷ account "owner" true false
      ∷ account "payer" true true
      ∷ account "systemProgram" false false
      ∷ [];
  args = field "ix" (defined "InitPoolIx") ∷ [];
}

abbrev pub update_pool_context : IdlInstruction
update_pool_context = record {
  name = "updatePool";
  accounts =
      account "stakePool" true false
      ∷ account "authority" false true
      ∷ account "payer" true true
      ∷ account "systemProgram" false false
      ∷ [];
  args = field "ix" (defined "UpdatePoolIx") ∷ [];
}

abbrev pub close_stake_pool_context : IdlInstruction
close_stake_pool_context = record {
  name = "closeStakePool";
  accounts = account "stakePool" true false ∷ account "authority" true true ∷ [];
  args = [];
}

abbrev pub init_discount_context : IdlInstruction
init_discount_context = record {
  name = "initDiscount";
  accounts =
      account "discountData" true false
      ∷ account "payer" true true
      ∷ account "systemProgram" false false
      ∷ [];
  args = field "ix" (defined "InitDiscountIx") ∷ [];
}

abbrev pub authorize_mint_context : IdlInstruction
authorize_mint_context = record {
  name = "authorizeMint";
  accounts =
      account "stakePool" true false
      ∷ account "stakeAuthorizationRecord" true false
      ∷ account "authority" true true
      ∷ account "payer" true true
      ∷ account "systemProgram" false false
      ∷ [];
  args = field "mint" public_key ∷ [];
}

abbrev pub deauthorize_mint_context : IdlInstruction
deauthorize_mint_context = record {
  name = "deauthorizeMint";
  accounts =
      account "stakePool" true false
      ∷ account "stakeAuthorizationRecord" true false
      ∷ account "authority" true true
      ∷ [];
  args = [];
}
