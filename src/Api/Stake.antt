-- ===== src/Api/Stake.antt =====
-- `stake` of sdk/api.ts.
use discount_program.Common.{
  String, true, Option, none, some, List, [], ◌∷◌, ◌++◌, map, Result, ok, ◌>>=◌, for_each,
  if◌then◌else◌, is_some,
}
use discount_program.Common.Int.{ℤ, pos}
use discount_program.Common.Table.{Table, lookup}
use discount_program.Data.{
  PublicKey, AccountType, IdlAccountData, AccountData, AccountMeta, Argument, Instruction,
  set_compute_unit_limit, Transaction, Metadata, MintManager,
}
use discount_program.Packages.{Packages, Connection}
use discount_program.Constants.{metadata_program_id}
use discount_program.Pda.{
  find_stake_pool_id, find_user_escrow_id, find_mint_metadata_id, find_mint_edition_id,
}
use discount_program.Accounts.{fetch_idl_account_data_by_id, fetch_idl_account}
use discount_program.Authorization.{remaining_accounts_for_authorization}
use discount_program.Payment.{with_remaining_accounts_for_payment_info_sync}
use discount_program.Api.Mints.{
  MintInfo, stake_entry_id_of, method_call, strict_call, check_stake_pool,
}

-- An element of `mints`.
pub record StakeMint : Type 0 where
  pub mint_id : PublicKey
  pub amount : Option ℤ
  pub stake_entry_id : PublicKey
  pub mint_token_account_id : PublicKey

-- `tokenAccountId ?? ...`, `amount ?? 1`, `ruleSet ?? METADATA_PROGRAM_ID`
abbrev pub or_default : {A : Type 0} → Option A → A → A
or_default none a = a
or_default (some b) a = b

module _ (p : Packages) (wallet : PublicKey) (stake_pool_id : PublicKey) where
  unfoldable pub to_stake_mint : MintInfo → StakeMint
  to_stake_mint info = record {
    mint_id = info.mint_id;
    amount = info.amount;
    stake_entry_id = stake_entry_id_of p wallet stake_pool_id info;
    mint_token_account_id =
        or_default info.token_account_id
          (p.get_associated_token_address_sync info.mint_id wallet true);
  }

  unfoldable pub init_entry_call : StakeMint → List AccountMeta → Instruction
  init_entry_call m metas =
      method_call "initEntry" (Argument.public_key wallet ∷ [])
        (("stakeEntry", m.stake_entry_id)
          ∷ ("stakePool", stake_pool_id)
          ∷ ("stakeMint", m.mint_id)
          ∷ ("stakeMintMetadata", find_mint_metadata_id p m.mint_id)
          ∷ ("payer", wallet)
          ∷ ("systemProgram", p.system_program_id)
          ∷ [])
        metas

  unfoldable pub stake_ccs_call : StakeMint → MintManager → List AccountMeta → Instruction
  stake_ccs_call m manager metas =
      method_call "stakeCcs" (Argument.bn (or_default m.amount (pos 1)) ∷ [])
        (("stakePool", stake_pool_id)
          ∷ ("stakeEntry", m.stake_entry_id)
          ∷ ("stakeMint", m.mint_id)
          ∷ ("stakeMintMetadata", find_mint_metadata_id p m.mint_id)
          ∷ ("stakeMintManager", p.find_mint_manager_id m.mint_id)
          ∷ ("stakeMintManagerRuleset", manager.rule_set)
          ∷ ("user", wallet)
          ∷ ("userEscrow", find_user_escrow_id p wallet)
          ∷ ("userStakeMintTokenAccount", m.mint_token_account_id)
          ∷ ("creatorStandardProgram", p.creator_standard_program_id)
          ∷ ("tokenProgram", p.token_program_id)
          ∷ ("systemProgram", p.system_program_id)
          ∷ [])
        metas

  unfoldable pub stake_pnft_call : StakeMint → Option PublicKey → List AccountMeta → Instruction
  stake_pnft_call m rule_set metas =
      strict_call "stakePnft" []
        (("stakePool", stake_pool_id)
          ∷ ("stakeEntry", m.stake_entry_id)
          ∷ ("stakeMint", m.mint_id)
          ∷ ("stakeMintMetadata", find_mint_metadata_id p m.mint_id)
          ∷ ("stakeMintEdition", find_mint_edition_id p m.mint_id)
          ∷ ("stakeTokenRecordAccount", p.find_token_record_id m.mint_id m.mint_token_account_id)
          ∷ ("authorizationRules", or_default rule_set (metadata_program_id p))
          ∷ ("user", wallet)
          ∷ ("userEscrow", find_user_escrow_id p wallet)
          ∷ ("userStakeMintTokenAccount", m.mint_token_account_id)
          ∷ ("tokenMetadataProgram", metadata_program_id p)
          ∷ ("sysvarInstructions", p.sysvar_instructions_pubkey)
          ∷ ("tokenProgram", p.token_program_id)
          ∷ ("systemProgram", p.system_program_id)
          ∷ ("authorizationRulesProgram", p.token_auth_rules_id)
          ∷ [])
        metas

  unfoldable pub stake_edition_call : StakeMint → List AccountMeta → Instruction
  stake_edition_call m metas =
      method_call "stakeEdition" (Argument.bn (or_default m.amount (pos 1)) ∷ [])
        (("stakePool", stake_pool_id)
          ∷ ("stakeEntry", m.stake_entry_id)
          ∷ ("stakeMint", m.mint_id)
          ∷ ("stakeMintEdition", find_mint_edition_id p m.mint_id)
          ∷ ("stakeMintMetadata", find_mint_metadata_id p m.mint_id)
          ∷ ("user", wallet)
          ∷ ("userEscrow", find_user_escrow_id p wallet)
          ∷ ("userStakeMintTokenAccount", m.mint_token_account_id)
          ∷ ("tokenMetadataProgram", metadata_program_id p)
          ∷ ("tokenProgram", p.token_program_id)
          ∷ ("systemProgram", p.system_program_id)
          ∷ [])
        metas

  -- `metadataAccountInfo ? Metadata.fromAccountInfo(metadataAccountInfo)[0] : undefined`
  unfoldable pub metadata_of : Option AccountData → Result (Option Metadata)
  metadata_of none = ok none
  metadata_of (some a) = p.metadata_from_account_info a.info >>= λ m. ok (some m)

  -- The `if` over the kind of token: the instructions that it adds. An account of the table has
  -- `data`, which is truthy.
  unfoldable pub stake_calls :
      StakeMint → Option AccountData → Option Metadata → List AccountMeta → Result Transaction
  stake_calls m (some manager) metadata metas =
      p.mint_manager_from_account_info manager.info >>= λ mint_manager.
      ok (stake_ccs_call m mint_manager metas ∷ [])
  stake_calls m none none metas = ok (stake_edition_call m metas ∷ [])
  stake_calls m none (some metadata) metas = elim metadata.programmable_config [
    | none ↦ ok (stake_edition_call m metas ∷ [])
    | some rule_set ↦ ok (set_compute_unit_limit 100000000 ∷ stake_pnft_call m rule_set metas ∷ [])
  ]

  -- The body of the loop over `mints`.
  unfoldable pub stake_transaction :
      Table AccountData
      → IdlAccountData AccountType.stake_pool
      → IdlAccountData AccountType.payment_info
      → StakeMint
      → Result Transaction
  stake_transaction table pool payment m = do
    metadata ← metadata_of (lookup (find_mint_metadata_id p m.mint_id) table)
    let authorization =
        remaining_accounts_for_authorization p pool.pubkey pool.parsed m.mint_id metadata
    let init =
        if is_some (lookup m.stake_entry_id table) then [] else init_entry_call m authorization ∷ []
    let (tx, metas) =
        with_remaining_accounts_for_payment_info_sync p init wallet payment.pubkey payment.parsed
    calls ←
        stake_calls m (lookup (p.find_mint_manager_id m.mint_id) table) metadata
          (authorization ++ metas)
    ok (tx ++ calls)

  -- The ids that `stake` fetches.
  unfoldable pub stake_ids : List StakeMint → List (Option PublicKey)
  stake_ids mints =
      some stake_pool_id ∷ map (λ m. some m.stake_entry_id) mints
      ++ map (λ m. some (p.find_mint_manager_id m.mint_id)) mints
      ++ map (λ m. some (find_mint_metadata_id p m.mint_id)) mints

unfoldable pub stake :
    Packages
    → Connection
    → (wallet : PublicKey) → String
    → List MintInfo
    → Result (List Transaction)
stake p c wallet identifier infos = do
  let stake_pool_id = find_stake_pool_id p identifier
  let mints = map (to_stake_mint p wallet stake_pool_id) infos
  let table = fetch_idl_account_data_by_id p c (stake_ids p wallet stake_pool_id mints)
  pool ← check_stake_pool table stake_pool_id
  payment ← fetch_idl_account c pool.parsed.stake_payment_info AccountType.payment_info
  for_each (stake_transaction p wallet stake_pool_id table pool payment) mints
