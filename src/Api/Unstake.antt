-- ===== src/Api/Unstake.antt =====
-- `unstake` of sdk/api.ts.
use discount_program.Common.{
  String, Bool, true, false, not, Option, none, some, List, [], ◌∷◌, ◌++◌, map, Result, ok, ◌>>=◌,
  if◌then◌else◌, is_some,
}
use discount_program.Common.Table.{Table, lookup, merge}
use discount_program.Data.{
  PublicKey, RewardDistributor, AccountData, Parsed, AccountMeta, Instruction,
  set_compute_unit_limit, Transaction, Metadata,
}
use discount_program.Packages.{Packages, Connection}
use discount_program.Constants.{metadata_program_id}
use discount_program.Pda.{
  find_stake_pool_id, find_user_escrow_id, find_mint_metadata_id, find_mint_edition_id,
  find_reward_entry_id,
}
use discount_program.Accounts.{fetch_idl_account_data_by_id}
use discount_program.Api.Mints.{
  MintInfo, method_call, strict_call, check_stake_pool, update_total_stake_seconds_call,
  init_reward_entry_call,
}
use discount_program.Api.Stake.{or_default}
use discount_program.Api.Claims.{
  ClaimMint, or_empty, distributor_at, claim_payment_info_ids, to_claim_mint, all_reward_entry_ids,
  optional_payment,
}

-- `stakeEntry?.type === "stakeEntry" && stakeEntry.parsed.cooldownStartSeconds`
unfoldable pub in_cooldown : Option AccountData → Bool
in_cooldown none = false
in_cooldown (some a) = elim a.parsed [
  | Parsed.stake_entry e ↦ is_some e.cooldown_start_seconds
  | _ ↦ false
]

module _ (p : Packages) (wallet : PublicKey) (stake_pool_id : PublicKey) where
  unfoldable pub claim_rewards_call :
      PublicKey
      → PublicKey
      → RewardDistributor
      → (user_account : PublicKey) → List AccountMeta
      → Instruction
  claim_rewards_call stake_entry_id distributor_id d user_account metas =
      method_call "claimRewards" []
        (("rewardEntry", find_reward_entry_id p distributor_id stake_entry_id)
          ∷ ("rewardDistributor", distributor_id)
          ∷ ("stakeEntry", stake_entry_id)
          ∷ ("stakePool", stake_pool_id)
          ∷ ("rewardMint", d.reward_mint)
          ∷ ("userRewardMintTokenAccount", user_account)
          ∷ (
            "rewardDistributorTokenAccount",
            p.get_associated_token_address_sync d.reward_mint distributor_id true,
          )
          ∷ ("user", wallet)
          ∷ [])
        metas

  -- One round of the loop over the reward distributors, at a known distributor.
  unfoldable pub claim_round :
      Table AccountData
      → PublicKey
      → PublicKey
      → RewardDistributor
      → (reward_entry_id : PublicKey) → Transaction
      → Transaction
  claim_round table stake_entry_id distributor_id d reward_entry_id tx =
      let init =
        if is_some (lookup reward_entry_id table)
        then []
        else init_reward_entry_call p wallet distributor_id stake_entry_id ∷ [] in
      let (tx', metas) =
        optional_payment p wallet table (tx ++ init) d.claim_rewards_payment_info in
      tx'
      ++ claim_rewards_call stake_entry_id distributor_id d
          (p.get_associated_token_address_sync d.reward_mint wallet true) metas
        ∷ []

  -- The loop; the j-th distributor goes with the j-th reward entry id.
  unfoldable pub claim_rounds :
      Table AccountData → PublicKey → List PublicKey → List PublicKey → Transaction → Transaction
  claim_rounds table stake_entry_id [] entry_ids tx = tx
  claim_rounds table stake_entry_id (id ∷ ids) [] tx = tx
  claim_rounds table stake_entry_id (id ∷ ids) (entry_id ∷ entry_ids) tx =
      claim_rounds table stake_entry_id ids entry_ids (elim (distributor_at table id) [
        | none ↦ tx
        | some d ↦ claim_round table stake_entry_id id d entry_id tx
      ])

  -- The claims before the unstaking: none with no distributor, and none in a cooldown.
  unfoldable pub claims_of : Table AccountData → Option (List PublicKey) → ClaimMint → Transaction
  claims_of table (some (id ∷ ids)) m = elim m.reward_entry_ids [
    | none ↦ []
    | some entry_ids ↦
        if not (in_cooldown (lookup m.stake_entry_id table))
        then claim_rounds table m.stake_entry_id (id ∷ ids) entry_ids
            (update_total_stake_seconds_call p wallet m.stake_entry_id ∷ [])
        else []
  ]
  claims_of table (some []) m = []
  claims_of table none m = []

  unfoldable pub unstake_ccs_call : ClaimMint → List AccountMeta → Instruction
  unstake_ccs_call m metas =
      method_call "unstakeCcs" []
        (("stakeEntry", m.stake_entry_id)
          ∷ ("stakePool", stake_pool_id)
          ∷ ("stakeMint", m.mint_id)
          ∷ ("stakeMintManager", p.find_mint_manager_id m.mint_id)
          ∷ ("user", wallet)
          ∷ ("userEscrow", find_user_escrow_id p wallet)
          ∷ (
            "userStakeMintTokenAccount",
            p.get_associated_token_address_sync m.mint_id wallet false,
          )
          ∷ ("creatorStandardProgram", p.creator_standard_program_id)
          ∷ [])
        metas

  unfoldable pub unstake_pnft_call : ClaimMint → Option PublicKey → List AccountMeta → Instruction
  unstake_pnft_call m rule_set metas =
      let user_ata_id = p.get_associated_token_address_sync m.mint_id wallet false in
      strict_call "unstakePnft" []
        (("stakePool", stake_pool_id)
          ∷ ("stakeEntry", m.stake_entry_id)
          ∷ ("stakeMint", m.mint_id)
          ∷ ("stakeMintMetadata", find_mint_metadata_id p m.mint_id)
          ∷ ("stakeMintEdition", find_mint_edition_id p m.mint_id)
          ∷ ("stakeTokenRecordAccount", p.find_token_record_id m.mint_id user_ata_id)
          ∷ ("authorizationRules", or_default rule_set (metadata_program_id p))
          ∷ ("user", wallet)
          ∷ ("userEscrow", find_user_escrow_id p wallet)
          ∷ ("userStakeMintTokenAccount", user_ata_id)
          ∷ ("tokenMetadataProgram", metadata_program_id p)
          ∷ ("sysvarInstructions", p.sysvar_instructions_pubkey)
          ∷ ("tokenProgram", p.token_program_id)
          ∷ ("systemProgram", p.system_program_id)
          ∷ ("authorizationRulesProgram", p.token_auth_rules_id)
          ∷ [])
        metas

  unfoldable pub unstake_edition_call : ClaimMint → List AccountMeta → Instruction
  unstake_edition_call m metas =
      method_call "unstakeEdition" []
        (("stakeEntry", m.stake_entry_id)
          ∷ ("stakePool", stake_pool_id)
          ∷ ("stakeMint", m.mint_id)
          ∷ ("stakeMintEdition", find_mint_edition_id p m.mint_id)
          ∷ ("user", wallet)
          ∷ ("userEscrow", find_user_escrow_id p wallet)
          ∷ (
            "userStakeMintTokenAccount",
            p.get_associated_token_address_sync m.mint_id wallet false,
          )
          ∷ ("tokenMetadataProgram", metadata_program_id p)
          ∷ [])
        metas

  -- The `if` over the kind of token: the instructions that it adds.
  unfoldable pub unstake_calls :
      ClaimMint → Option AccountData → Option Metadata → List AccountMeta → Transaction
  unstake_calls m (some manager) metadata metas = unstake_ccs_call m metas ∷ []
  unstake_calls m none none metas = unstake_edition_call m metas ∷ []
  unstake_calls m none (some metadata) metas = elim metadata.programmable_config [
    | none ↦ unstake_edition_call m metas ∷ []
    | some rule_set ↦ set_compute_unit_limit 100000000 ∷ unstake_pnft_call m rule_set metas ∷ []
  ]

  -- The body of the loop over `mints`.
  unfoldable pub unstake_transaction :
      Connection
      → Table AccountData
      → Option (List PublicKey)
      → (payment_info_id : PublicKey) → ClaimMint
      → Transaction
  unstake_transaction c table distributor_ids payment_info_id m =
      let (tx, metas) =
        optional_payment p wallet table (claims_of table distributor_ids m) payment_info_id in
      tx
      ++ unstake_calls m (lookup (p.find_mint_manager_id m.mint_id) table)
          (c.try_metadata_from_account_address (find_mint_metadata_id p m.mint_id)) metas

  -- The ids of the first fetch.
  unfoldable pub unstake_ids : Option (List PublicKey) → List ClaimMint → List (Option PublicKey)
  unstake_ids distributor_ids mints =
      some stake_pool_id ∷ map some (or_empty distributor_ids)
      ++ map some (all_reward_entry_ids p wallet mints)
      ++ map (λ m. some (p.find_mint_manager_id m.mint_id)) mints
      ++ map (λ m. some m.stake_entry_id) mints

unfoldable pub unstake :
    Packages
    → Connection
    → (wallet : PublicKey) → String
    → List MintInfo
    → Option (List PublicKey)
    → Result (List Transaction)
unstake p c wallet identifier infos distributor_ids = do
  let stake_pool_id = find_stake_pool_id p identifier
  let mints = map (to_claim_mint p wallet stake_pool_id distributor_ids) infos
  let first =
      fetch_idl_account_data_by_id p c (unstake_ids p wallet stake_pool_id distributor_ids mints)
  pool ← check_stake_pool first stake_pool_id
  let second = fetch_idl_account_data_by_id p c (
      some pool.parsed.unstake_payment_info
      ∷ claim_payment_info_ids first (or_empty distributor_ids))
  ok (
      map
        (unstake_transaction p wallet stake_pool_id c (merge first second) distributor_ids
          pool.parsed.unstake_payment_info)
        mints)
