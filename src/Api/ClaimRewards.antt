-- ===== src/Api/ClaimRewards.antt =====
-- `claimRewards` of sdk/api.ts.
use discount_program.Common.{
  String, Bool, true, Option, none, some, List, [], ◌∷◌, ◌++◌, map, Result, ok, ◌>>=◌, for_each,
  if◌then◌else◌, is_some,
}
use discount_program.Common.Table.{Table, lookup, merge}
use discount_program.Data.{
  PublicKey, AccountType, RewardDistributor, AccountData, create_associated_token_account,
  Transaction,
}
use discount_program.Packages.{Packages, Connection}
use discount_program.Pda.{find_stake_pool_id, find_stake_entry_id}
use discount_program.Accounts.{fetch_idl_account_data_by_id, decode_idl_account}
use discount_program.Api.Mints.{
  MintInfo, truthy, update_total_stake_seconds_call, init_reward_entry_call,
}
use discount_program.Api.Claims.{
  ClaimMint, or_empty, distributor_at, claim_payment_info_ids, to_claim_mint, all_reward_entry_ids,
  optional_payment,
}
use discount_program.Api.Unstake.{claim_rewards_call}

module _ (p : Packages) (wallet : PublicKey) (stake_pool_id : PublicKey) where
  -- `userRewardMintTokenAccountOwnerId`: the last staker, if the stake entry was fetched.
  unfoldable pub reward_owner : Option AccountData → Result PublicKey
  reward_owner none = ok wallet
  reward_owner (some a) =
      decode_idl_account p a.info AccountType.stake_entry >>= λ e. ok e.last_staker

  -- One round of the loop over the reward distributors, at a known distributor.
  unfoldable pub claim_for_owner :
      Table AccountData
      → PublicKey
      → PublicKey
      → RewardDistributor
      → (reward_entry_id : PublicKey) → Transaction
      → Result Transaction
  claim_for_owner table stake_entry_id distributor_id d reward_entry_id tx = do
    owner ← reward_owner (lookup stake_entry_id table)
    let user_account = p.find_ata d.reward_mint owner true
    let init =
        if is_some (lookup reward_entry_id table)
        then []
        else init_reward_entry_call p wallet distributor_id stake_entry_id ∷ []
    let (tx', metas) =
        optional_payment p wallet table
          (tx ++ create_associated_token_account wallet user_account owner d.reward_mint ∷ init)
          d.claim_rewards_payment_info
    ok (
        tx'
        ++ claim_rewards_call p wallet stake_pool_id stake_entry_id distributor_id d user_account
            metas
          ∷ [])

  -- The loop; the j-th distributor goes with the j-th reward entry id.
  unfoldable pub claim_rounds_for_owner :
      Table AccountData
      → PublicKey
      → List PublicKey
      → List PublicKey
      → Transaction
      → Result Transaction
  claim_rounds_for_owner table stake_entry_id [] entry_ids tx = ok tx
  claim_rounds_for_owner table stake_entry_id (id ∷ ids) [] tx = ok tx
  claim_rounds_for_owner table stake_entry_id (id ∷ ids) (entry_id ∷ entry_ids) tx =
      (elim (distributor_at table id) [
        | none ↦ ok tx
        | some d ↦ claim_for_owner table stake_entry_id id d entry_id tx
      ])
      >>= λ tx'. claim_rounds_for_owner table stake_entry_id ids entry_ids tx'

  -- The body of the loop over `mints`.
  unfoldable pub claim_transaction :
      Table AccountData → Option (List PublicKey) → ClaimMint → Result Transaction
  claim_transaction table (some (id ∷ ids)) m = elim m.reward_entry_ids [
    | none ↦ ok []
    | some entry_ids ↦
        claim_rounds_for_owner table m.stake_entry_id (id ∷ ids) entry_ids
          (update_total_stake_seconds_call p wallet m.stake_entry_id ∷ [])
  ]
  claim_transaction table (some []) m = ok []
  claim_transaction table none m = ok []

  -- The ids of the first fetch.
  unfoldable pub claim_ids :
      Option (List PublicKey) → Option Bool → List ClaimMint → List (Option PublicKey)
  claim_ids distributor_ids for_users mints =
      map some (or_empty distributor_ids)
      ++ map some (all_reward_entry_ids p wallet mints)
      ++ (if truthy for_users
          then map (λ m. some (find_stake_entry_id p stake_pool_id m.mint_id none none)) mints
          else [])

unfoldable pub claim_rewards :
    Packages
    → Connection
    → (wallet : PublicKey) → String
    → List MintInfo
    → Option (List PublicKey)
    → (for_users : Option Bool) → Result (List Transaction)
claim_rewards p c wallet identifier infos distributor_ids for_users =
    let stake_pool_id = find_stake_pool_id p identifier in
    let mints = map (to_claim_mint p wallet stake_pool_id distributor_ids) infos in
    let first =
      fetch_idl_account_data_by_id p c
        (claim_ids p wallet stake_pool_id distributor_ids for_users mints) in
    let second =
      fetch_idl_account_data_by_id p c (claim_payment_info_ids first (or_empty distributor_ids)) in
    for_each (claim_transaction p wallet stake_pool_id (merge first second) distributor_ids) mints
