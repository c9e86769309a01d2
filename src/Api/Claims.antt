-- ===== src/Api/Claims.antt =====
-- What `unstake` and `claimRewards` of sdk/api.ts share.
use discount_program.Common.{Option, none, some, List, [], map, flatten}
use discount_program.Common.Table.{Table, lookup}
use discount_program.Data.{
  PublicKey, RewardDistributor, PaymentInfo, AccountData, Parsed, AccountMeta, Transaction,
}
use discount_program.Packages.{Packages}
use discount_program.Pda.{find_reward_entry_id}
use discount_program.Payment.{with_remaining_accounts_for_payment_info_sync}
use discount_program.Api.Mints.{MintInfo, stake_entry_id_of}

-- An element of `mints`.
pub record ClaimMint : Type 0 where
  pub mint_id : PublicKey
  pub stake_entry_id : PublicKey
  pub reward_entry_ids : Option (List PublicKey)

-- `ids ?? []`
abbrev pub or_empty {ℓ} : {A : Type ℓ} → Option (List A) → List A
or_empty none = []
or_empty (some xs) = xs

-- `accountDataById[id]` if its type is "rewardDistributor"
unfoldable pub distributor_at : Table AccountData → PublicKey → Option RewardDistributor
distributor_at table id = elim (lookup id table) [
  | none ↦ none
  | some a ↦ elim a.parsed [ Parsed.reward_distributor d ↦ some d | _ ↦ none ]
]

-- `accountDataById[id]` if its type is "paymentInfo", with its `pubkey`
unfoldable pub payment_info_at : Table AccountData → PublicKey → Option (PublicKey × PaymentInfo)
payment_info_at table id = elim (lookup id table) [
  | none ↦ none
  | some a ↦ elim a.parsed [ Parsed.payment_info info ↦ some (a.pubkey, info) | _ ↦ none ]
]

-- `claimRewardsPaymentInfoIds`: null at what is no reward distributor
unfoldable pub claim_payment_info_ids : Table AccountData → List PublicKey → List (Option PublicKey)
claim_payment_info_ids table ids =
    map
      (λ id. elim (distributor_at table id) [
        | none ↦ none
        | some d ↦ some d.claim_rewards_payment_info
      ])
      ids

module _ (p : Packages) (wallet : PublicKey) where
  -- `rewardDistributorIds?.map(id => findRewardEntryId(id, stakeEntryId))`
  unfoldable pub reward_entry_ids_of : PublicKey → Option (List PublicKey) → Option (List PublicKey)
  reward_entry_ids_of stake_entry_id none = none
  reward_entry_ids_of stake_entry_id (some ids) =
      some (map (λ id. find_reward_entry_id p id stake_entry_id) ids)

  unfoldable pub to_claim_mint : PublicKey → Option (List PublicKey) → MintInfo → ClaimMint
  to_claim_mint stake_pool_id distributor_ids info =
      let stake_entry_id = stake_entry_id_of p wallet stake_pool_id info in
      record {
        mint_id = info.mint_id;
        stake_entry_id = stake_entry_id;
        reward_entry_ids = reward_entry_ids_of stake_entry_id distributor_ids;
      }

  -- `mints.map(m => m.rewardEntryIds ?? []).flat()`
  abbrev pub all_reward_entry_ids : List ClaimMint → List PublicKey
  all_reward_entry_ids mints = flatten (map (λ m. or_empty m.reward_entry_ids) mints)

  -- The accounts of a payment, if its payment info was fetched; nothing otherwise.
  unfoldable pub optional_payment :
      Table AccountData → Transaction → PublicKey → Transaction × List AccountMeta
  optional_payment table tx id = elim (payment_info_at table id) [
    | none ↦ (tx, [])
    | some (pubkey, info) ↦ with_remaining_accounts_for_payment_info_sync p tx wallet pubkey info
  ]
