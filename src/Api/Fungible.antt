-- ===== src/Api/Fungible.antt =====
-- The `fungible` flag of a mint in sdk/api.ts, which `findStakeEntryId` (sdk/pda.ts) never sees.
use discount_program.Common.{ℕ, String, Bool, Option, none, List, [], ◌∷◌, map, ◌≡◌, refl, arith}
use discount_program.Data.{PublicKey}
use discount_program.Packages.{Packages, Connection}
use discount_program.Pda.{find_stake_entry_id, find_stake_pool_id}
use discount_program.Api.Mints.{MintInfo, stake_entry_id_of}
use discount_program.Api.Stake.{to_stake_mint, stake}
use discount_program.Api.Claims.{to_claim_mint}
use discount_program.Api.Unstake.{unstake}
use discount_program.Api.ClaimRewards.{claim_rewards}
use discount_program.Api.Actions.{claim_reward_receipt, boost}

-- The mint with another flag.
abbrev pub with_flag : Option Bool → MintInfo → MintInfo
with_flag flag info = record info { fungible = flag }

map-with_flag :
    {B : Type 0} (f : MintInfo → B) (flag : Option Bool) (infos : List MintInfo)
    → ((info : MintInfo) → f (with_flag flag info) ≡ f info)
    → map f (map (with_flag flag) infos) ≡ map f infos
map-with_flag f flag [] h = refl
map-with_flag f flag (info ∷ infos) h = rw (h info, map-with_flag f flag infos h)

module _ (p : Packages) (wallet : PublicKey) where
  pub entry_id_lem :
      (pool : PublicKey) (info : MintInfo)
      → stake_entry_id_of p wallet pool info ≡ find_stake_entry_id p pool info.mint_id none none
  unfolding stake_entry_id_of find_stake_entry_id
  entry_id_lem pool info = ground arith

  entry_id_flag :
      (pool : PublicKey) (flag : Option Bool) (info : MintInfo)
      → stake_entry_id_of p wallet pool (with_flag flag info) ≡ stake_entry_id_of p wallet pool info
  entry_id_flag pool flag info =
      rw (entry_id_lem pool (with_flag flag info), entry_id_lem pool info)

  to_stake_mint_flag :
      (pool : PublicKey) (flag : Option Bool) (info : MintInfo)
      → to_stake_mint p wallet pool (with_flag flag info) ≡ to_stake_mint p wallet pool info
  unfolding to_stake_mint
  to_stake_mint_flag pool flag info = rw (entry_id_flag pool flag info)

  to_claim_mint_flag :
      (pool : PublicKey) (ids : Option (List PublicKey)) (flag : Option Bool) (info : MintInfo)
      → to_claim_mint p wallet pool ids (with_flag flag info) ≡ to_claim_mint p wallet pool ids info
  unfolding to_claim_mint
  to_claim_mint_flag pool ids flag info = rw (entry_id_flag pool flag info)

  -- With any flags fungible in place of the given ones, stake, unstake, claimRewards,
  -- claimRewardReceipt and boost give the same transactions, or throw the same error.
  pub flag_ignored :
      (c : Connection) (identifier : String) (infos : List MintInfo) (info : MintInfo)
      (distributors : Option (List PublicKey)) (for_users flag : Option Bool) (manager : PublicKey)
      (seconds : ℕ) (booster : Option ℕ)
      → (stake p c wallet identifier (map (with_flag flag) infos)
          ≡ stake p c wallet identifier infos)
        × (unstake p c wallet identifier (map (with_flag flag) infos) distributors
            ≡ unstake p c wallet identifier infos distributors)
        × (claim_rewards p c wallet identifier (map (with_flag flag) infos) distributors for_users
            ≡ claim_rewards p c wallet identifier infos distributors for_users)
        × (claim_reward_receipt p c wallet identifier (with_flag flag info) manager
            ≡ claim_reward_receipt p c wallet identifier info manager)
        × (boost p c wallet identifier (with_flag flag info) seconds booster
            ≡ boost p c wallet identifier info seconds booster)
  unfolding stake unstake claim_rewards claim_reward_receipt boost
  flag_ignored c identifier infos info distributors for_users flag manager seconds booster =
      let pool = find_stake_pool_id p identifier in
      (
        rw (map-with_flag (to_stake_mint p wallet pool) flag infos (to_stake_mint_flag pool flag)),
        rw (
            map-with_flag (to_claim_mint p wallet pool distributors) flag infos
              (to_claim_mint_flag pool distributors flag)),
        rw (
            map-with_flag (to_claim_mint p wallet pool distributors) flag infos
              (to_claim_mint_flag pool distributors flag)),
        rw (entry_id_flag pool flag info),
        rw (entry_id_flag pool flag info),
      )
