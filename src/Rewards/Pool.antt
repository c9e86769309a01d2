-- ===== src/Rewards/Pool.antt =====
-- `getRewardMap` and `getPendingRewardsForPool` of sdk/rewardDistribution.ts.
use discount_program.Common.{
  true, ◌==◌, Option, none, some, List, [], ◌∷◌, ◌++◌, map, foldl, Result, ok, ◌>>=◌, if◌then◌else◌,
  find?, for_each,
}
use discount_program.Common.Int.{ℤ, pos}
use discount_program.Common.Table.{Table, insert, values}
use discount_program.Data.{PublicKey, AccountData, Parsed}
use discount_program.Packages.{Packages, Connection, BigNumber}
use discount_program.Pda.{find_reward_entry_id, find_stake_entry_id_from_mint}
use discount_program.Accounts.{fetch_idl_account_data_by_id}
use discount_program.Rewards.Pending.{
  StakeEntryData, RewardEntryData, RewardDistributorData, calculate_pending_rewards,
}

-- What the map holds for a stake entry.
pub record Preview : Type 0 where
  pub claimable_rewards : ℤ
  pub next_rewards_in : ℤ

-- The result: the map by the stake entry's id, and the total.
pub record RewardMap : Type 0 where
  pub reward_map : Table Preview
  pub claimable_rewards : ℤ

-- `rewardEntries.find(r => r.parsed.stakeEntry.equals(stakeEntry.pubkey))`
unfoldable pub find_reward_entry : List RewardEntryData → PublicKey → Option RewardEntryData
find_reward_entry rs id = find? (λ r. r.parsed.stake_entry == id) rs

module _ (n : BigNumber) (rs : List RewardEntryData) (d : RewardDistributorData)
    (remaining now : ℤ) where
  -- the loop over the stake entries, which writes to the map
  unfoldable pub reward_map_from : Table Preview → List StakeEntryData → Result (Table Preview)
  reward_map_from acc [] = ok acc
  reward_map_from acc (e ∷ es) =
      calculate_pending_rewards n d e (find_reward_entry rs e.pubkey) remaining now >>= λ r.
      reward_map_from
        (insert e.pubkey (record { claimable_rewards = r.0; next_rewards_in = r.1 }) acc) es

-- the `reduce` over the values of the map
unfoldable pub sum_claimable : BigNumber → List Preview → ℤ
sum_claimable n ps = foldl (λ acc v. n.add acc v.claimable_rewards) (n.number (pos 0)) ps

unfoldable pub get_reward_map :
    BigNumber
    → List StakeEntryData
    → List RewardEntryData
    → RewardDistributorData
    → (remaining now : ℤ) → Result RewardMap
get_reward_map n es rs d remaining now = reward_map_from n rs d remaining now [] es >>= λ m.
    let total = sum_claimable n (values m) in
    ok (record {
      reward_map = m;
      claimable_rewards = if n.gt total remaining then remaining else total;
    })

-- The `reduce` that tells stake entries from reward entries: one account.
abbrev pub split_step :
    List StakeEntryData × List RewardEntryData
    → AccountData
    → List StakeEntryData × List RewardEntryData
split_step (es, rs) a = elim a.parsed [
  | Parsed.stake_entry e ↦
      (es ++ record { timestamp = a.timestamp; pubkey = a.pubkey; parsed = e } ∷ [], rs)
  | Parsed.reward_entry r ↦
      (es, rs ++ record { timestamp = a.timestamp; pubkey = a.pubkey; parsed = r } ∷ [])
  | _ ↦ (es, rs)
]

unfoldable pub split_entries : List AccountData → List StakeEntryData × List RewardEntryData
split_entries accounts = foldl split_step ([], []) accounts

unfoldable pub get_pending_rewards_for_pool :
    Packages
    → Connection
    → BigNumber
    → (wallet : PublicKey) → List PublicKey
    → RewardDistributorData
    → (now : ℤ) → Result RewardMap
get_pending_rewards_for_pool p c n wallet mint_ids d now = do
  let vault = p.get_associated_token_address_sync d.parsed.reward_mint d.pubkey true
  amount ← c.get_account_amount vault
  stake_entry_ids ←
      for_each
        (λ mint_id. find_stake_entry_id_from_mint p c n d.parsed.stake_pool mint_id wallet none)
        mint_ids
  let reward_entry_ids = map (find_reward_entry_id p d.pubkey) stake_entry_ids
  let accounts =
      fetch_idl_account_data_by_id p c (map some stake_entry_ids ++ map some reward_entry_ids)
  let (es, rs) = split_entries (values accounts)
  get_reward_map n es rs d (pos amount) now
