-- ===== src/Api/Mints.antt =====
-- What the functions of sdk/api.ts share: the mints that they are given, the ids they derive, the
-- checks of a fetched account, and the instructions that several of them send.
use discount_program.Common.{
  String, Bool, true, false, Option, none, some, List, [], ◌∷◌, Result, ok, throw,
  stake_pool_not_found, if◌then◌else◌,
}
use discount_program.Common.Int.{ℤ}
use discount_program.Common.Table.{Table, lookup}
use discount_program.Data.{
  PublicKey, AccountType, IdlAccountData, AccountData, Parsed, AccountMeta, Argument, Instruction,
  rewards_center,
}
use discount_program.Packages.{Packages}
use discount_program.Pda.{find_stake_entry_id, find_reward_entry_id}

-- An element of `mintInfos`; `unstake` and `claimRewards` read `mintId` and `fungible` alone.
pub record MintInfo : Type 0 where
  pub mint_id : PublicKey
  pub token_account_id : Option PublicKey
  pub amount : Option ℤ
  pub fungible : Option Bool

-- A Boolean that may be `undefined`, as a condition.
abbrev pub truthy : Option Bool → Bool
truthy none = false
truthy (some b) = b

-- `program.methods.METHOD(args).accounts(accounts).remainingAccounts(metas).instruction()`
abbrev pub method_call :
    String → List Argument → List (String × PublicKey) → List AccountMeta → Instruction
method_call method args accounts metas = rewards_center (record {
  method = method;
  args = args;
  strict = false;
  accounts = accounts;
  remaining_accounts = metas;
})

-- The same with `accountsStrict`.
abbrev pub strict_call :
    String → List Argument → List (String × PublicKey) → List AccountMeta → Instruction
strict_call method args accounts metas = rewards_center (record {
  method = method;
  args = args;
  strict = true;
  accounts = accounts;
  remaining_accounts = metas;
})

-- `if (!stakePoolData?.parsed || stakePoolData.type !== "stakePool") throw ...`
unfoldable pub check_stake_pool :
    Table AccountData → PublicKey → Result (IdlAccountData AccountType.stake_pool)
check_stake_pool table id = elim (lookup id table) [
  | none ↦ throw stake_pool_not_found
  | some a ↦ elim a.parsed [
    | Parsed.stake_pool pool ↦
        ok (record { timestamp = a.timestamp; pubkey = a.pubkey; parsed = pool })
    | _ ↦ throw stake_pool_not_found
  ]
]

module _ (p : Packages) (wallet : PublicKey) where
  -- `findStakeEntryId(stakePoolId, mintId, fungible ? wallet.publicKey : undefined)`: the call has
  -- three arguments, and `isFungible` is left out.
  unfoldable pub stake_entry_id_of : PublicKey → MintInfo → PublicKey
  stake_entry_id_of stake_pool_id info =
      find_stake_entry_id p stake_pool_id info.mint_id
        (if truthy info.fungible then some wallet else none) none

  -- `program.methods.updateTotalStakeSeconds()`
  abbrev pub update_total_stake_seconds_call : PublicKey → Instruction
  update_total_stake_seconds_call stake_entry_id =
      method_call "updateTotalStakeSeconds" []
        (("stakeEntry", stake_entry_id) ∷ ("updater", wallet) ∷ []) []

  -- `program.methods.initRewardEntry()`
  abbrev pub init_reward_entry_call : PublicKey → PublicKey → Instruction
  init_reward_entry_call reward_distributor_id stake_entry_id =
      method_call "initRewardEntry" []
        (("rewardEntry", find_reward_entry_id p reward_distributor_id stake_entry_id)
          ∷ ("rewardDistributor", reward_distributor_id)
          ∷ ("stakeEntry", stake_entry_id)
          ∷ ("payer", wallet)
          ∷ [])
        []
