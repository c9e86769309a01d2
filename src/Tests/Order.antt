-- ===== src/Tests/Order.antt =====
-- The methods of the transactions, and the errors, of sdk/api.ts.
use discount_program.Common.{
  false, ◌≡◌, refl, none, some, [], ◌∷◌, Returns, ok, throw, stake_pool_not_found,
  receipt_manager_not_found, stake_booster_not_found,
}
use discount_program.Common.Table.{Table}
use discount_program.Data.{AccountType, AccountData, Parsed, IdlAccountData}
use discount_program.Pda.{
  find_stake_pool_id, find_reward_receipt_id, find_stake_entry_id, find_stake_booster_id,
  find_mint_metadata_id,
}
use discount_program.Accounts.{
  decode_account_infos, decode_account_infos_from, fetch_idl_account_data_by_id,
  decode_account_info, try_decode_idl_account_unknown,
}
use discount_program.Accounts.Fetching.{Answers}
use discount_program.Api.Mints.{MintInfo, stake_entry_id_of}
use discount_program.Api.Stake.{StakeMint, stake, stake_transaction, metadata_of}
use discount_program.Api.Claims.{ClaimMint, distributor_at}
use discount_program.Api.Unstake.{in_cooldown, unstake, unstake_transaction}
use discount_program.Api.Actions.{
  is_parsed, check_receipt_manager, check_stake_booster, booster_identifier, claim_reward_receipt,
  boost,
}
use discount_program.Api.Order.{methods}
use discount_program.Api.Order.Unstake.{unstake_transaction-methods}
use discount_program.Api.Order.Actions.{fetched_table, claim_reward_receipt-methods, boost-methods}
use discount_program.Api.Order.Claims.{claim_transaction-methods}
use discount_program.Api.ClaimRewards.{reward_owner, claim_transaction}
use discount_program.Api.Order.Stake.{stake_transaction-methods}
use discount_program.Api.Missing.{
  read_account, is_stake_pool, is_receipt_manager, is_stake_booster, missing_account_throws,
}
use discount_program.Tests.World.{
  packages, connection, chain, distributor, pool, payment, manager, booster,
}

-- A fetched table with a reward distributor.
abbrev pub table : Table AccountData
table =
    (
      50,
      record {
        timestamp = 0;
        pubkey = 50;
        info = record { bytes = []; owner = 77 };
        parsed = Parsed.reward_distributor distributor.parsed;
      },
    )
    ∷ []

abbrev pub staked_mint : ClaimMint
staked_mint = record { mint_id = 33; stake_entry_id = 70; reward_entry_ids = some (80 ∷ []) }

unstake_transaction-methods_example :
    methods (unstake_transaction packages 7 60 connection table (some (50 ∷ [])) 30 staked_mint)
    ≡ "updateTotalStakeSeconds" ∷ "initRewardEntry" ∷ "claimRewards" ∷ "unstakeEdition" ∷ []
unfolding in_cooldown distributor_at
unstake_transaction-methods_example =
    unstake_transaction-methods packages 7 60 connection table (some (50 ∷ [])) 30 staked_mint

claim_transaction-methods_example :
    Returns
      (λ tx. methods tx ≡ "updateTotalStakeSeconds" ∷ "initRewardEntry" ∷ "claimRewards" ∷ [])
      (claim_transaction packages 7 60 table (some (50 ∷ [])) staked_mint)
unfolding reward_owner distributor_at
claim_transaction-methods_example =
    claim_transaction-methods packages 7 60 table (some (50 ∷ [])) staked_mint 7 refl

abbrev pub mint : StakeMint
mint = record { mint_id = 33; amount = none; stake_entry_id = 70; mint_token_account_id = 33007 }

abbrev pub stake_pool_account : IdlAccountData AccountType.stake_pool
stake_pool_account = record { timestamp = 0; pubkey = 60; parsed = pool }

abbrev pub payment_account : IdlAccountData AccountType.payment_info
payment_account = record { timestamp = 0; pubkey = 30; parsed = payment }

stake_transaction-methods_example :
    Returns
      (λ tx. methods tx ≡ "initEntry" ∷ "stakeEdition" ∷ [])
      (stake_transaction packages 7 60 table stake_pool_account payment_account mint)
unfolding metadata_of find_mint_metadata_id
stake_transaction-methods_example =
    stake_transaction-methods packages 7 60 table stake_pool_account payment_account mint none refl
      tt

answers : Answers connection chain
answers = record { batched = λ ids. refl }

no_pool :
    is_stake_pool (read_account packages connection chain (find_stake_pool_id packages "nowhere"))
    ≡ false
unfolding find_stake_pool_id find_stake_booster_id decode_account_info
    try_decode_idl_account_unknown
no_pool = refl

no_manager : is_receipt_manager (read_account packages connection chain 20) ≡ false
unfolding find_stake_pool_id find_stake_booster_id decode_account_info
    try_decode_idl_account_unknown
no_manager = refl

no_booster :
    is_stake_booster (
      read_account packages connection chain (
        find_stake_booster_id packages
          (find_stake_pool_id packages "nowhere")
          (booster_identifier (some 3))))
    ≡ false
unfolding find_stake_pool_id find_stake_booster_id decode_account_info
    try_decode_idl_account_unknown
no_booster = refl

abbrev pub info : MintInfo
info = record { mint_id = 33; token_account_id = none; amount = none; fungible = none }

missing_account_throws_example :
    (stake packages connection 7 "nowhere" (info ∷ []) ≡ throw stake_pool_not_found)
    × (unstake packages connection 7 "nowhere" (info ∷ []) none ≡ throw stake_pool_not_found)
    × (claim_reward_receipt packages connection 7 "nowhere" info 20
        ≡ throw receipt_manager_not_found)
    × (boost packages connection 7 "nowhere" info 60 (some 3) ≡ throw stake_booster_not_found)
missing_account_throws_example =
    missing_account_throws packages connection chain answers 7 "nowhere" (info ∷ []) info none 20 60
      (some 3) no_pool no_manager no_booster

pub manager_found :
    check_receipt_manager (fetched_table packages connection 7 "pool" info 90) 90 ≡ ok manager
unfolding check_receipt_manager fetch_idl_account_data_by_id decode_account_infos
    decode_account_infos_from decode_account_info try_decode_idl_account_unknown find_stake_pool_id
    find_stake_booster_id find_reward_receipt_id stake_entry_id_of find_stake_entry_id
manager_found = refl

claim_reward_receipt-methods_example :
    Returns
      (λ tx.
        methods tx ≡ "updateTotalStakeSeconds" ∷ "initRewardReceipt" ∷ "claimRewardReceipt" ∷ [])
      (claim_reward_receipt packages connection 7 "pool" info 90)
unfolding is_parsed fetch_idl_account_data_by_id decode_account_infos decode_account_infos_from
    decode_account_info try_decode_idl_account_unknown find_stake_pool_id find_stake_booster_id
    find_reward_receipt_id stake_entry_id_of find_stake_entry_id
claim_reward_receipt-methods_example =
    claim_reward_receipt-methods packages connection 7 "pool" info 90 manager
      (record { timestamp = 1700; pubkey = 30; parsed = payment }) manager_found refl

pub booster_found :
    check_stake_booster
      (fetch_idl_account_data_by_id packages connection
        (some (find_stake_booster_id packages (find_stake_pool_id packages "pool") none) ∷ []))
      (find_stake_booster_id packages (find_stake_pool_id packages "pool") none)
    ≡ ok booster
unfolding check_stake_booster fetch_idl_account_data_by_id decode_account_infos
    decode_account_infos_from decode_account_info try_decode_idl_account_unknown find_stake_pool_id
    find_stake_booster_id
booster_found = refl

boost-methods_example :
    Returns
      (λ tx. methods tx ≡ "updateTotalStakeSeconds" ∷ "boostStakeEntry" ∷ [])
      (boost packages connection 7 "pool" info 60 none)
boost-methods_example =
    boost-methods packages connection 7 "pool" info 60 none
      (find_stake_booster_id packages (find_stake_pool_id packages "pool") none) booster
      (record { timestamp = 1700; pubkey = 30; parsed = payment }) refl booster_found refl
