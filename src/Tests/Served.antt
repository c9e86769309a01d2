-- ===== src/Tests/Served.antt =====
-- Which transactions the program serves, on the accounts of the tests of their order.
use discount_program.Common.{false, true, ◌≡◌, refl, none, some, [], ◌∷◌, Returns}
use discount_program.Pda.{find_mint_metadata_id, find_stake_pool_id, find_stake_booster_id}
use discount_program.Api.Stake.{stake_transaction, metadata_of}
use discount_program.Api.Unstake.{unstake_transaction}
use discount_program.Api.ClaimRewards.{reward_owner, claim_transaction}
use discount_program.Api.Actions.{claim_reward_receipt, boost}
use discount_program.Api.Order.{methods}
use discount_program.Api.Served.{
  stake_transaction-Served, unstake_transaction-Served, claim_transaction-Served, actions-Unserved,
}
use discount_program.Program.Entrypoints.{serves_all}
use discount_program.Tests.World.{packages, connection, manager, booster, payment}
use discount_program.Tests.Order.{
  table, staked_mint, mint, stake_pool_account, payment_account, info, manager_found, booster_found,
}

stake_transaction-Served_example :
    Returns
      (λ tx. serves_all (methods tx) ≡ false)
      (stake_transaction packages 7 60 table stake_pool_account payment_account mint)
unfolding metadata_of find_mint_metadata_id
stake_transaction-Served_example =
    stake_transaction-Served packages 7 60 table stake_pool_account payment_account mint none refl
      tt

unstake_transaction-Served_example :
    serves_all
      (methods (unstake_transaction packages 7 60 connection table (some (50 ∷ [])) 30 staked_mint))
    ≡ false
unstake_transaction-Served_example =
    unstake_transaction-Served packages 7 60 connection table (some (50 ∷ [])) 30 staked_mint

claim_transaction-Served_example :
    Returns
      (λ tx. serves_all (methods tx) ≡ true)
      (claim_transaction packages 7 60 table (some (50 ∷ [])) staked_mint)
unfolding reward_owner
claim_transaction-Served_example =
    claim_transaction-Served packages 7 60 table (some (50 ∷ [])) staked_mint 7 refl

actions-Unserved_example :
    Returns
      (λ tx. serves_all (methods tx) ≡ false)
      (claim_reward_receipt packages connection 7 "pool" info 90)
    × Returns
        (λ tx. serves_all (methods tx) ≡ false)
        (boost packages connection 7 "pool" info 60 none)
actions-Unserved_example =
    actions-Unserved packages connection 7 "pool" info 90 manager 60 none
      (find_stake_booster_id packages (find_stake_pool_id packages "pool") none) booster
      (record { timestamp = 1700; pubkey = 30; parsed = payment })
      (record { timestamp = 1700; pubkey = 30; parsed = payment }) manager_found refl refl
      booster_found refl
