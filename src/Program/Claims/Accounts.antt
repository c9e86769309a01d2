-- ===== src/Program/Claims/Accounts.antt =====
-- The accounts of a claim (`ClaimRewardsCtx` of
-- programs/rewards-center/src/reward_distribution/reward_entry/claim_rewards.rs): what is read of
-- them, the constraints, and the instruction, which is the constraints and then the handler.
use discount_program.Common.{ℕ, List, ◌==◌, ◌&&◌, ◌||◌}
use discount_program.Data.{PublicKey, StakeEntry, RewardEntry, RewardDistributor, AccountMeta}
use discount_program.Program.Outcome.{
  Outcome, err, ◌>>=◌, ◌>>◌, constraint_raw, invalid_stake_entry, invalid_reward_mint,
  invalid_user_reward_mint_token_account, invalid_token_account, invalid_authority,
}
use discount_program.Program.Payment.{Host, ensure}
use discount_program.Program.Claims.{Claim, claim_rewards}

-- The keys of the accounts and, of the two token accounts, what is read.
pub record ClaimAccounts : Type 0 where
  pub reward_distributor : PublicKey
  pub stake_entry : PublicKey
  pub stake_pool : PublicKey
  pub reward_mint : PublicKey
  pub user_token_owner : PublicKey
  pub user_token_mint : PublicKey
  pub distributor_token_mint : PublicKey
  pub distributor_token_owner : PublicKey
  pub distributor_token_amount : ℕ
  pub user : PublicKey
  pub remaining_accounts : List AccountMeta

-- The constraints, in the order of their declaration.
unfoldable pub check_claim :
    ClaimAccounts → RewardDistributor → RewardEntry → StakeEntry → Outcome (Unit {0})
check_claim a d r e = do
  ensure (d.stake_pool == a.stake_pool) (err constraint_raw)
  ensure (a.stake_entry == r.stake_entry) (err invalid_stake_entry)
  ensure (a.stake_pool == e.pool) (err constraint_raw)
  ensure (a.reward_mint == d.reward_mint) (err invalid_reward_mint)
  ensure (a.user_token_owner == e.last_staker && (a.user_token_mint == d.reward_mint))
      (err invalid_user_reward_mint_token_account)
  ensure
      (a.distributor_token_mint == a.reward_mint
        && (a.distributor_token_owner == a.reward_distributor))
      (err invalid_token_account)
  ensure (a.user == e.last_staker || (a.user == d.authority)) (err invalid_authority)

unfoldable pub claim_instruction :
    Host → ClaimAccounts → RewardDistributor → RewardEntry → StakeEntry → Outcome Claim
claim_instruction host a d r e = check_claim a d r e >>= λ _.
    claim_rewards host d r e a.distributor_token_amount a.remaining_accounts
