-- ===== src/Program/RewardEntries.antt =====
-- `initRewardEntry`:
-- programs/rewards-center/src/reward_distribution/reward_entry/init_reward_entry.rs.
use discount_program.Common.{ℕ, Bool, ◌==◌}
use discount_program.Common.Int.{pos}
use discount_program.Data.{PublicKey, StakeEntry, RewardEntry, RewardDistributor}
use discount_program.Program.Outcome.{Outcome, done, err, ◌>>◌, constraint_raw}
use discount_program.Program.Payment.{ensure, init_account}

-- The addresses from `find_program_address`, and the accounts in use.
pub record RewardHost : Type 0 where
  pub find_reward_entry : (distributor stake_entry : PublicKey) → PublicKey × ℕ
  pub in_use : PublicKey → Bool

-- The keys are those of the accounts of `InitRewardEntryCtx`.
unfoldable pub init_reward_entry :
    RewardHost
    → (reward_entry stake_entry reward_distributor : PublicKey) → StakeEntry
    → RewardDistributor
    → Outcome RewardEntry
init_reward_entry host reward_entry stake_entry reward_distributor e d = do
  let found = host.find_reward_entry reward_distributor stake_entry
  init_account (host.in_use reward_entry) reward_entry found.0
  ensure (d.stake_pool == e.pool) (err constraint_raw)
  done (record {
    bump = found.1;
    stake_entry = stake_entry;
    reward_distributor = reward_distributor;
    reward_seconds_received = pos 0;
    multiplier = d.default_multiplier;
  })
