-- ===== src/Program/Claims.antt =====
-- `handler` of programs/rewards-center/src/reward_distribution/reward_entry/claim_rewards.rs. The
-- accounts are those of the IDL; `vault` is the amount of the distributor's token account. The
-- constraints on the accounts are in Accounts.
pub mod Time
pub mod Payout
pub mod Rounding
pub mod Accounts
pub mod Foreign
use discount_program.Common.{
  ℕ, zero, suc, ◌/◌, ◌^◌, min, List, [], none, some, ◌==◌, leb, ltb, if◌then◌else◌,
}
use discount_program.Common.Int.{pos, pos_part}
use discount_program.Data.{StakeEntry, RewardEntry, RewardDistributor, AccountMeta}
use discount_program.Program.Outcome.{
  Outcome, done, panic, ◌>>=◌, ◌>>◌, checked_mul, checked_add, checked_sub,
}
use discount_program.Program.Payment.{Host, Transfer, ensure, handle_payment_info}

-- What the handler leaves: the two accounts that it writes to, the reward that it sends to the
-- staker, and the transfers of the payment.
pub record Claim : Type 0 where
  pub distributor : RewardDistributor
  pub reward_entry : RewardEntry
  pub sent : ℕ
  pub payments : List Transfer

abbrev pub checked_div : ℕ → ℕ → Outcome ℕ
checked_div a zero = panic
checked_div a (suc b) = done (a / suc b)

-- `(10_u128).checked_pow(n).unwrap()`
abbrev pub scale_of : ℕ → Outcome ℕ
scale_of decimals = if ltb (10 ^ decimals) (2 ^ 128) then done (10 ^ decimals) else panic

-- `reward_seconds`, after the cap
abbrev pub capped_seconds : RewardDistributor → ℕ → ℕ
capped_seconds d total = elim d.max_reward_seconds_received [
  | none ↦ total
  | some most ↦ min total (pos_part most)
]

-- `reward_amount_to_receive`, before the cap by what the vault holds
unfoldable pub reward_due : RewardDistributor → RewardEntry → (seconds : ℕ) → Outcome ℕ
reward_due d r seconds = do
  since ← checked_sub seconds (pos_part r.reward_seconds_received)
  periods ← checked_div since (pos_part d.reward_duration_seconds)
  reward ← checked_mul 128 periods (pos_part d.reward_amount)
  scaled ← checked_mul 128 reward (pos_part r.multiplier)
  scale ← scale_of d.multiplier_decimals
  checked_div scaled scale

-- `reward_time_to_receive`
unfoldable pub time_for : RewardDistributor → RewardEntry → (amount : ℕ) → Outcome ℕ
time_for d r amount =
    let time : Outcome ℕ =
      (scale_of d.multiplier_decimals >>= λ scale. checked_mul 128 amount scale >>= λ scaled.
      checked_div scaled (pos_part r.multiplier) >>= λ rewards.
      checked_div rewards (pos_part d.reward_amount) >>= λ periods.
      checked_mul 128 periods (pos_part d.reward_duration_seconds)) in
    if pos_part r.multiplier == 0 then done 0 else time

-- The reward is sent, both accounts are updated, and the payment is made.
unfoldable pub pay_reward :
    Host → RewardDistributor → RewardEntry → (seconds vault : ℕ) → List AccountMeta → Outcome Claim
pay_reward host d r seconds vault accounts = do
  reward ← reward_due d r seconds
  let amount = min reward vault
  ensure (ltb amount (2 ^ 64)) panic
  time ← time_for d r amount
  issued ← checked_add 128 (pos_part d.rewards_issued) amount
  received ← checked_add 128 (pos_part r.reward_seconds_received) time
  (payments, rest) ← handle_payment_info host accounts
  done (record {
    distributor = record d { rewards_issued = pos issued };
    reward_entry = record r { reward_seconds_received = pos received };
    sent = amount;
    payments = payments;
  })

unfoldable pub claim_rewards :
    Host
    → RewardDistributor
    → RewardEntry
    → StakeEntry
    → (vault : ℕ) → List AccountMeta
    → Outcome Claim
claim_rewards host d r e vault accounts =
    let total = pos_part e.total_stake_seconds in
    let received = pos_part r.reward_seconds_received in
    let seconds = capped_seconds d total in
    let nothing : Outcome Claim =
      done (record { distributor = d; reward_entry = r; sent = 0; payments = [] }) in
    let paid = pay_reward host d r seconds vault accounts in
    if leb received total then if leb seconds received then nothing else paid else nothing
