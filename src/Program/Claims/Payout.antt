-- ===== src/Program/Claims/Payout.antt =====
-- What a claim (`handler` of claim_rewards.rs) pays and books.
use native.Mathlib.Nat.{zero-div}
use discount_program.Common.{
  ◌==◌, ℕ, ◌+◌, ◌-◌, ◌*◌, ◌/◌, ◌^◌, ◌≤◌, ◌<◌, ◌≡◌, refl, true, false, min, arith, Bool-cases, inl,
  inr, ltb, leb, List, Option-cases, [],
}
use discount_program.Common.Int.{pos, pos_part}
use discount_program.Data.{StakeEntry, RewardEntry, RewardDistributor, AccountMeta}
use discount_program.Program.Outcome.{done}
use discount_program.Program.Payment.{Host, Transfer, handle_payment_info}
use discount_program.Program.Claims.{Claim, claim_rewards, capped_seconds, pay_reward}
use discount_program.Program.Claims.Time.{
  booked_seconds, IsPayableReward, reward, reward_due_lem, time_for_lem,
}

-- The seconds that are still to be paid.
abbrev pub unpaid : RewardDistributor → RewardEntry → StakeEntry → ℕ
unpaid d r e =
    capped_seconds d (pos_part e.total_stake_seconds) - pos_part r.reward_seconds_received

-- The claim goes through: the amounts stay in range, and the payment is made.
pub record IsClaimable (host : Host) (d : RewardDistributor) (r : RewardEntry) (since vault : ℕ)
    (accounts : List AccountMeta) : Type 0 where
  pub payable : IsPayableReward d r since vault
  pub issued : pos_part d.rewards_issued + vault < 2 ^ 128
  pub received : pos_part r.reward_seconds_received + since < 2 ^ 128
  pub paid :
      (payments : List Transfer) × (rest : List AccountMeta) × (handle_payment_info host accounts
        ≡ done (payments, rest))

-- What a claim does: it sends the reward of the unpaid seconds or, if that is less, all of the
-- vault; it adds what it sends to the rewards issued; and it books the whole periods that this
-- amount pays for, no more seconds than are unpaid. The settings of the distributor stay.
pub record IsClaim (d : RewardDistributor) (r : RewardEntry) (e : StakeEntry) (vault : ℕ)
    (c : Claim) : Type 0 where
  pub sent :
      c.sent
      ≡ min
          (unpaid d r e
            / pos_part d.reward_duration_seconds
            * pos_part d.reward_amount
            * pos_part r.multiplier
            / 10 ^ d.multiplier_decimals)
          vault
  pub issued : pos_part c.distributor.rewards_issued ≡ pos_part d.rewards_issued + c.sent
  pub booked :
      pos_part c.reward_entry.reward_seconds_received
      ≤ pos_part r.reward_seconds_received + unpaid d r e
  pub not_less :
      pos_part r.reward_seconds_received ≤ pos_part c.reward_entry.reward_seconds_received
  pub time :
      pos_part c.reward_entry.reward_seconds_received
      ≡ pos_part r.reward_seconds_received + booked_seconds d r c.sent
  pub settings : c.distributor ≡ record d { rewards_issued = c.distributor.rewards_issued }

nothing_due : (u a f k vault since : ℕ) → since ≡ 0 → 0 ≡ min (since / u * a * f / k) vault
nothing_due u a f k vault since e =
    let none_left : 0 * a * f ≡ 0 = grind arith in
    rw (e, zero-div u, none_left, zero-div k) (omega arith)

zero_time : (k f a u : ℕ) → 0 * k / f / a * u ≡ 0
zero_time k f a u =
    let none_left : 0 * k ≡ 0 = grind arith in
    let nothing : 0 * u ≡ 0 = grind arith in rw (none_left, zero-div f, zero-div a) nothing

-- An amount of 0 pays for no time.
idle_time :
    (d : RewardDistributor) (r : RewardEntry)
    → pos_part r.reward_seconds_received ≡ pos_part r.reward_seconds_received + booked_seconds d r 0
idle_time d r = elim (Bool-cases (pos_part r.multiplier == 0)) [
  | inl is ↦ rw is (omega arith)
  | inr is ↦
      rw
        (
          is,
          zero_time (10 ^ d.multiplier_decimals) (pos_part r.multiplier) (pos_part d.reward_amount)
              (pos_part d.reward_duration_seconds),
        )
        (omega arith)
]

capped-le : (d : RewardDistributor) (total : ℕ) → capped_seconds d total ≤ total
capped-le d total = elim (Option-cases d.max_reward_seconds_received) [
  | inl none_set ↦ rw (none_set, capped_seconds) (omega arith)
  | inr (most, set) ↦ rw (set, capped_seconds) (omega arith)
]

module _ (host : Host) (d : RewardDistributor) (r : RewardEntry) (e : StakeEntry) (vault : ℕ)
    (accounts : List AccountMeta) where
  -- What there is after a claim that pays nothing.
  idle-IsClaim :
      unpaid d r e ≡ 0
      → IsClaim d r e vault (record { distributor = d; reward_entry = r; sent = 0; payments = [] })
  idle-IsClaim e' = record {
    sent = nothing_due _ _ _ _ vault (unpaid d r e) e';
    issued = omega arith;
    booked = omega arith;
    not_less = omega arith;
    time = idle_time d r;
    settings = refl;
  }

  pay_reward_lem :
      IsClaimable host d r (unpaid d r e) vault accounts
      → pos_part r.reward_seconds_received ≤ capped_seconds d (pos_part e.total_stake_seconds)
      → (c : Claim) × (pay_reward host d r
            (capped_seconds d (pos_part e.total_stake_seconds))
            vault
            accounts
          ≡ done c)
        × IsClaim d r e vault c
  unfolding pay_reward
  pay_reward_lem h due =
      let amount : ℕ = min (reward d r (unpaid d r e) vault h.payable) vault in
      let time : ℕ = booked_seconds d r amount in
      let (took, within) =
        time_for_lem d r (unpaid d r e) vault h.payable amount (omega arith) (omega arith) in
      let (payments, rest, paid) = h.paid in
      (
        record {
          distributor = record d { rewards_issued = pos (pos_part d.rewards_issued + amount) };
          reward_entry = record r {
            reward_seconds_received = pos (pos_part r.reward_seconds_received + time);
          };
          sent = amount;
          payments = payments;
        },
        rw
            (
              reward_due_lem d r (unpaid d r e) vault h.payable
                  (capped_seconds d (pos_part e.total_stake_seconds)) due refl,
              fits 64 amount (omega (arith, h.payable.vault_fits)),
              took,
              fits 128 (pos_part d.rewards_issued + amount) (omega (arith, h.issued)),
              fits 128 (pos_part r.reward_seconds_received + time) (omega (arith, h.received)),
              paid,
            )
            refl,
        record {
          sent = refl;
          issued = refl;
          booked = omega arith;
          not_less = omega arith;
          time = refl;
          settings = refl;
        },
      )
    where
      fits : (w x : ℕ) → x < 2 ^ w → ltb x (2 ^ w) ≡ true
      fits w x small = ground arith

  -- Where no operation on 128 bits overflows or divides by zero (IsClaimable) and the payment is
  -- made, claimRewards returns: it sends the reward of the whole unpaid periods or, if that is
  -- less, all of the vault; it adds what it sends to the rewards issued; and it books the whole
  -- periods that the amount it sends pays for, no fewer seconds than before and no more than are
  -- unpaid.
  pub claim_rewards-Returns :
      IsClaimable host d r (unpaid d r e) vault accounts
      → (c : Claim) × (claim_rewards host d r e vault accounts ≡ done c) × IsClaim d r e vault c
  unfolding claim_rewards
  claim_rewards-Returns h =
      let total = pos_part e.total_stake_seconds in
      let received = pos_part r.reward_seconds_received in
      elim (Bool-cases (leb received total)) [
        | inr ahead ↦ (
          record { distributor = d; reward_entry = r; sent = 0; payments = [] },
          rw ahead refl,
          idle-IsClaim (past received total (capped_seconds d total) ahead (capped-le d total)),
        )
        | inl behind ↦ elim (Bool-cases (leb (capped_seconds d total) received)) [
          | inl full ↦ (
            record { distributor = d; reward_entry = r; sent = 0; payments = [] },
            rw (behind, full) refl,
            idle-IsClaim (no_more received (capped_seconds d total) full),
          )
          | inr due ↦
              let (c, paid, is) =
                pay_reward_lem h (some_due received (capped_seconds d total) due) in
              (c, rw (behind, due) paid, is)
        ]
      ]
    where
      past : (a t c : ℕ) → leb a t ≡ false → c ≤ t → c - a ≡ 0
      past a t c ahead le = ground arith

      no_more : (a c : ℕ) → leb c a ≡ true → c - a ≡ 0
      no_more a c full = ground arith

      some_due : (a c : ℕ) → leb c a ≡ false → a ≤ c
      some_due a c due = ground arith
