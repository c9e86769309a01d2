-- ===== src/Program/Claims/Rounding.antt =====
-- What a claim books when the reward of its periods is a whole number, and when it is not.
use discount_program.Common.{
  ℕ, ◌+◌, ◌*◌, ◌/◌, ◌%◌, ◌^◌, ◌≤◌, ◌<◌, ◌≡◌, ◌≢◌, refl, ap, ◌∙◌, List, arith, if◌then◌else◌,
}
use native.Mathlib.Nat.{div-add-mod', mul-div_cancel, div-lt_iff_lt-mul, mul-le-mul_right}
use discount_program.Common.Int.{pos_part}
use discount_program.Data.{StakeEntry, RewardEntry, RewardDistributor, AccountMeta}
use discount_program.Program.Outcome.{done}
use discount_program.Program.Payment.{Host}
use discount_program.Program.Payment.Accepted.{==-false}
use discount_program.Program.Claims.{Claim, claim_rewards}
use discount_program.Program.Claims.Time.{booked_seconds}
use discount_program.Program.Claims.Payout.{unpaid, IsClaimable, IsClaim, claim_rewards-Returns}

whole_time : (p a f k : ℕ) → 0 < a → 0 < f → p * a * f % k ≡ 0 → p * a * f / k * k / f / a ≡ p
whole_time p a f k ha hf whole =
    let scaled : p * a * f / k * k ≡ p * a * f = omega (arith, div-add-mod' (p * a * f) k) in
    rw (scaled, mul-div_cancel (p * a) hf, mul-div_cancel p ha) refl

short_time : (p a f k : ℕ) → 0 < a → 0 < f → p * a * f % k ≢ 0 → p * a * f / k * k / f / a < p
short_time p a f k ha hf part =
    let scaled : p * a * f / k * k < p * a * f = omega (arith, div-add-mod' (p * a * f) k) in
    (div-lt_iff_lt-mul ha).1 ((div-lt_iff_lt-mul hf).1 scaled)

one_less : (x r q p u : ℕ) → x ≡ r + q * u → q < p → x + u ≤ r + p * u
one_less x r q p u is lt =
    let more : (q + 1) * u ≤ p * u = mul-le-mul_right u (omega arith) in grind (arith, more)

-- The periods that are not yet paid, and what they are worth.
abbrev pub periods : RewardDistributor → RewardEntry → StakeEntry → ℕ
periods d r e = unpaid d r e / pos_part d.reward_duration_seconds

abbrev pub worth : RewardDistributor → RewardEntry → StakeEntry → ℕ
worth d r e = periods d r e * pos_part d.reward_amount * pos_part r.multiplier

module _ (host : Host) (d : RewardDistributor) (r : RewardEntry) (e : StakeEntry) (vault : ℕ)
    (accounts : List AccountMeta) (h : IsClaimable host d r (unpaid d r e) vault accounts)
    (some_multiplier : 0 < pos_part r.multiplier)
    (held : worth d r e / 10 ^ d.multiplier_decimals ≤ vault) where
  all_sent : (c : Claim) → IsClaim d r e vault c → c.sent ≡ worth d r e / 10 ^ d.multiplier_decimals
  all_sent c is = is.sent ∙ (omega arith)

  booked_lem :
      (c : Claim)
      → IsClaim d r e vault c
      → pos_part c.reward_entry.reward_seconds_received
        ≡ pos_part r.reward_seconds_received
          + worth d r e
            / 10 ^ d.multiplier_decimals
            * 10 ^ d.multiplier_decimals
            / pos_part r.multiplier
            / pos_part d.reward_amount
            * pos_part d.reward_duration_seconds
  booked_lem c is =
      is.time
      ∙ ap (λ x. pos_part r.reward_seconds_received + booked_seconds d r x) (all_sent c is)
      ∙ ap
          (λ b.
            pos_part r.reward_seconds_received
            + (if b
                then 0
                else worth d r e
                  / 10 ^ d.multiplier_decimals
                  * 10 ^ d.multiplier_decimals
                  / pos_part r.multiplier
                  / pos_part d.reward_amount
                  * pos_part d.reward_duration_seconds))
          (==-false (pos_part r.multiplier) 0 (λ none_. omega arith))

  -- Where a claim goes through (IsClaimable), the multiplier is not 0, and the vault holds the
  -- reward, a reward that is a whole number before the multiplier is scaled down is sent in full,
  -- and exactly the periods that were not yet paid are booked.
  pub whole_claim-Books :
      worth d r e % 10 ^ d.multiplier_decimals ≡ 0
      → (c : Claim) × (claim_rewards host d r e vault accounts ≡ done c)
        × (c.sent ≡ worth d r e / 10 ^ d.multiplier_decimals)
        × (pos_part c.reward_entry.reward_seconds_received
            ≡ pos_part r.reward_seconds_received
              + periods d r e * pos_part d.reward_duration_seconds)
  whole_claim-Books whole =
      let (c, claimed, is) = claim_rewards-Returns host d r e vault accounts h in
      (
        c,
        claimed,
        all_sent c is,
        booked_lem c is
            ∙ ap (λ p. pos_part r.reward_seconds_received + p * pos_part d.reward_duration_seconds)
                (whole_time (periods d r e) (pos_part d.reward_amount) (pos_part r.multiplier)
                  (10 ^ d.multiplier_decimals) h.payable.some_reward some_multiplier whole),
      )

  -- Where a claim goes through (IsClaimable), the multiplier is not 0, and the vault holds the
  -- reward, a reward that is not a whole number is sent rounded down, and of the periods that it is
  -- for one at least is not booked.
  pub short_claim_unbooked :
      worth d r e % 10 ^ d.multiplier_decimals ≢ 0
      → (c : Claim) × (claim_rewards host d r e vault accounts ≡ done c)
        × (c.sent ≡ worth d r e / 10 ^ d.multiplier_decimals)
        × (pos_part c.reward_entry.reward_seconds_received + pos_part d.reward_duration_seconds
            ≤ pos_part r.reward_seconds_received
              + periods d r e * pos_part d.reward_duration_seconds)
  short_claim_unbooked part =
      let (c, claimed, is) = claim_rewards-Returns host d r e vault accounts h in
      let short =
        short_time (periods d r e) (pos_part d.reward_amount) (pos_part r.multiplier)
          (10 ^ d.multiplier_decimals) h.payable.some_reward some_multiplier part in
      (c, claimed, all_sent c is, one_less _ _ _ _ _ (booked_lem c is) short)
