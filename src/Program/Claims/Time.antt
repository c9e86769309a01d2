-- ===== src/Program/Claims/Time.antt =====
-- The time that a claim is paid for (`reward_time_to_receive` of claim_rewards.rs): never more than
-- the time that was left to pay.
use discount_program.Common.{
  ℕ, zero, suc, ◌-◌, ◌*◌, ◌/◌, ◌^◌, ◌≤◌, ◌<◌, ◌≡◌, ◌==◌, refl, true, arith, Bool-cases, inl, inr,
  ltb, if◌then◌else◌,
}
use native.Mathlib.Nat.{pow-suc, mul-le-mul_right}
use discount_program.Common.Int.{pos_part}
use discount_program.Data.{RewardEntry, RewardDistributor}
use discount_program.Program.Outcome.{done, checked_mul, checked_sub}
use discount_program.Program.Claims.{time_for, reward_due, checked_div}

div_mul-le : (x k : ℕ) → 0 < k → x / k * k ≤ x
div_mul-le x k h = grind arith

div-le : (x y k : ℕ) → 0 < k → x ≤ y * k → x / k ≤ y
div-le x y k h le = grind arith

-- An amount of at most the reward is worth at most the time that the reward is for.
time-le :
    (s u a f k x : ℕ)
    → 0 < u
    → 0 < a
    → 0 < f
    → 0 < k
    → x ≤ s / u * a * f / k
    → x * k / f / a * u ≤ s
time-le s u a f k x hu ha hf hk h =
    let scaled : x * k ≤ s / u * a * f = grind (arith, div_mul-le (s / u * a * f) k hk) in
    let rewards : x * k / f ≤ s / u * a = div-le _ _ f hf scaled in
    let periods : x * k / f / a ≤ s / u = div-le _ _ a ha rewards in
    grind (arith, div_mul-le s u hu)

checked_div_lem : (a b : ℕ) → 0 < b → checked_div a b ≡ done (a / b)
checked_div_lem a zero h = absurd (omega arith)
checked_div_lem a (suc b) h = refl

checked_mul_lem : (a b : ℕ) → a * b < 2 ^ 128 → checked_mul 128 a b ≡ done (a * b)
checked_mul_lem a b h = ground arith

ltb_lem : {a b : ℕ} → a < b → ltb a b ≡ true
ltb_lem h = ground arith

pub pow_pos : (k : ℕ) → 0 < 10 ^ k
pow_pos zero = omega arith
pow_pos (suc k) = omega (arith, pow-suc 10 k, pow_pos k)

-- The distributor and the reward entry with which no operation on 128 bits overflows or divides by
-- zero, for `since` seconds that are to be paid, out of the `vault`.
pub record IsPayableReward (d : RewardDistributor) (r : RewardEntry) (since vault : ℕ)
    : Type 0 where
  pub some_time : 0 < pos_part d.reward_duration_seconds
  pub some_reward : 0 < pos_part d.reward_amount
  pub scale : 10 ^ d.multiplier_decimals < 2 ^ 128
  pub product :
      since / pos_part d.reward_duration_seconds * pos_part d.reward_amount * pos_part r.multiplier
      < 2 ^ 128
  pub reward_fits : since / pos_part d.reward_duration_seconds * pos_part d.reward_amount < 2 ^ 128
  pub vault_fits : vault < 2 ^ 64
  pub scaled : vault * 10 ^ d.multiplier_decimals < 2 ^ 128
  pub since_fits : since < 2 ^ 128

-- The seconds of the whole periods that an amount pays for.
abbrev pub booked_seconds : RewardDistributor → RewardEntry → ℕ → ℕ
booked_seconds d r x =
    if pos_part r.multiplier == 0
    then 0
    else x
      * 10 ^ d.multiplier_decimals
      / pos_part r.multiplier
      / pos_part d.reward_amount
      * pos_part d.reward_duration_seconds

module _ (d : RewardDistributor) (r : RewardEntry) (since vault : ℕ)
    (h : IsPayableReward d r since vault) where
  -- Whole periods, times the reward of one, scaled by the multiplier.
  abbrev pub reward : ℕ
  reward =
      since
      / pos_part d.reward_duration_seconds
      * pos_part d.reward_amount
      * pos_part r.multiplier
      / 10 ^ d.multiplier_decimals

  pub reward_due_lem :
      (seconds : ℕ)
      → pos_part r.reward_seconds_received ≤ seconds
      → since ≡ seconds - pos_part r.reward_seconds_received
      → reward_due d r seconds ≡ done reward
  unfolding reward_due
  reward_due_lem seconds due e =
      let less : checked_sub seconds (pos_part r.reward_seconds_received) ≡ done since =
        ground (arith) in
      rw
        (
          less,
          checked_div_lem since (pos_part d.reward_duration_seconds) h.some_time,
          checked_mul_lem _ _ h.reward_fits,
          checked_mul_lem _ _ h.product,
          ltb_lem h.scale,
          checked_div_lem
              (since
                / pos_part d.reward_duration_seconds
                * pos_part d.reward_amount
                * pos_part r.multiplier)
              (10 ^ d.multiplier_decimals) (pow_pos d.multiplier_decimals),
        )
        refl

  -- The time that is booked for an amount of at most the reward and the vault: at most `since`.
  pub time_for_lem :
      (x : ℕ)
      → x ≤ reward
      → x ≤ vault
      → (time_for d r x ≡ done (booked_seconds d r x)) × (booked_seconds d r x ≤ since)
  unfolding time_for
  time_for_lem x le held = elim (Bool-cases (pos_part r.multiplier == 0)) [
    | inl nothing ↦ rw nothing (refl, omega arith)
    | inr something ↦
        let f : 0 < pos_part r.multiplier = ground (arith, something) in
        let k : ℕ = 10 ^ d.multiplier_decimals in
        let bound =
          time-le since (pos_part d.reward_duration_seconds) (pos_part d.reward_amount)
            (pos_part r.multiplier) k x h.some_time h.some_reward f (pow_pos d.multiplier_decimals)
            le in
        let scaled : x * k < 2 ^ 128 = below x k held h.scaled in
        rw something (
          rw
              (
                ltb_lem h.scale,
                ltb_lem scaled,
                checked_div_lem (x * k) (pos_part r.multiplier) f,
                checked_div_lem (x * k / pos_part r.multiplier) (pos_part d.reward_amount)
                    h.some_reward,
                ltb_lem (fits _ bound),
              )
              refl,
          bound,
        )
  ]
    where
      below : (x k : ℕ) → x ≤ vault → vault * k < 2 ^ 128 → x * k < 2 ^ 128
      below x k le small = let m : x * k ≤ vault * k = mul-le-mul_right k le in omega arith

      fits : (t : ℕ) → t ≤ since → t < 2 ^ 128
      fits t le = omega (arith, h.since_fits)
