-- ===== src/Program/Preview.antt =====
-- The preview of the SDK (`calculatePendingRewards`, sdk/rewardDistribution.ts) against what the
-- program pays (update_total_stake_seconds.rs and claim_rewards.rs).
use discount_program.Common.{
  ℕ, ◌+◌, ◌-◌, ◌*◌, ◌/◌, ◌%◌, ◌^◌, ◌≤◌, ◌<◌, ◌≡◌, ◌≢◌, refl, sym, ap, subst, ◌∙◌, true, min, arith,
  Option, Option-cases, none, some, inl, inr, List, ok, ltb,
}
use discount_program.Common.Int.{ℤ, pos, pos_part}
use discount_program.Data.{StakeEntry, RewardDistributor, AccountMeta}
use discount_program.Packages.{BigNumber, IsDocumented}
use discount_program.Rewards.Pending.{
  StakeEntryData, RewardEntryData, RewardDistributorData, staked_seconds, calculate_pending_rewards,
}
use discount_program.Rewards.ClosedForm.{
  IsUnsigned, IsEntry, IsDistributor, current, staked, capped, staked_seconds_lem,
}
use discount_program.Rewards.Bounds.{IsOrdinary, calculate_closed, elapsed}
use discount_program.Payment.{basis_points_divisor}
use discount_program.Program.Outcome.{done}
use discount_program.Program.Payment.{Host}
use discount_program.Program.Staking.{
  multiplied_seconds, increment_total_stake_seconds, update_total_stake_seconds, saturating_add,
  unwrap_or, to_u128,
}
use discount_program.Program.Claims.{Claim, claim_rewards, capped_seconds}
use discount_program.Program.Payment.Accepted.{==-false}
use discount_program.Program.Claims.Payout.{IsClaimable, claim_rewards-Returns, unpaid}

-- The seconds that an update adds.
abbrev pub increase : StakeEntry → ℕ → ℕ
increase e now = (now - pos_part e.last_updated_at) * pos_part e.amount

-- An entry that is not in its cooldown, whose update stays within 128 bits.
pub record IsUpdatable (e : StakeEntry) (now : ℕ) : Type 0 where
  pub no_cooldown : e.cooldown_start_seconds ≡ none
  pub updated : IsUnsigned e.last_updated_at
  pub fits : pos_part e.total_stake_seconds + increase e now < 2 ^ 128
  pub points_fit :
      (points : ℤ)
      → e.multiplier_basis_points ≡ some points
      → increase e now * pos_part points < 2 ^ 128

ltb_lem : (x w : ℕ) → x < 2 ^ w → ltb x (2 ^ w) ≡ true
ltb_lem x w small = ground arith

saturating_add_lem : (a b : ℕ) → a + b < 2 ^ 128 → saturating_add a b ≡ a + b
saturating_add_lem a b small = omega arith

module _ (e : StakeEntry) (now : ℕ) (h : IsUpdatable e now) where
  multiplied_lem : (m : Option ℤ) × (multiplied_seconds e (increase e now) ≡ done m)
  unfolding multiplied_seconds
  multiplied_lem = elim (Option-cases e.multiplier_basis_points) [
    | inl unset ↦ (e.multiplier_stake_seconds, rw unset refl)
    | inr (points, set) ↦ (
      some (
          pos (
            saturating_add (pos_part (unwrap_or e.multiplier_stake_seconds e.total_stake_seconds))
              (increase e now * pos_part points / basis_points_divisor))),
      rw (set, ltb_lem (increase e now * pos_part points) 128 (h.points_fit points set)) refl,
    )
  ]

  current_lem : to_u128 (unwrap_or e.cooldown_start_seconds (pos now)) ≡ done now
  current_lem = rw h.no_cooldown refl

  updated_lem : to_u128 e.last_updated_at ≡ done (pos_part e.last_updated_at)
  updated_lem = rw h.updated refl

  pub increment_lem :
      (e' : StakeEntry) × (increment_total_stake_seconds (pos now) e ≡ done e')
      × (e'.total_stake_seconds ≡ pos (pos_part e.total_stake_seconds + increase e now))
  unfolding increment_total_stake_seconds
  increment_lem =
      let (m, multiplied) = multiplied_lem in
      (
        record e {
          multiplier_stake_seconds = m;
          total_stake_seconds =
              pos (saturating_add (pos_part e.total_stake_seconds) (increase e now));
          last_updated_at = pos now;
        },
        rw
            (
              current_lem,
              updated_lem,
              ltb_lem (increase e now) 128 (omega (arith, h.fits)),
              multiplied,
            )
            refl,
        ap pos (saturating_add_lem _ _ h.fits),
      )

current-now : (e : StakeEntry) (now : ℕ) → IsUpdatable e now → current e now ≡ now
current-now e now h = rw h.no_cooldown refl

split_time :
    (now ls lu amt total : ℕ)
    → ls ≤ lu
    → lu ≤ now
    → (now - ls) * amt + total ≡ total + (now - lu) * amt + (lu - ls) * amt
split_time now ls lu amt total h k =
    let parts : now - ls ≡ now - lu + (lu - ls) = omega arith in rw parts (grind arith)

fresh_seconds :
    (e : StakeEntry) (now : ℕ)
    → IsUpdatable e now
    → e.last_updated_at ≡ e.last_staked_at
    → pos_part e.total_stake_seconds + increase e now ≡ staked e now
fresh_seconds e now h fresh = rw (current-now e now h, fresh) (omega arith)

capped_same : (d : RewardDistributor) (s : ℕ) → capped_seconds d s ≡ capped d s
capped_same d s = refl

module _ (n : BigNumber) (doc : IsDocumented n) where
  -- For an entry that is not in its cooldown, was last updated between its staking and now, and
  -- whose update stays in range, calculatePendingRewards starts from more seconds than the program
  -- has after an update now: from those of the program and, once more, the seconds between staking
  -- and the last update times the amount (bn.js as documented).
  pub staked_seconds-surplus :
      (d : RewardDistributor) (e : StakeEntry) (now : ℕ)
      → now < 2 ^ 53
      → IsDistributor d
      → IsEntry e
      → IsUpdatable e now
      → pos_part e.last_staked_at ≤ pos_part e.last_updated_at
      → pos_part e.last_updated_at ≤ now
      → (e' : StakeEntry) × (increment_total_stake_seconds (pos now) e ≡ done e')
        × (staked_seconds n e (pos now)
            ≡ pos (
                pos_part e'.total_stake_seconds
                + (pos_part e.last_updated_at - pos_part e.last_staked_at) * pos_part e.amount))
  staked_seconds-surplus d e now in_range de ee h after before =
      let (e', updated, total) = increment_lem e now h in
      let c = current-now e now h in
      let later : pos_part e.last_staked_at ≤ current e now = rw c (omega arith) in
      let same : staked e now
          ≡ (now - pos_part e.last_staked_at) * pos_part e.amount + pos_part e.total_stake_seconds =
        rw c refl in
      (
        e',
        updated,
        staked_seconds_lem n doc d e now in_range de ee later
            ∙ ap pos (
                same
                ∙ split_time now _ _ (pos_part e.amount) (pos_part e.total_stake_seconds) after
                    before
                ∙ ap
                    (λ t.
                      pos_part t
                      + (pos_part e.last_updated_at - pos_part e.last_staked_at)
                        * pos_part e.amount)
                    (sym total)),
      )

  -- For a stake entry in an ordinary state that is staked, is not in its cooldown and was not
  -- updated since it was staked, with a reward entry, an updateTotalStakeSeconds and a claimRewards
  -- that stay in range and can be paid both succeed, and claimRewards sends exactly the amount that
  -- calculatePendingRewards previews for that time and that vault (bn.js as documented).
  pub preview_claimed :
      (host : Host) (d : RewardDistributorData) (e : StakeEntryData) (r : RewardEntryData)
      (now vault : ℕ) (accounts : List AccountMeta)
      → IsOrdinary d.parsed e.parsed (some r.parsed) now
      → e.parsed.pool ≡ d.parsed.stake_pool
      → IsUpdatable e.parsed now
      → e.parsed.last_updated_at ≡ e.parsed.last_staked_at
      → e.parsed.last_staker ≢ host.default_key
      → IsClaimable host d.parsed r.parsed
          (capped d.parsed (staked e.parsed now) - pos_part r.parsed.reward_seconds_received)
          vault
          accounts
      → (e' : StakeEntry) × (c : Claim) × (next : ℤ) × (update_total_stake_seconds host
            (pos now)
            e.parsed
          ≡ done e')
        × (claim_rewards host d.parsed r.parsed e' vault accounts ≡ done c)
        × (calculate_pending_rewards n d e (some r) (pos vault) (pos now) ≡ ok (pos c.sent, next))
  unfolding update_total_stake_seconds
  preview_claimed host d e r now vault accounts ordinary same h fresh held claimable =
      let (e', updated, total) = increment_lem e.parsed now h in
      let received : ℕ = pos_part r.parsed.reward_seconds_received in
      let left : unpaid d.parsed r.parsed e' ≡ capped d.parsed (staked e.parsed now) - received =
        ap (λ t. capped_seconds d.parsed t - received)
          (ap pos_part total ∙ fresh_seconds e.parsed now h fresh)
        ∙ ap (λ s. s - received) (capped_same d.parsed (staked e.parsed now)) in
      let (c, claimed, is) =
        claim_rewards-Returns host d.parsed r.parsed e' vault accounts
          (subst (λ s. IsClaimable host d.parsed r.parsed s vault accounts) (sym left) claimable) in
      let duration : ℕ = pos_part d.parsed.reward_duration_seconds in
      let worth : ℕ → ℕ = λ s.
        min
          (s
            / duration
            * pos_part d.parsed.reward_amount
            * pos_part r.parsed.multiplier
            / 10 ^ d.parsed.multiplier_decimals)
          vault in
      let next : ℤ = pos (duration - elapsed e.parsed now % duration) in
      (
        e',
        c,
        next,
        rw (==-false e.parsed.last_staker host.default_key held, h.no_cooldown) updated,
        claimed,
        calculate_closed n doc d e (some r) vault now ordinary same
            ∙ ap (λ x. ok (pos x, next)) (ap worth (sym left) ∙ sym is.sent),
      )
