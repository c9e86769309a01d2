-- ===== src/Program/Pnft/Early.antt =====
-- When unstakePnft is too early.
use discount_program.Common.{
  ℕ, ◌+◌, ◌≤◌, ◌<◌, ◌^◌, ◌≡◌, refl, inl, inr, Bool-cases, some, ltb, if◌then◌else◌,
}
use discount_program.Common.Int.{pos}
use discount_program.Data.{StakePool, StakeEntry, UserEscrow}
use discount_program.Program.Outcome.{
  Outcome, done, err, min_stake_seconds_not_satisfied, cooldown_second_remaining,
}
use discount_program.Program.Entries.{EntryHost}
use discount_program.Program.Pnft.{
  PnftAccounts, PnftResult, TokenMetadata, check_accounts, finish_unstake, unstake_pnft,
}
use discount_program.Program.Pnft.Returns.{escrow_accepted}
use discount_program.Program.Pnft.Waiting.{seconds_of, check_min_stake_lem, starts_cooldown_lem}

module _ {Tokens : Type 0} (host : EntryHost) (meta : TokenMetadata Tokens) (now x start : ℕ)
    (a : PnftAccounts) (pool : StakePool) (e : StakeEntry) (escrow : UserEscrow)
    (tokens : Tokens) where
  -- What unstakePnft does of an entry that was staked at x and started its cooldown at start.
  abbrev pub cooling_outcome : Outcome (PnftResult Tokens)
  cooling_outcome =
      if ltb now (x + seconds_of pool.min_stake_seconds)
      then err min_stake_seconds_not_satisfied
      else if ltb now (start + seconds_of pool.cooldown_seconds)
      then err cooldown_second_remaining
      else finish_unstake host meta (pos now) a pool e escrow tokens

  -- For valid accounts and an entry in its cooldown, at a time that is not before its stake and the
  -- start of the cooldown and less than 2 ^ 32 seconds after both, unstakePnft fails for the
  -- minimum time before the end of the pool's minimum time, fails for the cooldown before the end
  -- of the pool's cooldown, and otherwise does what finish_unstake does.
  pub unstake_pnft-cooling :
      check_accounts host a e ≡ done tt
      → e.last_staked_at ≡ pos x
      → e.cooldown_start_seconds ≡ some (pos start)
      → x ≤ now
      → start ≤ now
      → now < x + 2 ^ 32
      → now < start + 2 ^ 32
      → unstake_pnft host meta (pos now) a pool e escrow tokens ≡ cooling_outcome
  unfolding unstake_pnft
  unstake_pnft-cooling valid staked cooling le le' lt lt' =
      let ready = check_min_stake_lem now x pool e staked le lt in
      let over = starts_cooldown_lem start now pool e cooling le' lt' in
      let escrowed = escrow_accepted host meta now a pool e escrow tokens valid in
      elim (Bool-cases (ltb now (x + seconds_of pool.min_stake_seconds))) [
        | inl early ↦ rw (valid, escrowed, ready, early) refl
        | inr late ↦ elim (Bool-cases (ltb now (start + seconds_of pool.cooldown_seconds))) [
          | inl waiting ↦ rw (valid, escrowed, ready, late, over, waiting) refl
          | inr done_ ↦ rw (valid, escrowed, ready, late, over, done_) refl
        ]
      ]
