-- ===== src/Program/Pnft/Cooldown.antt =====
-- A cooldown that an entry starts before it is staked.
use discount_program.Common.{◌<◌, ◌≡◌, ◌≢◌, refl, sym, ap, ◌∙◌, true, some, none, arith}
use discount_program.Common.Int.{ℤ, pos, pos_part}
use discount_program.Data.{StakePool, StakeEntry, UserEscrow}
use discount_program.Program.Outcome.{done, err, cooldown_second_remaining}
use discount_program.Program.Payment.Accepted.{==-false}
use discount_program.Program.Staking.{update_total_stake_seconds}
use discount_program.Program.Entries.{EntryHost}
use discount_program.Program.Pnft.{
  PnftAccounts, PnftResult, TokenMetadata, starts_cooldown, stake_pnft, unstake_pnft, enter,
  catch_up,
}
use discount_program.Program.Pnft.Changes.{enter-done, stake_pnft-done}
use discount_program.Program.Pnft.Waiting.{seconds_of, starts_lem}

module _ {Tokens : Type 0} (host : EntryHost) (meta : TokenMetadata Tokens) where
  started_cooldown :
      (now : ℤ) (a : PnftAccounts) (pool : StakePool) (e : StakeEntry) (escrow : UserEscrow)
      (tokens : Tokens) (r : PnftResult Tokens)
      → starts_cooldown now pool e ≡ done true
      → unstake_pnft host meta now a pool e escrow tokens ≡ done r
      → r.entry ≡ record e { cooldown_start_seconds = some now }
  unfolding unstake_pnft
  started_cooldown now a pool e escrow tokens r starts h = ground arith

  kept_cooldown :
      (now : ℤ) (a : PnftAccounts) (pool : StakePool) (e : StakeEntry) (r : StakePool × StakeEntry)
      → pos_part e.amount ≡ 0
      → enter now a.user pool e ≡ done r
      → r.1.cooldown_start_seconds ≡ e.cooldown_start_seconds
  unfolding enter catch_up
  kept_cooldown now a pool e r empty h = ground arith

  refused_update :
      (now start : ℤ) (e : StakeEntry)
      → e.last_staker ≢ host.payments.default_key
      → e.cooldown_start_seconds ≡ some start
      → update_total_stake_seconds host.payments now e ≡ err cooldown_second_remaining
  unfolding update_total_stake_seconds
  refused_update now start e staker set =
      rw (==-false e.last_staker host.payments.default_key staker, set) refl

  -- Where unstakePnft has returned for an entry of amount 0 that is not in a cooldown, in a pool
  -- that has one, and stakePnft has returned for that entry later, the staked entry still has the
  -- cooldown of that unstaking, and updateTotalStakeSeconds refuses it at any time.
  pub early_cooldown_refuses :
      (now later last : ℤ) (a b : PnftAccounts) (pool pool' : StakePool) (e : StakeEntry)
      (escrow escrow' : UserEscrow) (tokens tokens' : Tokens) (r r' : PnftResult Tokens)
      → e.amount ≡ pos 0
      → e.cooldown_start_seconds ≡ none
      → 0 < seconds_of pool.cooldown_seconds
      → unstake_pnft host meta now a pool e escrow tokens ≡ done r
      → b.user ≢ host.payments.default_key
      → stake_pnft host meta later b pool' r.entry escrow' tokens' ≡ done r'
      → (r'.entry.cooldown_start_seconds ≡ some now)
        × (update_total_stake_seconds host.payments last r'.entry ≡ err cooldown_second_remaining)
  early_cooldown_refuses now later last a b pool pool' e escrow escrow' tokens tokens' r r' empty
        unset cools unstaked signer staked =
      let started =
        started_cooldown now a pool e escrow tokens r (starts_lem now pool e unset cools)
          unstaked in
      let changes =
        (stake_pnft-done host meta later b pool' r.entry escrow' tokens' r' staked).changes in
      let kept =
        kept_cooldown later b pool' r.entry (r'.pool, r'.entry)
          (ap (λ x. pos_part x.amount) started ∙ ap pos_part empty) changes in
      let cooldown = kept ∙ ap StakeEntry.cooldown_start_seconds started in
      let staker =
        (enter-done later b.user pool' r.entry (r'.pool, r'.entry) changes).last_staker in
      (cooldown, refused_update last now r'.entry (λ is. signer (sym staker ∙ is)) cooldown)
