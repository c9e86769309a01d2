-- ===== src/Program/Ledger/Closing.antt =====
-- When a pool can be closed.
use discount_program.Common.{ℕ, ◌≡◌, ◌↔◌, inl, inr, refl, sym, ◌∙◌, Bool, List, [], ◌∷◌, All, arith}
use discount_program.Data.{PublicKey, StakePool, StakeEntry}
use discount_program.Program.Outcome.{done}
use discount_program.Program.Pools.{PoolHost, close_stake_pool}
use discount_program.Program.Entries.{EntryHost}
use discount_program.Program.Pnft.{TokenMetadata}
use discount_program.Program.Ledger.{Ledger, Reach, IsDocumented}
use discount_program.Program.Ledger.Entries.{staked_sum}
use discount_program.Program.Ledger.Books.{IsSound}
use discount_program.Program.Ledger.Opened.{IsOpened, reachable-IsWellFormed}

closed-total :
    (authority : PublicKey) (p : StakePool)
    → (close_stake_pool authority p ≡ done authority)
      ↔ ((p.authority ≡ authority) × (p.total_staked ≡ 0))
unfolding close_stake_pool
closed-total authority p = ground arith

abbrev pub IsUnstaked : (default_key : PublicKey) → StakeEntry → Type 0
IsUnstaked default_key e = e.last_staker ≡ default_key

module _ (default_key : PublicKey) (clock : ℕ) where
  sum-IsUnstaked :
      (es : List StakeEntry)
      → All (IsSound default_key clock) es
      → (staked_sum es ≡ 0) ↔ All (IsUnstaked default_key) es
  sum-IsUnstaked [] h = (λ _. tt, λ _. refl)
  sum-IsUnstaked (e ∷ es) (p, h) = elim p.staked [
    | inl (empty, free) ↦ ground (arith, sum-IsUnstaked es h)
    | inr (one, staker) ↦ ground (arith, sum-IsUnstaked es h)
  ]

module _ {Tokens : Type 0} (host : EntryHost) (pools : PoolHost) (meta : TokenMetadata Tokens)
    (held : Tokens → PublicKey → Bool) (doc : IsDocumented meta held) where
  -- In every ledger that is reached from a new pool (the token metadata program as documented),
  -- closeStakePool succeeds exactly for the authority of the pool and when no entry has a staker.
  pub closable_iff_IsUnstaked :
      (s t : Ledger Tokens) (authority : PublicKey)
      → IsOpened pools held s
      → Reach host meta held s t
      → (close_stake_pool authority t.pool ≡ done authority)
        ↔ ((t.pool.authority ≡ authority) × All (IsUnstaked host.payments.default_key) t.entries)
  closable_iff_IsUnstaked s t authority opened r =
      let h = reachable-IsWellFormed host pools meta held doc s t opened r in
      let closed = closed-total authority t.pool in
      let sum = sum-IsUnstaked host.payments.default_key t.clock t.entries h.sound in
      (
        λ done_. (let (own, none_) = closed.0 done_ in (own, sum.0 (sym h.total_sum ∙ none_))),
        λ (own, free). closed.1 (own, h.total_sum ∙ sum.1 free),
      )
