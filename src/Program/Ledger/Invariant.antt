-- ===== src/Program/Ledger/Invariant.antt =====
-- What holds of every ledger that is reached from one in order.
use discount_program.Common.{◌≡◌, inl, inr, refl, ◌∙◌, Bool, some}
use discount_program.Common.Int.{pos}
use discount_program.Data.{PublicKey, StakeEntry}
use discount_program.Program.Outcome.{done}
use discount_program.Program.Entries.{EntryHost, close_stake_entry}
use discount_program.Program.Pnft.{TokenMetadata}
use discount_program.Program.Pnft.Changes.{increment-done}
use discount_program.Program.Ledger.{
  Ledger, Step, Reach, IsDocumented, lookup, replace, remove, wait, foreign, init, stake, unstake,
  update, reset, close, configure, here, next,
}
use discount_program.Program.Ledger.Entries.{lookup-mint}
use discount_program.Program.Ledger.Books.{
  IsWellFormed, IsSound, Books-later, Books-foreign, Books-cons, Books-replace, Books-remove,
  found-IsSound, found-holding,
}
use discount_program.Program.Ledger.Handlers.{
  Updated-IsSound, Restarted-IsSound, reset-Restarted, update-Updated, closed-empty,
  init_entry-IsNew, IsNew-IsSound, kept_total,
}
use discount_program.Program.Ledger.Steps.{stake-IsWellFormed, unstake-IsWellFormed}

module _ {Tokens : Type 0} (host : EntryHost) (meta : TokenMetadata Tokens)
    (held : Tokens → PublicKey → Bool) (doc : IsDocumented meta held) where
  module _ (s : Ledger Tokens) (h : IsWellFormed host held s) where
    same_amount :
        (mint : PublicKey) (e e' : StakeEntry)
        → lookup mint s.entries ≡ some e
        → e'.stake_mint ≡ e.stake_mint
        → e'.amount ≡ e.amount
        → IsSound host.payments.default_key s.clock e'
        → IsWellFormed host held (record s { entries = replace mint e' s.entries })
    same_amount mint e e' found same amount sound =
        Books-replace host.payments.default_key _ _ _ _ h mint e found s.pool.total_staked
          (held s.tokens) e' (same ∙ lookup-mint mint e s.entries found) sound (rw amount refl)
          h.in_range (rw amount (found-holding host.payments.default_key _ _ _ _ h mint e found))
          (λ m other. refl)

    closed-IsWellFormed :
        (mint authority : PublicKey) (e : StakeEntry)
        → lookup mint s.entries ≡ some e
        → close_stake_entry host.payments s.pool_key authority s.pool e ≡ done authority
        → IsWellFormed host held (record s { entries = remove mint s.entries })
    closed-IsWellFormed mint authority e found closed =
        let unstaked = closed-empty host s.pool_key authority s.pool e closed in
        let sound = found-IsSound host.payments.default_key _ _ _ _ h mint e found in
        Books-remove host.payments.default_key _ _ _ _ h mint e found
          (elim sound.staked [ inl (empty, _) ↦ empty | inr (_, held') ↦ absurd (held' unstaked) ])

  Step-IsWellFormed :
      {s t : Ledger Tokens}
      → Step host meta held s t
      → IsWellFormed host held s
      → IsWellFormed host held t
  Step-IsWellFormed (wait s clock le) h = Books-later host.payments.default_key _ _ _ _ h clock le
  Step-IsWellFormed (foreign s tokens same) h =
      Books-foreign host.payments.default_key _ _ _ _ h (held tokens) same
  Step-IsWellFormed (init s a e own supply fresh made) h =
      let new = init_entry-IsNew host a s.pool e made in
      Books-cons host.payments.default_key _ _ _ _ h e (rw new.stake_mint fresh) new.amount
        (IsNew-IsSound host a s.clock e new)
  Step-IsWellFormed (stake s a e escrow r own signer found staked) h =
      stake-IsWellFormed host meta held doc s h a e escrow r signer found staked
  Step-IsWellFormed (unstake s a e escrow r own found unstaked) h =
      unstake-IsWellFormed host meta held doc s h a e escrow r found unstaked
  Step-IsWellFormed (update s mint e e' found updated) h =
      let new =
        increment-done (pos s.clock) e e' (update-Updated host (pos s.clock) e e' updated) in
      same_amount s h mint e e' found new.stake_mint new.amount (
        Updated-IsSound host.payments.default_key s.clock e e'
          (found-IsSound host.payments.default_key _ _ _ _ h mint e found) new)
  Step-IsWellFormed (reset s mint authority e e' found restarted) h =
      let new = reset-Restarted (pos s.clock) s.pool_key authority s.pool e e' restarted in
      same_amount s h mint e e' found new.stake_mint new.amount (
        Restarted-IsSound host.payments.default_key s.clock e e'
          (found-IsSound host.payments.default_key _ _ _ _ h mint e found) new)
  Step-IsWellFormed (close s mint authority e found closed) h =
      closed-IsWellFormed s h mint authority e found closed
  Step-IsWellFormed (configure s authority ix pool done_) h =
      rw (kept_total authority ix s.pool pool done_) h

  pub Reach-IsWellFormed :
      {s t : Ledger Tokens}
      → IsWellFormed host held s
      → Reach host meta held s t
      → IsWellFormed host held t
  Reach-IsWellFormed h here = h
  Reach-IsWellFormed h (next r step) = Step-IsWellFormed step (Reach-IsWellFormed h r)
