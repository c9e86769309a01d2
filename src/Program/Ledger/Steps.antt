-- ===== src/Program/Ledger/Steps.antt =====
-- Each step of a ledger keeps its books in order.
use discount_program.Common.{
  ◌≡◌, ◌≢◌, inl, inr, refl, ap, ◌∙◌, Bool, true, false, some, Option-cases, arith,
}
use discount_program.Common.Int.{pos, pos_part}
use discount_program.Data.{PublicKey, StakeEntry, UserEscrow}
use discount_program.Program.Outcome.{done}
use discount_program.Program.Entries.{EntryHost}
use discount_program.Program.Pnft.{
  PnftAccounts, PnftResult, TokenMetadata, lock_token, unlock_token, stake_pnft, unstake_pnft,
  revoke_args,
}
use discount_program.Program.Pnft.Changes.{
  enter-done, leave-done, stake_pnft-done, unstake_pnft-done,
}
use discount_program.Program.Ledger.{Ledger, IsDocumented, lookup, replace}
use discount_program.Program.Ledger.Entries.{lookup-mint}
use discount_program.Program.Ledger.Books.{
  IsWellFormed, bit, Books-replace, found-IsSound, found-holding,
}
use discount_program.Program.Ledger.Handlers.{cooling-IsSound, Entered-IsSound, Left-IsSound}

module _ {Tokens : Type 0} (host : EntryHost) (meta : TokenMetadata Tokens)
    (held : Tokens → PublicKey → Bool) (doc : IsDocumented meta held) where
  -- The tokens before and after a stake, and before and after its end.
  lock_token-held :
      (a : PnftAccounts) (t t' : Tokens)
      → lock_token meta a t ≡ done t'
      → (held t a.stake_mint ≡ false)
        × (held t' a.stake_mint ≡ true)
        × ((m : PublicKey) → m ≢ a.stake_mint → held t' m ≡ held t m)
  lock_token-held a t t' h = elim (Option-cases (meta.delegate a t)) [
    | inl refused ↦ absurd (ground arith)
    | inr (x, is) ↦ doc.locks a t x t' is (ground arith)
  ]

  unlock_token-held :
      (a : PnftAccounts) (t t' : Tokens)
      → unlock_token meta a t ≡ done t'
      → (held t a.stake_mint ≡ true)
        × (held t' a.stake_mint ≡ false)
        × ((m : PublicKey) → m ≢ a.stake_mint → held t' m ≡ held t m)
  unlock_token-held a t t' h = elim (Option-cases (meta.unlock a t)) [
    | inl refused ↦ absurd (ground arith)
    | inr (x, is) ↦ elim (Option-cases (meta.delegate_role a.stake_token_record_account x)) [
      | inl missing ↦ absurd (ground arith)
      | inr (role, read) ↦ doc.unlocks a (revoke_args meta role) t x t' is (ground arith)
    ]
  ]

  module _ (s : Ledger Tokens) (h : IsWellFormed host held s) where
    pub stake-IsWellFormed :
        (a : PnftAccounts) (e : StakeEntry) (escrow : UserEscrow) (r : PnftResult Tokens)
        → a.user ≢ host.payments.default_key
        → lookup a.stake_mint s.entries ≡ some e
        → stake_pnft host meta (pos s.clock) a s.pool e escrow s.tokens ≡ done r
        → IsWellFormed host held (record s {
          pool = r.pool;
          entries = replace a.stake_mint r.entry s.entries;
          tokens = r.tokens;
        })
    stake-IsWellFormed a e escrow r signer found staked =
        let is = stake_pnft-done host meta (pos s.clock) a s.pool e escrow s.tokens r staked in
        let entered = enter-done (pos s.clock) a.user s.pool e (r.pool, r.entry) is.changes in
        let (free, locked, others) = lock_token-held a s.tokens r.tokens is.locked in
        let sound = found-IsSound host.payments.default_key _ _ _ _ h a.stake_mint e found in
        let empty : pos_part e.amount ≡ 0 =
          found-holding host.payments.default_key _ _ _ _ h a.stake_mint e found ∙ ap bit free in
        Books-replace host.payments.default_key s.pool.total_staked (held s.tokens) s.clock
          s.entries h a.stake_mint e found r.pool.total_staked (held r.tokens) r.entry
          (entered.stake_mint ∙ lookup-mint a.stake_mint e s.entries found)
          (Entered-IsSound host.payments.default_key s.clock e r.entry a.user s.pool r.pool signer
            empty sound entered)
          (rw (entered.total, entered.amount, empty) (omega arith)) entered.in_range
          (rw (entered.amount, empty, locked) refl) others

    pub unstake-IsWellFormed :
        (a : PnftAccounts) (e : StakeEntry) (escrow : UserEscrow) (r : PnftResult Tokens)
        → lookup a.stake_mint s.entries ≡ some e
        → unstake_pnft host meta (pos s.clock) a s.pool e escrow s.tokens ≡ done r
        → IsWellFormed host held (record s {
          pool = r.pool;
          entries = replace a.stake_mint r.entry s.entries;
          tokens = r.tokens;
        })
    unstake-IsWellFormed a e escrow r found unstaked =
        let mint = lookup-mint a.stake_mint e s.entries found in
        let sound = found-IsSound host.payments.default_key _ _ _ _ h a.stake_mint e found in
        let holding = found-holding host.payments.default_key _ _ _ _ h a.stake_mint e found in
        elim (unstake_pnft-done host meta (pos s.clock) a s.pool e escrow s.tokens r unstaked).1 [
          | inl cooling ↦
              Books-replace host.payments.default_key s.pool.total_staked (held s.tokens) s.clock
                s.entries h a.stake_mint e found r.pool.total_staked (held r.tokens) r.entry
                (rw cooling.started mint)
                (rw cooling.started
                  (cooling-IsSound host.payments.default_key s.clock e r.entry sound))
                (rw (cooling.same_pool, cooling.started) refl) (rw cooling.same_pool h.in_range)
                (rw (cooling.started, cooling.same_tokens) holding)
                (λ m other. ap (λ t. held t m) cooling.same_tokens)
          | inr finished ↦
              let left =
                leave-done host (pos s.clock) s.pool e (r.pool, r.entry) finished.changes in
              let (locked, free, others) =
                unlock_token-held a s.tokens r.tokens finished.unlocked in
              let one : pos_part e.amount ≡ 1 = holding ∙ ap bit locked in
              Books-replace host.payments.default_key s.pool.total_staked (held s.tokens) s.clock
                s.entries h a.stake_mint e found r.pool.total_staked (held r.tokens) r.entry
                (left.stake_mint ∙ mint)
                (Left-IsSound host.payments.default_key s.clock e r.entry s.pool r.pool sound left)
                (rw (left.amount, one) (omega (arith, left.total)))
                (omega (arith, left.total, h.in_range)) (rw (left.amount, free) refl) others
        ]
