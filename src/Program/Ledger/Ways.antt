-- ===== src/Program/Ledger/Ways.antt =====
-- The ways in which an entry leaves the stake: one call of unstakePnft, or two with a cooldown
-- between them.
use discount_program.Common.{
  if◌then◌else◌, ltb, ℕ, ◌+◌, ◌<◌, ◌≡◌, ap, ◌∙◌, Bool, some, arith, ==_refl, if◌then◌else◌,
}
use discount_program.Common.Int.{pos}
use discount_program.Data.{PublicKey, StakePool, StakeEntry, UserEscrow}
use discount_program.Program.Outcome.{done, err, cooldown_second_remaining}
use discount_program.Program.Entries.{EntryHost}
use discount_program.Program.Pnft.{PnftAccounts, PnftResult, TokenMetadata, unstake_pnft}
use discount_program.Program.Pnft.Waiting.{seconds_of}
use discount_program.Program.Ledger.{Ledger, Reach, lookup, replace, wait, unstake, here, next}
use discount_program.Program.Ledger.Entries.{lookup-replace, lookup-mint}

module _ {Tokens : Type 0} (host : EntryHost) (meta : TokenMetadata Tokens)
    (held : Tokens → PublicKey → Bool) (a : PnftAccounts) (escrow : UserEscrow) where
  -- The ledger after a call of unstakePnft, and after a wait.
  abbrev pub after_call : Ledger Tokens → PnftResult Tokens → Ledger Tokens
  after_call s r = record s {
    pool = r.pool;
    entries = replace a.stake_mint r.entry s.entries;
    tokens = r.tokens;
  }

  abbrev pub after_wait : Ledger Tokens → (seconds : ℕ) → Ledger Tokens
  after_wait s seconds = record s { clock = s.clock + seconds }

  -- A call of unstakePnft on the entry at the time of the ledger returns, and the entry holds 0 and
  -- has no staker, and total_staked is one less.
  pub record Leaves (s : Ledger Tokens) (e : StakeEntry) : Type 0 where
    pub result : PnftResult Tokens
    pub returns : unstake_pnft host meta (pos s.clock) a s.pool e escrow s.tokens ≡ done result
    pub empty : result.entry.amount ≡ pos 0
    pub free : result.entry.last_staker ≡ host.payments.default_key
    pub total : result.pool.total_staked + 1 ≡ s.pool.total_staked

  -- A call of unstakePnft on the entry returns; it starts the cooldown of the entry, and changes
  -- nothing of the pool and the tokens.
  pub record Starts (s : Ledger Tokens) (e : StakeEntry) : Type 0 where
    pub result : PnftResult Tokens
    pub returns : unstake_pnft host meta (pos s.clock) a s.pool e escrow s.tokens ≡ done result
    pub cooling : result.entry ≡ record e { cooldown_start_seconds = some (pos s.clock) }
    pub same_pool : result.pool ≡ s.pool
    pub same_tokens : result.tokens ≡ s.tokens

  -- For the first seconds after the clock, unstakePnft refuses the entry.
  abbrev pub Refused : (clock seconds : ℕ) → StakePool → StakeEntry → Tokens → Type 0
  Refused clock seconds pool e tokens =
      (k : ℕ)
      → (let outcome = unstake_pnft host meta (pos (clock + k)) a pool e escrow tokens in
          outcome ≡ (if ltb k seconds then err cooldown_second_remaining else outcome))

  -- The ways to leave: by one call, in a pool without a cooldown; by a call, the wait of the
  -- cooldown, and a second call, in one that has a cooldown. Each call is a step of the ledger.
  pub data Leaving (s : Ledger Tokens) (e : StakeEntry) : Type 0 where
    at_once :
        seconds_of s.pool.cooldown_seconds ≡ 0
        → (left : Leaves s e) → Reach host meta held s (after_call s left.result)
        → Leaving s e
    cooled_down :
        0 < seconds_of s.pool.cooldown_seconds
        → (started : Starts s e)
        → Refused s.clock (seconds_of s.pool.cooldown_seconds) s.pool started.result.entry s.tokens
        → (left : Leaves
            (after_wait (after_call s started.result) (seconds_of s.pool.cooldown_seconds))
            started.result.entry)
        → Reach host meta held s (
            after_call
              (after_wait (after_call s started.result) (seconds_of s.pool.cooldown_seconds))
              left.result)
        → Leaving s e

  -- The two ways as steps of a ledger.
  pub once-Leaving :
      (s : Ledger Tokens) (e : StakeEntry)
      → a.stake_pool ≡ s.pool_key
      → lookup a.stake_mint s.entries ≡ some e
      → seconds_of s.pool.cooldown_seconds ≡ 0
      → Leaves s e
      → Leaving s e
  once-Leaving s e own found none_ left =
      at_once none_ left (next here (unstake s a e escrow left.result own found left.returns))

  pub twice-Leaving :
      (s : Ledger Tokens) (e : StakeEntry)
      → a.stake_pool ≡ s.pool_key
      → lookup a.stake_mint s.entries ≡ some e
      → 0 < seconds_of s.pool.cooldown_seconds
      → (started : Starts s e)
      → Refused s.clock (seconds_of s.pool.cooldown_seconds) s.pool started.result.entry s.tokens
      → Leaves
          (after_wait (after_call s started.result) (seconds_of s.pool.cooldown_seconds))
          started.result.entry
      → Leaving s e
  twice-Leaving s e own found some_ started refused left =
      let mint : started.result.entry.stake_mint ≡ a.stake_mint =
        ap (λ x. x.stake_mint) started.cooling ∙ lookup-mint a.stake_mint e s.entries found in
      let kept : lookup a.stake_mint (replace a.stake_mint started.result.entry s.entries)
          ≡ some started.result.entry =
        lookup-replace a.stake_mint e started.result.entry s.entries a.stake_mint found mint
        ∙ ap (λ b. if b then some started.result.entry else lookup a.stake_mint s.entries)
            (==_refl a.stake_mint) in
      cooled_down some_ started refused left (
        next
          (next (next here (unstake s a e escrow started.result own found started.returns)) (
            wait (after_call s started.result) (s.clock + seconds_of s.pool.cooldown_seconds)
              (omega arith)))
          (unstake (after_wait (after_call s started.result) (seconds_of s.pool.cooldown_seconds)) a
            started.result.entry escrow left.result own kept left.returns))
