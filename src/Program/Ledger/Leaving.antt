-- ===== src/Program/Ledger/Leaving.antt =====
-- A staked entry can be unstaked.
use discount_program.Common.{
  ltb, Bool-cases, ℕ, zero, suc, ◌+◌, ◌≤◌, ◌<◌, ◌^◌, ◌≡◌, ◌≢◌, ◌⊎◌, inl, inr, refl, sym, ap, ◌∙◌,
  Bool, true, false, Option, some, none, List, [], arith,
}
use discount_program.Common.Int.{ℤ, pos, pos_part}
use discount_program.Data.{PublicKey, StakeEntry, UserEscrow}
use discount_program.Program.Outcome.{done}
use discount_program.Program.Entries.{EntryHost}
use discount_program.Program.Pnft.{
  PnftAccounts, TokenMetadata, check_accounts, check_min_stake, starts_cooldown,
}
use discount_program.Program.Pnft.Returns.{
  IsCountable, IsAccepted, unstake_pnft-starts, unstake_pnft-Returns,
}
use discount_program.Program.Pnft.Early.{unstake_pnft-cooling}
use discount_program.Program.Pnft.Waiting.{
  seconds_of, min_stake_lem, no_cooldown_lem, starts_lem, over_lem,
}
use discount_program.Program.Ledger.Ways.{
  Refused, Leaves, Starts, Leaving, once-Leaving, twice-Leaving,
}
use discount_program.Program.Ledger.{Ledger, lookup, replace, remove}
use discount_program.Program.Ledger.Entries.{staked_sum, staked_sum-remove}
use discount_program.Program.Ledger.Books.{IsSound, IsPast, IsWellFormed, found-IsSound}

past_time :
    (clock : ℕ) (o : Option ℤ) (t : ℤ)
    → IsPast clock o
    → o ≡ some t
    → (t ≡ pos (pos_part t)) × (pos_part t ≤ clock)
past_time clock none t h is = ground arith
past_time clock (some x) t h is = ground arith

sound-IsCountable :
    (default_key : PublicKey) (clock : ℕ) (e : StakeEntry)
    → IsSound default_key clock e
    → clock < 2 ^ 63
    → IsCountable clock e
sound-IsCountable default_key clock e s in_range = record {
  in_range = in_range;
  updated = s.updated_at;
  cooling = λ t is. past_time clock e.cooldown_start_seconds t s.cooling is;
  amount = elim s.staked [
    | inl (empty, _) ↦ rw empty (omega arith)
    | inr (one, _) ↦ rw one (omega arith)
  ];
  points = s.points;
}

zero_or_more : (n : ℕ) → (n ≡ 0) ⊎ (0 < n)
zero_or_more zero = inl refl
zero_or_more (suc n) = inr (omega arith)

some_staked : (total rest : ℕ) → total ≡ rest + 1 → total ≢ 0
some_staked total rest is none_ = omega arith

module _ {Tokens : Type 0} (host : EntryHost) (meta : TokenMetadata Tokens)
    (held : Tokens → PublicKey → Bool) (a : PnftAccounts) (escrow : UserEscrow) where
  -- One call of unstakePnft, of an entry that is over its cooldown.
  now-Leaves :
      (s : Ledger Tokens) (e : StakeEntry)
      → IsAccepted host meta s.clock a s.pool e escrow s.tokens
      → IsCountable s.clock e
      → s.pool.total_staked ≢ 0
      → check_min_stake (pos s.clock) s.pool e ≡ done tt
      → starts_cooldown (pos s.clock) s.pool e ≡ done false
      → Leaves host meta held a escrow s e
  now-Leaves s e accepted countable total min over =
      let (r, unstaked, left) =
        unstake_pnft-Returns host meta s.clock a s.pool e escrow s.tokens accepted countable total
          min over in
      record {
        result = r;
        returns = unstaked;
        empty = left.amount;
        free = left.last_staker;
        total = left.total;
      }

  -- The entry after the start of its cooldown, and the ledger after the cooldown.
  abbrev cooling : StakeEntry → ℕ → StakeEntry
  cooling e clock = record e { cooldown_start_seconds = some (pos clock) }

  cooling_accounts :
      (e : StakeEntry) (clock : ℕ)
      → check_accounts host a e ≡ done tt
      → check_accounts host a (cooling e clock) ≡ done tt
  unfolding check_accounts
  cooling_accounts e clock h = h

  accepted-Starts :
      (s : Ledger Tokens) (e : StakeEntry)
      → IsAccepted host meta s.clock a s.pool e escrow s.tokens
      → check_min_stake (pos s.clock) s.pool e ≡ done tt
      → starts_cooldown (pos s.clock) s.pool e ≡ done true
      → Starts host meta held a escrow s e
  accepted-Starts s e accepted min starts = record {
    result = record {
      pool = s.pool;
      entry = cooling e s.clock;
      escrow = record escrow { user = a.user };
      tokens = s.tokens;
      payments = [];
    };
    returns = unstake_pnft-starts host meta s.clock a s.pool e escrow s.tokens accepted min starts;
    cooling = refl;
    same_pool = refl;
    same_tokens = refl;
  }

  -- After the cooldown.
  later-Leaves :
      (s : Ledger Tokens) (e : StakeEntry) (entries : List StakeEntry)
      → IsAccepted host meta s.clock a s.pool e escrow s.tokens
      → IsSound host.payments.default_key s.clock e
      → s.pool.total_staked ≢ 0
      → pos_part e.last_staked_at + seconds_of s.pool.min_stake_seconds ≤ s.clock
      → s.clock + seconds_of s.pool.cooldown_seconds < pos_part e.last_staked_at + 2 ^ 32
      → s.clock + seconds_of s.pool.cooldown_seconds < 2 ^ 63
      → Leaves host meta held a escrow
          (record s { entries = entries; clock = s.clock + seconds_of s.pool.cooldown_seconds })
          (cooling e s.clock)
  later-Leaves s e entries accepted sound total min soon in_range =
      let later : Ledger Tokens = record s {
        entries = entries;
        clock = s.clock + seconds_of s.pool.cooldown_seconds;
      } in
      now-Leaves later (cooling e s.clock)
        (record {
          accounts = cooling_accounts e s.clock accepted.accounts;
          payments = accepted.payments;
          left_accounts = accepted.left_accounts;
          paid = accepted.paid;
          unlocked = accepted.unlocked;
          unlocks = accepted.unlocks;
          role = accepted.role;
          reads = accepted.reads;
          revoked = accepted.revoked;
          revokes = accepted.revokes;
        })
        (record {
          in_range = in_range;
          updated = sound.updated_at;
          cooling = λ t is. past_time later.clock (some (pos s.clock)) t (refl, omega arith) is;
          amount =
              (sound-IsCountable host.payments.default_key s.clock e sound (omega arith)).amount;
          points = sound.points;
        })
        total
        (min_stake_lem later.clock (pos_part e.last_staked_at) s.pool (cooling e s.clock)
          sound.staked_at (omega arith) soon)
        (over_lem s.clock later.clock s.pool (cooling e s.clock) refl (omega arith) (omega arith))

  -- Before that, it is too early.
  cooling-Refused :
      (s : Ledger Tokens) (e : StakeEntry) (x : ℕ)
      → check_accounts host a e ≡ done tt
      → e.last_staked_at ≡ pos x
      → x + seconds_of s.pool.min_stake_seconds ≤ s.clock
      → s.clock + seconds_of s.pool.cooldown_seconds < x + 2 ^ 32
      → Refused host meta held a escrow s.clock
          (seconds_of s.pool.cooldown_seconds)
          s.pool
          (cooling e s.clock)
          s.tokens
  cooling-Refused s e x valid staked min soon k =
      elim (Bool-cases (ltb k (seconds_of s.pool.cooldown_seconds))) [
        | inr over ↦ rw over refl
        | inl early ↦ rw early (
            unstake_pnft-cooling host meta (s.clock + k) x s.clock a s.pool (cooling e s.clock)
              escrow s.tokens (cooling_accounts e s.clock valid) staked refl (omega arith)
              (omega arith) (early_lt k _ _ _ early soon) (ground arith)
            ∙ ground arith)
      ]
    where
      early_lt : (k c t b : ℕ) → ltb k c ≡ true → t + c < b → t + k < b
      early_lt k c t b early soon = ground arith

  -- In a ledger in order (IsWellFormed), an entry of amount 1 that is not in its cooldown and has
  -- been staked for the minimum time can be unstaked. In a pool without a cooldown, a call of
  -- unstakePnft at once returns, after which the entry holds 0 and has no staker, and total_staked
  -- is one less. In a pool with one, a call at once returns and only starts the cooldown, calls
  -- before the end of the cooldown fail for it, and a call at its end returns with that result.
  -- These calls, with the wait between them, are steps of the ledger. The accounts are valid, the
  -- payment and the calls of the token metadata program are made (IsAccepted), and the times fit 63
  -- bits and lie less than 2 ^ 32 seconds after the stake.
  pub staked-Leaves :
      (s : Ledger Tokens) (e : StakeEntry)
      → IsWellFormed host held s
      → a.stake_pool ≡ s.pool_key
      → lookup a.stake_mint s.entries ≡ some e
      → e.amount ≡ pos 1
      → e.cooldown_start_seconds ≡ none
      → IsAccepted host meta s.clock a s.pool e escrow s.tokens
      → pos_part e.last_staked_at + seconds_of s.pool.min_stake_seconds ≤ s.clock
      → s.clock + seconds_of s.pool.cooldown_seconds < pos_part e.last_staked_at + 2 ^ 32
      → s.clock + seconds_of s.pool.cooldown_seconds < 2 ^ 63
      → Leaving host meta held a escrow s e
  unfolding accepted-Starts
  staked-Leaves s e h own found one unset accepted min soon in_range =
      let sound = found-IsSound host.payments.default_key _ _ _ _ h a.stake_mint e found in
      let total : s.pool.total_staked ≢ 0 = some_staked s.pool.total_staked _ (
        h.total_sum
        ∙ sym (staked_sum-remove a.stake_mint e s.entries found)
        ∙ ap (λ n. staked_sum (remove a.stake_mint s.entries) + pos_part n) one) in
      let min_now =
        min_stake_lem s.clock (pos_part e.last_staked_at) s.pool e sound.staked_at min
          (omega arith) in
      elim (zero_or_more (seconds_of s.pool.cooldown_seconds)) [
        | inl none_ ↦ once-Leaving host meta held a escrow s e own found none_ (
            now-Leaves s e accepted
              (sound-IsCountable host.payments.default_key s.clock e sound (omega arith)) total
              min_now (no_cooldown_lem (pos s.clock) s.pool e unset none_))
        | inr some_ ↦
            twice-Leaving host meta held a escrow s e own found some_
              (accepted-Starts s e accepted min_now (starts_lem (pos s.clock) s.pool e unset some_))
              (cooling-Refused s e (pos_part e.last_staked_at) accepted.accounts sound.staked_at min
                soon)
              (later-Leaves s e (replace a.stake_mint (cooling e s.clock) s.entries) accepted sound
                total min soon in_range)
      ]
