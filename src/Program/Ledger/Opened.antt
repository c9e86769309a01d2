-- ===== src/Program/Ledger/Opened.antt =====
-- The ledgers that are reached from a new pool.
use discount_program.Common.{◌≡◌, refl, Bool, false, List, [], arith}
use discount_program.Data.{PublicKey, StakePool, AccountMeta}
use discount_program.Program.Outcome.{done}
use discount_program.Program.Payment.{Transfer}
use discount_program.Program.Pools.{PoolHost, InitPoolIx, init_pool}
use discount_program.Program.Entries.{EntryHost}
use discount_program.Program.Pnft.{TokenMetadata}
use discount_program.Program.Ledger.{Ledger, Reach, IsDocumented}
use discount_program.Program.Ledger.Books.{IsWellFormed}
use discount_program.Program.Ledger.Invariant.{Reach-IsWellFormed}

-- A pool that initPool has made, with no entries, where no token is locked.
pub record IsOpened {Tokens : Type 0} (pools : PoolHost) (held : Tokens → PublicKey → Bool)
    (s : Ledger Tokens) : Type 0 where
  pub owner : PublicKey
  pub payer : PublicKey
  pub ix : InitPoolIx
  pub remaining : List AccountMeta
  pub fee : Transfer
  pub made : init_pool pools s.pool_key owner payer ix remaining ≡ done (s.pool, fee)
  pub no_entries : s.entries ≡ []
  pub nothing_held : (m : PublicKey) → held s.tokens m ≡ false

new_total :
    (pools : PoolHost) (key owner payer : PublicKey) (ix : InitPoolIx)
    (remaining : List AccountMeta) (pool : StakePool) (fee : Transfer)
    → init_pool pools key owner payer ix remaining ≡ done (pool, fee)
    → pool.total_staked ≡ 0
unfolding init_pool
new_total pools key owner payer ix remaining pool fee h = ground arith

module _ {Tokens : Type 0} (host : EntryHost) (pools : PoolHost) (meta : TokenMetadata Tokens)
    (held : Tokens → PublicKey → Bool) (doc : IsDocumented meta held) where
  opened-IsWellFormed : (s : Ledger Tokens) → IsOpened pools held s → IsWellFormed host held s
  opened-IsWellFormed s h =
      let zero_total =
        new_total pools s.pool_key h.owner h.payer h.ix h.remaining s.pool h.fee h.made in
      record {
        total_sum = rw (zero_total, h.no_entries) refl;
        in_range = rw zero_total (omega arith);
        holding = λ m. rw (h.no_entries, h.nothing_held m) refl;
        sound = rw h.no_entries tt;
        distinct = rw h.no_entries tt;
      }

  -- In every ledger that is reached from a pool that initPool made, with no entries and no token
  -- locked, by initEntry, stakePnft, unstakePnft, updateTotalStakeSeconds, resetStakeEntry,
  -- closeStakeEntry and updatePool, later times and changes of other tokens (the token metadata
  -- program as documented, mints of a supply of 1, no other pool for them): total_staked is the sum
  -- of the amounts of the entries and below 2 ^ 32; exactly the tokens that are locked are staked;
  -- an entry holds 0 and has no staker, or holds 1 and has one; its times are in order and not
  -- later than the clock; and no two entries have the same mint.
  pub reachable-IsWellFormed :
      (s t : Ledger Tokens)
      → IsOpened pools held s
      → Reach host meta held s t
      → IsWellFormed host held t
  reachable-IsWellFormed s t h r = Reach-IsWellFormed host meta held doc (opened-IsWellFormed s h) r
