-- ===== src/Program/Ledger.antt =====
-- A stake pool of programmable NFTs with its entries, as the handlers change it: one step of a
-- ledger is one handler that returns, a later time, or a change of tokens by other programs. The
-- mints have a supply of 1, so that there is one stake entry for each mint (`stake_seed`), and no
-- other pool of the program is used for them.
pub mod Entries
pub mod Books
pub mod Handlers
pub mod Steps
pub mod Invariant
pub mod Opened
pub mod Closing
pub mod Ways
pub mod Leaving
use discount_program.Common.{
  ℕ, ◌+◌, ◌≤◌, ◌≡◌, ◌≢◌, Bool, true, false, Option, none, some, List, [], ◌∷◌, ◌==◌, if◌then◌else◌,
}
use discount_program.Common.Int.{pos, pos_part}
use discount_program.Data.{PublicKey, StakePool, StakeEntry, UserEscrow}
use discount_program.Program.Outcome.{done}
use discount_program.Program.Staking.{update_total_stake_seconds}
use discount_program.Program.Pools.{UpdatePoolIx, update_pool}
use discount_program.Program.Entries.{
  EntryHost, InitEntry, init_entry, reset_stake_entry, close_stake_entry,
}
use discount_program.Program.Pnft.{
  PnftAccounts, PnftResult, TokenMetadata, RevokeArgs, stake_pnft, unstake_pnft,
}

pub record Ledger (Tokens : Type 0) : Type 0 where
  pub pool_key : PublicKey
  pub pool : StakePool
  pub entries : List StakeEntry
  pub tokens : Tokens
  pub clock : ℕ

-- The entry of a mint, its replacement and its removal.
abbrev pub lookup : PublicKey → List StakeEntry → Option StakeEntry
lookup mint [] = none
lookup mint (e ∷ es) = if e.stake_mint == mint then some e else lookup mint es

abbrev pub replace : PublicKey → StakeEntry → List StakeEntry → List StakeEntry
replace mint e' [] = []
replace mint e' (e ∷ es) = if e.stake_mint == mint then e' ∷ es else e ∷ replace mint e' es

abbrev pub remove : PublicKey → List StakeEntry → List StakeEntry
remove mint [] = []
remove mint (e ∷ es) = if e.stake_mint == mint then es else e ∷ remove mint es

-- The token metadata program as documented, where `held` tells the tokens that an escrow of this
-- program has locked: only a token that is not delegated can be delegated and locked, only its
-- delegate can unlock it, and neither changes another token.
pub record IsDocumented {Tokens : Type 0} (meta : TokenMetadata Tokens)
    (held : Tokens → PublicKey → Bool) : Type 0 where
  pub locks :
      (a : PnftAccounts) (t t' t'' : Tokens)
      → meta.delegate a t ≡ some t'
      → meta.lock a t' ≡ some t''
      → (held t a.stake_mint ≡ false)
        × (held t'' a.stake_mint ≡ true)
        × ((m : PublicKey) → m ≢ a.stake_mint → held t'' m ≡ held t m)
  pub unlocks :
      (a : PnftAccounts) (args : RevokeArgs) (t t' t'' : Tokens)
      → meta.unlock a t ≡ some t'
      → meta.revoke args a t' ≡ some t''
      → (held t a.stake_mint ≡ true)
        × (held t'' a.stake_mint ≡ false)
        × ((m : PublicKey) → m ≢ a.stake_mint → held t'' m ≡ held t m)

module _ {Tokens : Type 0} (host : EntryHost) (meta : TokenMetadata Tokens)
    (held : Tokens → PublicKey → Bool) where
  pub data Step : Ledger Tokens → Ledger Tokens → Type 0 where
    wait : (s : Ledger Tokens) (clock : ℕ) → s.clock ≤ clock → Step s (record s { clock = clock })
    foreign :
        (s : Ledger Tokens) (tokens : Tokens)
        → ((m : PublicKey) → held tokens m ≡ held s.tokens m)
        → Step s (record s { tokens = tokens })
    -- the account of a new entry is not in use
    init :
        (s : Ledger Tokens) (a : InitEntry) (e : StakeEntry)
        → a.stake_pool ≡ s.pool_key
        → a.supply ≤ 1
        → lookup a.stake_mint s.entries ≡ none
        → init_entry host a s.pool ≡ done e
        → Step s (record s { entries = e ∷ s.entries })
    -- no signer has the default key
    stake :
        (s : Ledger Tokens) (a : PnftAccounts) (e : StakeEntry) (escrow : UserEscrow)
        (r : PnftResult Tokens)
        → a.stake_pool ≡ s.pool_key
        → a.user ≢ host.payments.default_key
        → lookup a.stake_mint s.entries ≡ some e
        → stake_pnft host meta (pos s.clock) a s.pool e escrow s.tokens ≡ done r
        → Step s (record s {
          pool = r.pool;
          entries = replace a.stake_mint r.entry s.entries;
          tokens = r.tokens;
        })
    unstake :
        (s : Ledger Tokens) (a : PnftAccounts) (e : StakeEntry) (escrow : UserEscrow)
        (r : PnftResult Tokens)
        → a.stake_pool ≡ s.pool_key
        → lookup a.stake_mint s.entries ≡ some e
        → unstake_pnft host meta (pos s.clock) a s.pool e escrow s.tokens ≡ done r
        → Step s (record s {
          pool = r.pool;
          entries = replace a.stake_mint r.entry s.entries;
          tokens = r.tokens;
        })
    update :
        (s : Ledger Tokens) (mint : PublicKey) (e e' : StakeEntry)
        → lookup mint s.entries ≡ some e
        → update_total_stake_seconds host.payments (pos s.clock) e ≡ done e'
        → Step s (record s { entries = replace mint e' s.entries })
    reset :
        (s : Ledger Tokens) (mint authority : PublicKey) (e e' : StakeEntry)
        → lookup mint s.entries ≡ some e
        → reset_stake_entry (pos s.clock) s.pool_key authority s.pool e ≡ done e'
        → Step s (record s { entries = replace mint e' s.entries })
    close :
        (s : Ledger Tokens) (mint authority : PublicKey) (e : StakeEntry)
        → lookup mint s.entries ≡ some e
        → close_stake_entry host.payments s.pool_key authority s.pool e ≡ done authority
        → Step s (record s { entries = remove mint s.entries })
    configure :
        (s : Ledger Tokens) (authority : PublicKey) (ix : UpdatePoolIx) (pool : StakePool)
        → update_pool authority ix s.pool ≡ done pool
        → Step s (record s { pool = pool })

  pub data Reach (s : Ledger Tokens) : Ledger Tokens → Type 0 where
    here : Reach s s
    next : {t u : Ledger Tokens} → Reach s t → Step t u → Reach s u
