-- ===== src/Program/Ledger/Books.antt =====
-- What holds of a pool's total, of the tokens that are locked, of the time and of the entries, and
-- how one entry at a time may change.
use discount_program.Common.{
  ℕ, ◌+◌, ◌≤◌, ◌<◌, ◌^◌, ◌≡◌, ◌≢◌, ◌⊎◌, sym, ap, ◌∙◌, Bool, true, false, Option, some, none, List,
  [], ◌∷◌, All, arith,
}
use discount_program.Common.Int.{ℤ, pos, pos_part}
use discount_program.Data.{PublicKey, StakeEntry}
use discount_program.Rewards.ClosedForm.{IsUnsigned}
use discount_program.Program.Entries.{EntryHost}
use discount_program.Program.Ledger.{Ledger, lookup, replace, remove}
use discount_program.Program.Ledger.Entries.{
  staked_sum, amount_at, IsDistinct, lookup-All, staked_sum-replace, staked_sum-remove,
  lookup-replace, lookup-remove, replace-IsDistinct, remove-IsDistinct, replace-All, remove-All,
}

-- A time that is set is not negative and not later than the clock.
abbrev pub IsPast : (clock : ℕ) → Option ℤ → Type 0
IsPast clock none = Unit
IsPast clock (some t) = IsUnsigned t × (pos_part t ≤ clock)

later-IsPast : (clock clock' : ℕ) (o : Option ℤ) → clock ≤ clock' → IsPast clock o → IsPast clock' o
later-IsPast clock clock' none le h = tt
later-IsPast clock clock' (some t) le (unsigned, past) = (unsigned, omega arith)

-- An entry holds nothing and has no staker, or holds one token and has one; its times are in order,
-- and it has no multiplier, as the program serves no handler that sets one.
pub record IsSound (default_key : PublicKey) (clock : ℕ) (e : StakeEntry) : Type 0 where
  pub staked :
      ((e.amount ≡ pos 0) × (e.last_staker ≡ default_key))
      ⊎ ((e.amount ≡ pos 1) × (e.last_staker ≢ default_key))
  pub staked_at : IsUnsigned e.last_staked_at
  pub updated_at : IsUnsigned e.last_updated_at
  pub ordered : pos_part e.last_staked_at ≤ pos_part e.last_updated_at
  pub past : pos_part e.last_updated_at ≤ clock
  pub cooling : IsPast clock e.cooldown_start_seconds
  pub points : e.multiplier_basis_points ≡ none

abbrev pub bit : Bool → ℕ
bit true = 1
bit false = 0

-- The total is the sum of the amounts; exactly the tokens that are locked are staked; the entries
-- are sound and of different mints.
pub record Books (default_key : PublicKey) (total : ℕ) (locked : PublicKey → Bool) (clock : ℕ)
    (es : List StakeEntry) : Type 0 where
  pub total_sum : total ≡ staked_sum es
  pub in_range : total < 2 ^ 32
  pub holding : (m : PublicKey) → amount_at m es ≡ bit (locked m)
  pub sound : All (IsSound default_key clock) es
  pub distinct : IsDistinct es

module _ (default_key : PublicKey) where
  later-IsSound :
      (clock clock' : ℕ) (es : List StakeEntry)
      → clock ≤ clock'
      → All (IsSound default_key clock) es
      → All (IsSound default_key clock') es
  later-IsSound clock clock' [] le h = tt
  later-IsSound clock clock' (e ∷ es) le (p, h) = (
    record {
      staked = p.staked;
      staked_at = p.staked_at;
      updated_at = p.updated_at;
      ordered = p.ordered;
      past = omega (arith, p.past);
      cooling = later-IsPast clock clock' e.cooldown_start_seconds le p.cooling;
      points = p.points;
    },
    later-IsSound clock clock' es le h,
  )

  module _ (total : ℕ) (locked : PublicKey → Bool) (clock : ℕ) (es : List StakeEntry)
      (h : Books default_key total locked clock es) where
    pub Books-later : (clock' : ℕ) → clock ≤ clock' → Books default_key total locked clock' es
    Books-later clock' le = record {
      total_sum = h.total_sum;
      in_range = h.in_range;
      holding = h.holding;
      sound = later-IsSound clock clock' es le h.sound;
      distinct = h.distinct;
    }

    pub Books-foreign :
        (locked' : PublicKey → Bool)
        → ((m : PublicKey) → locked' m ≡ locked m)
        → Books default_key total locked' clock es
    Books-foreign locked' same = record {
      total_sum = h.total_sum;
      in_range = h.in_range;
      holding = λ m. h.holding m ∙ sym (ap bit (same m));
      sound = h.sound;
      distinct = h.distinct;
    }

    pub Books-cons :
        (e : StakeEntry)
        → lookup e.stake_mint es ≡ none
        → e.amount ≡ pos 0
        → IsSound default_key clock e
        → Books default_key total locked clock (e ∷ es)
    Books-cons e fresh empty sound = record {
      total_sum = ground (arith, h.total_sum);
      in_range = h.in_range;
      holding = λ m. grind (arith, h.holding m);
      sound = (sound, h.sound);
      distinct = (fresh, h.distinct);
    }

    module _ (mint : PublicKey) (e : StakeEntry) (found : lookup mint es ≡ some e) where
      pub Books-replace :
          (total' : ℕ) (locked' : PublicKey → Bool) (e' : StakeEntry)
          → e'.stake_mint ≡ mint
          → IsSound default_key clock e'
          → total' + pos_part e.amount ≡ total + pos_part e'.amount
          → total' < 2 ^ 32
          → pos_part e'.amount ≡ bit (locked' mint)
          → ((m : PublicKey) → m ≢ mint → locked' m ≡ locked m)
          → Books default_key total' locked' clock (replace mint e' es)
      Books-replace total' locked' e' same sound change in_range lock others = record {
        total_sum = grind (arith, h.total_sum, staked_sum-replace mint e e' es found);
        in_range = in_range;
        holding =
            λ m. grind (arith, h.holding m, lookup-replace mint e e' es m found same, others m);
        sound = replace-All mint e (IsSound default_key clock) e' es h.sound sound;
        distinct = replace-IsDistinct mint e e' es found same h.distinct;
      }

      pub Books-remove : e.amount ≡ pos 0 → Books default_key total locked clock (remove mint es)
      Books-remove empty = record {
        total_sum = grind (arith, h.total_sum, staked_sum-remove mint e es found);
        in_range = h.in_range;
        holding = λ m. grind (arith, h.holding m, lookup-remove mint e es m h.distinct);
        sound = remove-All mint e (IsSound default_key clock) es h.sound;
        distinct = remove-IsDistinct mint e es h.distinct;
      }

      pub found-IsSound : IsSound default_key clock e
      found-IsSound = lookup-All mint e (IsSound default_key clock) es h.sound found

      pub found-holding : pos_part e.amount ≡ bit (locked mint)
      found-holding = ground (arith, h.holding mint)

-- The books of a ledger are in order.
abbrev pub IsWellFormed :
    {Tokens : Type 0} → EntryHost → (held : Tokens → PublicKey → Bool) → Ledger Tokens → Type 0
IsWellFormed host held s =
    Books host.payments.default_key s.pool.total_staked (held s.tokens) s.clock s.entries
