-- ===== src/Program/Ledger/Entries.antt =====
-- Lists of stake entries by mint, and the sum of their amounts.
use discount_program.Common.{
  ℕ, ◌+◌, ◌≡◌, sym, ap, subst, ◌∙◌, Bool, true, false, Option, none, some, List, [], ◌∷◌, ◌==◌,
  Bool-cases, All, inl, inr, arith, if◌then◌else◌,
}
use discount_program.Common.Int.{pos_part}
use discount_program.Data.{PublicKey, StakeEntry}
use discount_program.Program.Ledger.{lookup, replace, remove}

abbrev pub staked_sum : List StakeEntry → ℕ
staked_sum [] = 0
staked_sum (e ∷ es) = pos_part e.amount + staked_sum es

abbrev amount_of : Option StakeEntry → ℕ
amount_of none = 0
amount_of (some e) = pos_part e.amount

-- What is staked of a mint.
abbrev pub amount_at : PublicKey → List StakeEntry → ℕ
amount_at mint es = amount_of (lookup mint es)

-- The mints of the entries differ.
abbrev pub IsDistinct : List StakeEntry → Type 0
IsDistinct [] = Unit
IsDistinct (e ∷ es) = (lookup e.stake_mint es ≡ none) × IsDistinct es

some-injective : (a b : StakeEntry) → some a ≡ some b → a ≡ b
some-injective a b h = ground arith

if_holds {ℓ} :
    {A : Type 0} (P : A → Type ℓ) (b : Bool) (x y : A) → P x → P y → P (if b then x else y)
if_holds P true x y p q = p
if_holds P false x y p q = q

module _ (mint : PublicKey) (e : StakeEntry) where
  pub lookup-mint : (es : List StakeEntry) → lookup mint es ≡ some e → e.stake_mint ≡ mint
  lookup-mint [] found = ground arith
  lookup-mint (x ∷ es) found = ground (arith, lookup-mint es)

  pub lookup-All :
      (P : StakeEntry → Type 0) (es : List StakeEntry) → All P es → lookup mint es ≡ some e → P e
  lookup-All P [] h found = ground arith
  lookup-All P (x ∷ es) (p, h) found = elim (Bool-cases (x.stake_mint == mint)) [
    | inl is ↦
        subst P
          (some-injective x e (sym (ap (λ b. if b then some x else lookup mint es) is) ∙ found)) p
    | inr is ↦ lookup-All P es h (sym (ap (λ b. if b then some x else lookup mint es) is) ∙ found)
  ]

  pub staked_sum-replace :
      (e' : StakeEntry) (es : List StakeEntry)
      → lookup mint es ≡ some e
      → staked_sum (replace mint e' es) + pos_part e.amount ≡ staked_sum es + pos_part e'.amount
  staked_sum-replace e' [] found = ground arith
  staked_sum-replace e' (x ∷ es) found = ground (arith, staked_sum-replace e' es)

  pub staked_sum-remove :
      (es : List StakeEntry)
      → lookup mint es ≡ some e
      → staked_sum (remove mint es) + pos_part e.amount ≡ staked_sum es
  staked_sum-remove [] found = ground arith
  staked_sum-remove (x ∷ es) found = ground (arith, staked_sum-remove es)

  pub lookup-replace :
      (e' : StakeEntry) (es : List StakeEntry) (m : PublicKey)
      → lookup mint es ≡ some e
      → e'.stake_mint ≡ mint
      → lookup m (replace mint e' es) ≡ (if m == mint then some e' else lookup m es)
  lookup-replace e' [] m found same = ground arith
  lookup-replace e' (x ∷ es) m found same = ground (arith, lookup-replace e' es m)

  pub lookup-remove :
      (es : List StakeEntry) (m : PublicKey)
      → IsDistinct es
      → lookup m (remove mint es) ≡ (if m == mint then none else lookup m es)
  lookup-remove [] m d = ground arith
  lookup-remove (x ∷ es) m (fresh, d) = grind (arith, lookup-remove es m d, fresh)

  pub replace-IsDistinct :
      (e' : StakeEntry) (es : List StakeEntry)
      → lookup mint es ≡ some e
      → e'.stake_mint ≡ mint
      → IsDistinct es
      → IsDistinct (replace mint e' es)
  replace-IsDistinct e' [] found same d = tt
  replace-IsDistinct e' (x ∷ es) found same (fresh, d) = elim (Bool-cases (x.stake_mint == mint)) [
    | inl is ↦ rw is (grind arith, d)
    | inr is ↦
        let later : lookup mint es ≡ some e = ground arith in
        rw is (
          grind (arith, lookup-replace e' es x.stake_mint later same),
          replace-IsDistinct e' es later same d,
        )
  ]

  pub remove-IsDistinct : (es : List StakeEntry) → IsDistinct es → IsDistinct (remove mint es)
  remove-IsDistinct [] d = tt
  remove-IsDistinct (x ∷ es) (fresh, d) =
      if_holds IsDistinct (x.stake_mint == mint) es (x ∷ remove mint es) d
        (grind (arith, lookup-remove es x.stake_mint d), remove-IsDistinct es d)

  pub replace-All :
      (P : StakeEntry → Type 0) (e' : StakeEntry) (es : List StakeEntry)
      → All P es
      → P e'
      → All P (replace mint e' es)
  replace-All P e' [] h p' = tt
  replace-All P e' (x ∷ es) (p, h) p' =
      if_holds (All P) (x.stake_mint == mint) (e' ∷ es) (x ∷ replace mint e' es) (p', h)
        (p, replace-All P e' es h p')

  pub remove-All :
      (P : StakeEntry → Type 0) (es : List StakeEntry) → All P es → All P (remove mint es)
  remove-All P [] h = tt
  remove-All P (x ∷ es) (p, h) =
      if_holds (All P) (x.stake_mint == mint) es (x ∷ remove mint es) h (p, remove-All P es h)
