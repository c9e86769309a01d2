-- ===== src/Common/Results.antt =====
-- What a call of the SDK gives: a value, or what it throws.
use Prim.Native.String.{String}
use mathlib.Core.Path.{◌≡◌, refl}
use mathlib.Core.List.{List, [], ◌∷◌}
use discount_program.Common.Lists.{All}

-- The first three are the strings that sdk/api.ts throws; `package_error` is an exception of a
-- package that the SDK calls.
pub data Error : Type 0 where
  stake_pool_not_found receipt_manager_not_found stake_booster_not_found : Error
  package_error : String → Error

pub data Result {ℓ} (A : Type ℓ) : Type ℓ where
  ok : A → Result A
  throw : Error → Result A

-- An exception ends the run; otherwise the next step takes the value.
infixl 5 ◌>>=◌
abbrev pub ◌>>=◌ {ℓ κ} : {B : Type κ} {A : Type ℓ} → Result A → (A → Result B) → Result B
throw why >>= next = throw why
ok value >>= next = next value

-- A `for` loop that pushes one result for each element, and ends at the first exception.
abbrev pub for_each {ℓ κ} : {A : Type ℓ} {B : Type κ} → (A → Result B) → List A → Result (List B)
for_each f [] = ok []
for_each f (x ∷ xs) = f x >>= λ y. for_each f xs >>= λ ys. ok (y ∷ ys)

-- What holds of the value, if there is one.
abbrev pub Ensures {ℓ κ} : {A : Type ℓ} → (A → Type κ) → Result A → Type κ
Ensures P (ok a) = P a
Ensures P (throw e) = Unit

pub Ensures-bind {ℓ κ} :
    {A : Type ℓ} {B : Type ℓ} (P : B → Type κ) (m : Result A) (f : A → Result B)
    → ((a : A) → Ensures P (f a))
    → Ensures P (m >>= f)
Ensures-bind P (ok a) f h = h a
Ensures-bind P (throw e) f h = tt

pub Ensures-ok {ℓ κ} :
    {A : Type ℓ} (P : A → Type κ) (r : Result A) (a : A) → r ≡ ok a → Ensures P r → P a
Ensures-ok P r a e h = rw e at h

-- There is a value, and it has the property.
abbrev pub Returns {ℓ} : {A : Type ℓ} → (A → Type 0) → Result A → Type 0
Returns P (ok a) = P a
Returns P (throw e) = ⊥

pub Returns-bind {ℓ κ} :
    {A : Type ℓ} {B : Type κ} (Q : A → Type 0) (P : B → Type 0) (m : Result A) (f : A → Result B)
    → Returns Q m
    → ((a : A) → Q a → Returns P (f a))
    → Returns P (m >>= f)
Returns-bind Q P (ok a) f q h = h a q
Returns-bind Q P (throw e) f q h = q

pub Returns-eq {ℓ} :
    {A : Type ℓ} (P : A → Type 0) (r : Result A) (a : A) → r ≡ ok a → P a → Returns P r
Returns-eq P r a e h = rw e h

pub Returns-inv {ℓ} :
    {A : Type ℓ} (P : A → Type 0) (r : Result A) → Returns P r → (a : A) × (r ≡ ok a) × P a
Returns-inv P (ok a) h = (a, refl, h)
Returns-inv P (throw e) h = absurd h

pub Returns-mono {ℓ} :
    {A : Type ℓ} (P Q : A → Type 0) (r : Result A)
    → ((a : A) → P a → Q a)
    → Returns P r
    → Returns Q r
Returns-mono P Q (ok a) f h = f a h
Returns-mono P Q (throw e) f h = h

cons-Ensures {ℓ} :
    {B : Type ℓ} (P : B → Type 0) (m : Result B) (ms : Result (List B))
    → Ensures P m
    → Ensures (All P) ms
    → Ensures (All P) (m >>= λ y. ms >>= λ ys. ok (y ∷ ys))
cons-Ensures P (ok y) (ok ys) h k = (h, k)
cons-Ensures P (ok y) (throw e) h k = tt
cons-Ensures P (throw e) ms h k = tt

pub for_each-Ensures {ℓ κ} :
    {A : Type ℓ} {B : Type κ} (P : B → Type 0) (f : A → Result B) (xs : List A)
    → ((a : A) → Ensures P (f a))
    → Ensures (All P) (for_each f xs)
for_each-Ensures P f [] h = tt
for_each-Ensures P f (x ∷ xs) h =
    cons-Ensures P (f x) (for_each f xs) (h x) (for_each-Ensures P f xs h)

pub Returns-map {ℓ} :
    {A : Type ℓ} (P Q : A → Type 0) (r : Result A)
    → ((a : A) → P a → Q a)
    → Returns P r
    → Returns Q r
Returns-map P Q (ok a) f h = f a h
Returns-map P Q (throw e) f h = h
