-- ===== src/Program/Outcome/Done.antt =====
-- What an outcome that is a value says of the steps that made it.
use discount_program.Common.{
  ◌⊎◌, inl, inr, ℕ, ◌≡◌, refl, ap, ◌+◌, ◌<◌, ◌^◌, arith, Option, some, none,
}
use discount_program.Program.Outcome.{
  Outcome, done, err, panic, ◌>>=◌, ◌>>◌, invoked, ProgramError, checked_add, checked_sub,
}

abbrev value_or {ℓ} : {A : Type ℓ} → A → Outcome A → A
value_or a (done b) = b
value_or a (err e) = a
value_or a panic = a

pub done-injective {ℓ} : {A : Type ℓ} (a b : A) → done a ≡ done b → a ≡ b
done-injective a b h = ap (value_or a) h

pub err_not_done {ℓ} : {A : Type ℓ} (e : ProgramError) (a : A) → ¬ (Outcome.err e ≡ done a)
err_not_done e a h = ground arith

pub bind-done {ℓ κ} :
    {A : Type ℓ} {B : Type κ} (m : Outcome A) (f : A → Outcome B) (b : B)
    → (m >>= f) ≡ done b
    → (a : A) × (m ≡ done a) × (f a ≡ done b)
bind-done (done a) f b h = (a, refl, h)
bind-done (err e) f b h = ground arith
bind-done panic f b h = ground arith

pub check-done :
    {B : Type 0} (m : Outcome (Unit {0})) (rest : Outcome B) (b : B)
    → (m >> rest) ≡ done b
    → rest ≡ done b
check-done (done u) rest b h = h
check-done (err e) rest b h = ground arith
check-done panic rest b h = ground arith

pub invoked-done : {A : Type 0} (o : Option A) (a : A) → invoked o ≡ done a → o ≡ some a
invoked-done none a h = ground arith
invoked-done (some x) a h = ap some (done-injective x a h)

pub checked_add-done : (w a b n : ℕ) → checked_add w a b ≡ done n → (n ≡ a + b) × (a + b < 2 ^ w)
checked_add-done w a b n h = ground arith

pub checked_sub-done : (a b n : ℕ) → checked_sub a b ≡ done n → n + b ≡ a
checked_sub-done a b n h = ground arith

pub Outcome-cases {ℓ} :
    {A : Type ℓ} (m : Outcome A)
    → ((a : A) × (m ≡ done a)) ⊎ (((e : ProgramError) × (m ≡ err e)) ⊎ (m ≡ panic))
Outcome-cases (done a) = inl (a, refl)
Outcome-cases (err e) = inr (inl (e, refl))
Outcome-cases panic = inr (inr refl)
