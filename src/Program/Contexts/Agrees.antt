-- ===== src/Program/Contexts/Agrees.antt =====
-- The interface of the program against the IDL that the SDK is built with.
use discount_program.Common.{
  String, Bool, true, ◌&&◌, ◌≡◌, refl, sym, ap, subst, ◌∙◌, Option, none, some, List, [], ◌∷◌, ◌++◌,
  find?, map, any, All, Bool-cases, inl, inr, same_string, if◌then◌else◌, arith,
}
use discount_program.Idl.{idl}
use discount_program.Idl.Defs.{
  IdlType, IdlField, IdlAccount, IdlInstruction, IdlTypeDef, type_name, struct, enum, option, vec,
  defined,
}
use discount_program.Idl.Types.{types}
use discount_program.Program.Structs.{structs, undeclared_structs}
use discount_program.Program.Contexts.{served}

abbrev pub find_instruction : String → List IdlInstruction → Option IdlInstruction
find_instruction name is = find? (λ i. same_string i.name name) is

abbrev pub find_type : String → List IdlTypeDef → Option IdlTypeDef
find_type name ts = find? (λ t. same_string (type_name t) name) ts

abbrev pub without : (name : String) → List IdlAccount → List IdlAccount
without name [] = []
without name (a ∷ rest) = if same_string a.name name then rest else a ∷ without name rest

-- What the IDL declares of an instruction and of a type of the program: nothing of initDiscount,
-- and initPool without the account of the owner.
abbrev pub declared_of : IdlInstruction → Option IdlInstruction
declared_of i =
    if same_string i.name "initDiscount"
    then none
    else if same_string i.name "initPool"
    then some (record i { accounts = without "owner" i.accounts })
    else some i

abbrev pub declared_type : IdlTypeDef → Option IdlTypeDef
declared_type t = if same_string (type_name t) "InitDiscountIx" then none else some t

-- The type is a basic one, or is made of the argument types of the program.
abbrev pub is_defined : IdlType → Bool
is_defined (option t) = is_defined t
is_defined (vec t) = is_defined t
is_defined (defined name) = any (λ t. same_string (type_name t) name) structs
is_defined _ = true

abbrev pub fields_defined : List IdlField → Bool
fields_defined [] = true
fields_defined (f ∷ fs) = is_defined f.type && fields_defined fs

abbrev pub fields_of : IdlTypeDef → List IdlField
fields_of (struct name fields) = fields
fields_of (enum name variants) = []

some-injective : {A : Type 0} (a b : A) → some a ≡ some b → a ≡ b
some-injective a b h = ap (λ o. elim o [ none ↦ a | some c ↦ c ]) h

tail : {A : Type 0} → List A → List A
tail [] = []
tail (x ∷ xs) = xs

head_or : {A : Type 0} → A → List A → A
head_or a [] = a
head_or a (x ∷ xs) = x

-- Two functions with the same results on a list.
equal_on :
    {A B : Type 0} (f g : A → B) (xs : List A) → map f xs ≡ map g xs → All (λ x. f x ≡ g x) xs
unfolding tail head_or
equal_on f g [] same = tt
equal_on f g (x ∷ xs) same = (ap (head_or (f x)) same, equal_on f g xs (ap tail same))

find?-All :
    {A : Type 0} (P : A → Type 0) (f : A → Bool) (xs : List A) (x : A)
    → All P xs
    → find? f xs ≡ some x
    → P x
find?-All P f [] x h found = absurd (ground arith)
find?-All P f (y ∷ ys) x (p, h) found = elim (Bool-cases (f y)) [
  | inl is ↦
      subst P (some-injective y x (sym (ap (λ b. if b then some y else find? f ys) is) ∙ found)) p
  | inr is ↦ find?-All P f ys x h (sym (ap (λ b. if b then some y else find? f ys) is) ∙ found)
]

IsDeclared : IdlInstruction → Type 0
IsDeclared i = find_instruction i.name idl.instructions ≡ declared_of i

all-IsDeclared : All IsDeclared served
unfolding IsDeclared
all-IsDeclared = equal_on (λ i. find_instruction i.name idl.instructions) declared_of served refl

IsSame : IdlTypeDef → Type 0
IsSame t = find_type (type_name t) types ≡ declared_type t

all-IsSame : All IsSame (structs ++ undeclared_structs)
unfolding IsSame
all-IsSame =
    equal_on (λ t. find_type (type_name t) types) declared_type (structs ++ undeclared_structs) refl

HasTypes : IdlInstruction → Type 0
HasTypes i = fields_defined i.args ≡ true

all-HasTypes : All HasTypes served
unfolding HasTypes
all-HasTypes = equal_on (λ i. fields_defined i.args) (λ i. true) served refl

HasFields : IdlTypeDef → Type 0
HasFields t = fields_defined (fields_of t) ≡ true

all-HasFields : All HasFields (structs ++ undeclared_structs)
unfolding HasFields
all-HasFields =
    equal_on (λ t. fields_defined (fields_of t)) (λ t. true) (structs ++ undeclared_structs) refl

-- For each instruction that the program serves, the IDL of the SDK declares under its name the same
-- accounts in the same order, with the same flags, and the same arguments, but for initPool, which
-- it declares without the account of the owner, and initDiscount, which it does not declare; for
-- each argument type of the program and of its modules that lib.rs does not declare, the IDL has
-- under its name a struct with the same fields of the same types in the same order, but for
-- InitDiscountIx, which it lacks; and the arguments of these instructions and the fields of these
-- types are made of the basic types and of argument types of the program.
pub interface_agrees :
    (name : String) (i : IdlInstruction) (type : String) (t : IdlTypeDef)
    → find_instruction name served ≡ some i
    → find_type type (structs ++ undeclared_structs) ≡ some t
    → (find_instruction i.name idl.instructions ≡ declared_of i)
      × (fields_defined i.args ≡ true)
      × (find_type (type_name t) types ≡ declared_type t)
      × (fields_defined (fields_of t) ≡ true)
unfolding IsDeclared IsSame HasTypes HasFields
interface_agrees name i type t found there =
    let is_named : IdlInstruction → Bool = λ j. same_string j.name name in
    let is_type : IdlTypeDef → Bool = λ u. same_string (type_name u) type in
    (
      find?-All IsDeclared is_named served i all-IsDeclared found,
      find?-All HasTypes is_named served i all-HasTypes found,
      find?-All IsSame is_type (structs ++ undeclared_structs) t all-IsSame there,
      find?-All HasFields is_type (structs ++ undeclared_structs) t all-HasFields there,
    )
