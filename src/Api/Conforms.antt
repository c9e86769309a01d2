-- ===== src/Api/Conforms.antt =====
-- The calls that sdk/api.ts builds, against the IDL that it hands to Anchor
-- (sdk/idl/cardinal_rewards_center.ts).
pub mod Calls
pub mod Transactions
pub mod Claims
pub mod Sdk
use text.Mathlib.Text.{◌==◌ as str_eq}
use discount_program.Common.{
  ℕ, ◌==◌, String, Bool, true, false, not, ◌&&◌, List, [], ◌∷◌, ◌++◌, ◌≡◌, none, some, Option, map,
  any, find?, length, All, if◌then◌else◌,
}
use discount_program.Idl.{IdlInstruction, idl}
use discount_program.Data.{
  PublicKey, ProgramCall, Instruction, rewards_center, set_compute_unit_limit,
  create_associated_token_account, Transaction,
}

abbrev pub has : List String → String → Bool
has names k = any (λ n. str_eq n k) names

abbrev pub all_in : List String → List String → Bool
all_in names [] = true
all_in names (k ∷ ks) = has names k && all_in names ks

abbrev pub distinct : List String → Bool
distinct [] = true
distinct (k ∷ ks) = not (has ks k) && distinct ks

-- The accounts that a call may leave to Anchor, unless it is strict.
abbrev pub filled_in : Bool → List String
filled_in strict = if strict then [] else "tokenProgram" ∷ "systemProgram" ∷ []

abbrev pub declared : String → Option IdlInstruction
declared method = find? (λ i. str_eq i.name method) idl.instructions

-- The IDL declares the method; the call has as many arguments; it names only accounts that are
-- declared, each once, and all of them but for those that Anchor fills in.
abbrev pub call_conforms : ProgramCall → Bool
call_conforms call = elim (declared call.method) [
  | none ↦ false
  | some i ↦
      let given = map (λ a. a.0) call.accounts in
      let wanted = map (λ a. a.name) i.accounts in
      all_in wanted given
      && all_in (given ++ filled_in call.strict) wanted
      && distinct given
      && (length call.args == length i.args)
]

abbrev pub Conforms : Instruction → Type 0
Conforms (rewards_center call) = call_conforms call ≡ true
Conforms (set_compute_unit_limit units) = Unit
Conforms (create_associated_token_account payer associated_token owner mint) = Unit

abbrev pub AllConform : Transaction → Type 0
AllConform tx = All Conforms tx
