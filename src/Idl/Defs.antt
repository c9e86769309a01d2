-- ===== src/Idl/Defs.antt =====
-- The types of an Anchor IDL, as far as sdk/idl/cardinal_rewards_center.ts uses them.
use discount_program.Common.{ℕ, String, Bool, List}

pub data IdlType : Type 0 where
  u8 u16 u32 u64 u128 i64 bool string public_key : IdlType
  option vec : IdlType → IdlType
  defined : String → IdlType

pub record IdlAccount : Type 0 where
  pub name : String
  pub is_mut : Bool
  pub is_signer : Bool

pub record IdlField : Type 0 where
  pub name : String
  pub type : IdlType

pub record IdlInstruction : Type 0 where
  pub name : String
  pub accounts : List IdlAccount
  pub args : List IdlField

pub record Idl : Type 0 where
  pub version : String
  pub name : String
  pub instructions : List IdlInstruction

abbrev pub account : String → Bool → Bool → IdlAccount
account name is_mut is_signer = record { name = name; is_mut = is_mut; is_signer = is_signer }

abbrev pub field : String → IdlType → IdlField
field name type = record { name = name; type = type }

-- An element of `types`, and of `errors`.
pub data IdlTypeDef : Type 0 where
  struct : (name : String) → List IdlField → IdlTypeDef
  enum : (name : String) → List String → IdlTypeDef

pub record IdlError : Type 0 where
  pub code : ℕ
  pub name : String
  pub msg : String

abbrev pub error : ℕ → String → String → IdlError
error code name msg = record { code = code; name = name; msg = msg }

abbrev pub type_name : IdlTypeDef → String
type_name (struct name fields) = name
type_name (enum name variants) = name
