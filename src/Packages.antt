-- ===== src/Packages.antt =====
-- What the SDK takes from packages and from the cluster that it is connected to; none of this code
-- is in the repository, so each is a parameter. An exception of a package is a `throw`.
use discount_program.Common.{
  ℕ, String, Bool, Option, List, Result, ok, ◌≡◌, ◌<◌, ◌/◌, ◌%◌, ◌^◌, if◌then◌else◌,
}
use discount_program.Common.Int.{ℤ, pos, ◌+ℤ◌, ◌-ℤ◌, ◌*ℤ◌, ltb_ℤ}
use discount_program.Data.{
  PublicKey, AccountType, AccountOf, AccountInfo, Parsed, IdlAccountData, Metadata, MintManager,
}
use discount_program.Idl.{Idl}

-- @solana/web3.js, @solana/spl-token, @coral-xyz/anchor, @cardinal/common,
-- @cardinal/creator-standard and the packages of Metaplex.
pub record Packages : Type 0 where
  -- `new PublicKey(base58)`
  pub public_key : String → PublicKey
  -- `PublicKey.default`
  pub default_key : PublicKey
  -- `SystemProgram.programId`
  pub system_program_id : PublicKey
  pub token_program_id : PublicKey
  pub sysvar_instructions_pubkey : PublicKey
  pub token_auth_rules_id : PublicKey
  pub creator_standard_program_id : PublicKey
  -- `utils.bytes.utf8.encode`
  pub utf8_encode : String → List ℕ
  -- `key.toBuffer()`
  pub to_buffer : PublicKey → List ℕ
  -- `bn.toArrayLike(Buffer, "le", 8)`
  pub to_array_like_le_8 : ℤ → List ℕ
  -- `PublicKey.findProgramAddressSync(seeds, programId)`
  pub find_program_address_sync : List (List ℕ) → PublicKey → PublicKey × ℕ
  -- `getAssociatedTokenAddressSync(mint, owner, allowOwnerOffCurve)`
  pub get_associated_token_address_sync : PublicKey → PublicKey → Bool → PublicKey
  -- `findAta(mint, owner, allowOwnerOffCurve)`
  pub find_ata : PublicKey → PublicKey → Bool → PublicKey
  pub find_mint_manager_id : PublicKey → PublicKey
  pub find_token_record_id : PublicKey → PublicKey → PublicKey
  -- `Metadata.fromAccountInfo(info)[0]`
  pub metadata_from_account_info : AccountInfo → Result Metadata
  -- `MintManager.fromAccountInfo(info)[0]`
  pub mint_manager_from_account_info : AccountInfo → Result MintManager
  -- the functions of @cardinal/common that sdk/accounts.ts wraps
  pub decode_idl_account : (T : AccountType) → AccountInfo → Idl → Result (AccountOf T)
  pub decode_idl_account_unknown : Option AccountInfo → Idl → Result Parsed
  pub try_decode_idl_account : (T : AccountType) → AccountInfo → Idl → Option (AccountOf T)
  pub try_decode_idl_account_unknown : AccountInfo → Idl → Parsed

-- `Connection`: what the cluster answers, in one state of the chain.
pub record Connection : Type 0 where
  -- `Date.now()`, as the answers come in
  pub now : ℕ
  pub get_batched_multiple_accounts : List PublicKey → List (Option AccountInfo)
  pub fetch_idl_account : (T : AccountType) → PublicKey → Idl → Result (IdlAccountData T)
  pub fetch_idl_account_nullable :
      (T : AccountType) → PublicKey → Idl → Result (Option (IdlAccountData T))
  pub get_program_idl_accounts :
      (T : AccountType) → PublicKey → Idl → Result (List (IdlAccountData T))
  -- `tryNull(Metadata.fromAccountAddress(connection, id))`
  pub try_metadata_from_account_address : PublicKey → Option Metadata
  -- `(await getMint(connection, id)).supply`
  pub get_mint_supply : PublicKey → Result ℕ
  -- `(await getAccount(connection, id)).amount`
  pub get_account_amount : PublicKey → Result ℕ

-- bn.js: the arithmetic of `BN`, and `new BN(number)`. A division by zero is an exception.
pub record BigNumber : Type 0 where
  pub add : ℤ → ℤ → ℤ
  pub sub : ℤ → ℤ → ℤ
  pub mul : ℤ → ℤ → ℤ
  pub div : ℤ → ℤ → Result ℤ
  pub remainder : ℤ → ℤ → Result ℤ
  pub pow : ℤ → ℤ → ℤ
  pub gt : ℤ → ℤ → Bool
  pub minimum : ℤ → ℤ → ℤ
  pub number : ℤ → ℤ

-- What bn.js documents of it, as far as the theorems rely on it; `new BN(number)` wants a safe
-- integer.
pub record IsDocumented (n : BigNumber) : Type 0 where
  pub add_lem : (a b : ℤ) → n.add a b ≡ a +ℤ b
  pub sub_lem : (a b : ℤ) → n.sub a b ≡ a -ℤ b
  pub mul_lem : (a b : ℤ) → n.mul a b ≡ a *ℤ b
  pub div_lem : (a b : ℕ) → 0 < b → n.div (pos a) (pos b) ≡ ok (pos (a / b))
  pub remainder_lem : (a b : ℕ) → 0 < b → n.remainder (pos a) (pos b) ≡ ok (pos (a % b))
  pub pow_lem : (a b : ℕ) → n.pow (pos a) (pos b) ≡ pos (a ^ b)
  pub gt_lem : (a b : ℤ) → n.gt a b ≡ ltb_ℤ b a
  pub minimum_lem : (a b : ℤ) → n.minimum a b ≡ (if ltb_ℤ a b then a else b)
  pub number_lem : (a : ℕ) → a < 2 ^ 53 → n.number (pos a) ≡ pos a
