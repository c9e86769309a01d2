-- ===== src/Program/Authorization.antt =====
-- `mint_is_allowed` of programs/rewards-center/src/authorization/state.rs.
pub mod Accepted
pub mod Unverified
use discount_program.Common.{
  ℕ, Bool, true, false, not, ◌&&◌, ◌||◌, ◌==◌, Option, none, some, List, [], ◌∷◌, any,
  if◌then◌else◌,
}
use discount_program.Data.{
  PublicKey, StakePool, StakeAuthorizationRecord, Metadata, AccountInfo, AccountMeta,
}
use discount_program.Authorization.{includes}
use discount_program.Program.Outcome.{
  Outcome, done, err, panic, ◌>>=◌, next_account, invalid_derivation, invalid_mint_metadata_owner,
  invalid_mint_metadata, invalid_stake_authorization_record, mint_not_allowed_in_pool,
}
use discount_program.Program.Payment.{ensure}

-- What the function reads of its libraries and of the chain.
pub record MintHost : Type 0 where
  -- `mpl_token_metadata::id()`
  pub metadata_program : PublicKey
  -- the address that `assert_derivation` wants, from the seeds of the mint
  pub metadata_address : PublicKey → PublicKey
  -- `Metadata::deserialize`: the mint, and the fields that the SDK reads too
  pub deserialize : List ℕ → Option (PublicKey × Metadata)
  -- `Account::<StakeAuthorizationRecord>::try_from`
  pub authorization_record : PublicKey → Option StakeAuthorizationRecord

abbrev pub is_empty : List ℕ → Bool
is_empty [] = true
is_empty (x ∷ xs) = false

-- `creators.iter().find(|c| allowed_creators.contains(&c.address) && c.verified).is_some()`, for
-- a list of allowed creators that is not empty and a mint that has creators
unfoldable pub creator_allows : StakePool → Metadata → Bool
creator_allows pool m = elim m.creators [
  | none ↦ false
  | some creators ↦
      not (is_empty pool.allowed_creators)
      && any (λ c. includes pool.allowed_creators c.address && c.verified) creators
]

unfoldable pub collection_allows : StakePool → Metadata → Bool
collection_allows pool m = elim m.collection [
  | none ↦ false
  | some c ↦
      not (is_empty pool.allowed_collections)
      && (c.verified && includes pool.allowed_collections c.key)
]

-- What the account of the metadata says: empty data allow nothing.
unfoldable pub metadata_allows :
    MintHost → StakePool → AccountInfo → (stake_mint : PublicKey) → Outcome Bool
metadata_allows host pool info stake_mint =
    let held : Outcome Bool =
      (ensure (info.owner == host.metadata_program) (err invalid_mint_metadata_owner) >>= λ _.
      elim (host.deserialize info.bytes) [
        | none ↦ panic
        | some (mint, m) ↦
            (ensure (mint == stake_mint) (err invalid_mint_metadata) >>= λ _.
            done (creator_allows pool m || collection_allows pool m))
      ]) in
    if is_empty info.bytes then done false else held

-- The record that authorizes a mint.
unfoldable pub record_allows :
    MintHost
    → (pool_key stake_mint : PublicKey) → List AccountMeta
    → Outcome (Bool × List AccountMeta)
record_allows host pool_key stake_mint accounts = next_account accounts >>= λ (account, rest).
    elim (host.authorization_record account.pubkey) [
      | none ↦ err invalid_stake_authorization_record
      | some r ↦ done (r.pool == pool_key && (r.mint == stake_mint), rest)
    ]

unfoldable pub mint_is_allowed :
    MintHost
    → (pool_key : PublicKey) → StakePool
    → (metadata_key : PublicKey) → AccountInfo
    → (stake_mint : PublicKey) → List AccountMeta
    → Outcome (List AccountMeta)
mint_is_allowed host pool_key pool metadata_key info stake_mint accounts =
    let guarded =
      not (is_empty pool.allowed_creators)
      || (not (is_empty pool.allowed_collections) || pool.requires_authorization) in
    let checked : Outcome (List AccountMeta) =
      (metadata_allows host pool info stake_mint >>= λ allowed.
      (if pool.requires_authorization && not allowed
        then record_allows host pool_key stake_mint accounts
        else done (allowed, accounts))
      >>= λ (admitted, rest). ensure admitted (err mint_not_allowed_in_pool) >>= λ _. done rest) in
    ensure (metadata_key == host.metadata_address stake_mint) (err invalid_derivation) >>= λ _.
    if guarded then checked else done accounts
