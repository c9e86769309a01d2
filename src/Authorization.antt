-- ===== src/Authorization.antt =====
-- sdk/authorization.ts: the account that proves that a mint may be staked in a pool.
use discount_program.Common.{
  Bool, false, not, ◌&&◌, ◌==◌, Option, none, some, List, [], ◌∷◌, any, if◌then◌else◌,
}
use discount_program.Data.{PublicKey, StakePool, Metadata, AccountMeta}
use discount_program.Packages.{Packages}
use discount_program.Pda.{find_stake_authorization_record_id}

-- `list.map(String).includes(key.toString())`
abbrev pub includes : List PublicKey → PublicKey → Bool
includes keys key = any (λ k. k == key) keys

-- `mintMetadata?.data.creators?.some(c => allowedCreators ... includes(c.address))`
unfoldable pub has_allowed_creator : StakePool → Option Metadata → Bool
has_allowed_creator pool none = false
has_allowed_creator pool (some m) = elim m.creators [
  | none ↦ false
  | some creators ↦ any (λ c. includes pool.allowed_creators c.address) creators
]

-- `mintMetadata?.collection?.key && allowedCollections ... includes(key)`
unfoldable pub has_allowed_collection : StakePool → Option Metadata → Bool
has_allowed_collection pool none = false
has_allowed_collection pool (some m) = elim m.collection [
  | none ↦ false
  | some c ↦ includes pool.allowed_collections c.key
]

unfoldable pub remaining_accounts_for_authorization :
    Packages → (pubkey : PublicKey) → StakePool → PublicKey → Option Metadata → List AccountMeta
unfolding has_allowed_creator has_allowed_collection
remaining_accounts_for_authorization p pubkey pool mint_id metadata =
    if pool.requires_authorization
      && not (has_allowed_creator pool metadata)
      && not (has_allowed_collection pool metadata)
    then record {
      pubkey = find_stake_authorization_record_id p pubkey mint_id;
      is_signer = false;
      is_writable = false;
    }
      ∷ []
    else []
