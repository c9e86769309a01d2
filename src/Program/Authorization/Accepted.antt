-- ===== src/Program/Authorization/Accepted.antt =====
-- The accounts of `remainingAccountsForAuthorization` (sdk/authorization.ts) before
-- `mint_is_allowed` (programs/rewards-center/src/authorization/state.rs).
use discount_program.Common.{
  Bool, true, false, not, ◌&&◌, ◌||◌, ◌≡◌, refl, sym, ==_iff, ==_refl, Bool-cases, Option-cases,
  inl, inr, some, List, [], ◌∷◌, ◌++◌, any, All, arith, if◌then◌else◌,
}
use discount_program.Data.{
  PublicKey, StakePool, StakeAuthorizationRecord, Metadata, Creator, Collection, AccountInfo,
  AccountMeta,
}
use discount_program.Packages.{Packages}
use discount_program.Pda.{find_stake_authorization_record_id}
use discount_program.Authorization.{
  includes, has_allowed_creator, has_allowed_collection, remaining_accounts_for_authorization,
}
use discount_program.Program.Outcome.{done}
use discount_program.Program.Authorization.{
  MintHost, is_empty, creator_allows, collection_allows, metadata_allows, record_allows,
  mint_is_allowed,
}

-- All creators and the collection of the metadata are verified.
pub record IsVerified (m : Metadata) : Type 0 where
  pub creators : (cs : List Creator) → m.creators ≡ some cs → All (λ c. c.verified ≡ true) cs
  pub collection : (c : Collection) → m.collection ≡ some c → c.verified ≡ true

-- The account is that of the mint's metadata, and holds `m`.
pub record HoldsMetadata (host : MintHost) (key : PublicKey) (info : AccountInfo)
    (stake_mint : PublicKey) (m : Metadata) : Type 0 where
  pub address : key ≡ host.metadata_address stake_mint
  pub owner : info.owner ≡ host.metadata_program
  pub not_empty : is_empty info.bytes ≡ false
  pub deserialized : host.deserialize info.bytes ≡ some (stake_mint, m)

not_any : {A : Type 0} (f : A → Bool) (cs : List A) → ((c : A) → f c ≡ false) → any f cs ≡ false
not_any f [] h = refl
not_any f (c ∷ cs) h = rw (h c) (not_any f cs h)

pub or_or_true : (a b : Bool) → (a || (b || true)) ≡ true
or_or_true a b = ground arith

either : {A : Type 0} (b : Bool) (x : A) → (if b then x else x) ≡ x
either true x = refl
either false x = refl

and_true : (b : Bool) → (b && true) ≡ b
and_true true = refl
and_true false = refl

any_verified :
    (f : PublicKey → Bool) (cs : List Creator)
    → All (λ c. c.verified ≡ true) cs
    → any (λ c. f c.address && c.verified) cs ≡ any (λ c. f c.address) cs
any_verified f [] h = refl
any_verified f (c ∷ cs) (v, vs) = rw (v, and_true (f c.address), any_verified f cs vs) refl

all_verified :
    (keys : List PublicKey) (cs : List Creator)
    → All (λ c. c.verified ≡ true) cs
    → (not (is_empty keys) && any (λ c. includes keys c.address && c.verified) cs)
      ≡ any (λ c. includes keys c.address) cs
all_verified [] cs h = sym (not_any _ cs (λ c. refl))
all_verified (k ∷ keys) cs h = any_verified (includes (k ∷ keys)) cs h

module _ (pool : StakePool) (m : Metadata) (h : IsVerified m) where
  creator_same : creator_allows pool m ≡ has_allowed_creator pool (some m)
  unfolding creator_allows has_allowed_creator
  creator_same = elim (Option-cases m.creators) [
    | inl unset ↦ rw unset refl
    | inr (cs, set) ↦ rw set (all_verified pool.allowed_creators cs (h.creators cs set))
  ]

  collection_same : collection_allows pool m ≡ has_allowed_collection pool (some m)
  unfolding collection_allows has_allowed_collection
  collection_same = elim (Option-cases m.collection) [
    | inl unset ↦ rw unset refl
    | inr (c, set) ↦ rw set (ground (arith, h.collection c set))
  ]

pub metadata_allows_lem :
    (host : MintHost) (pool : StakePool) (key : PublicKey) (info : AccountInfo)
    (stake_mint : PublicKey) (m : Metadata)
    → HoldsMetadata host key info stake_mint m
    → metadata_allows host pool info stake_mint
      ≡ done (creator_allows pool m || collection_allows pool m)
unfolding metadata_allows
metadata_allows_lem host pool key info stake_mint m h =
    rw (h.not_empty, (==_iff _ _).1 h.owner, h.deserialized, ==_refl stake_mint) refl

-- What a pool that does not require authorization, or a record on the chain, must add for a mint
-- that the metadata do not admit.
pub record IsAdmissible (p : Packages) (host : MintHost) (pool_key : PublicKey) (pool : StakePool)
    (stake_mint : PublicKey) (allowed : Bool) : Type 0 where
  -- the record that the SDK names authorizes the mint in this pool
  pub authorized :
      allowed ≡ false
      → pool.requires_authorization ≡ true
      → (r : StakeAuthorizationRecord) × (host.authorization_record
            (find_stake_authorization_record_id p pool_key stake_mint)
          ≡ some r)
        × (r.pool ≡ pool_key)
        × (r.mint ≡ stake_mint)
  pub open_pool :
      allowed ≡ false
      → pool.requires_authorization ≡ false
      → (is_empty pool.allowed_creators ≡ true) × (is_empty pool.allowed_collections ≡ true)

module _ (p : Packages) (host : MintHost) (pool_key : PublicKey) (pool : StakePool)
    (stake_mint : PublicKey) where
  record_allows_lem :
      (r : StakeAuthorizationRecord) (rest : List AccountMeta)
      → host.authorization_record (find_stake_authorization_record_id p pool_key stake_mint)
        ≡ some r
      → r.pool ≡ pool_key
      → r.mint ≡ stake_mint
      → record_allows host pool_key stake_mint (
          record {
            pubkey = find_stake_authorization_record_id p pool_key stake_mint;
            is_signer = false;
            is_writable = false;
          }
          ∷ rest)
        ≡ done (true, rest)
  unfolding record_allows
  record_allows_lem r rest held same_pool same_mint =
      rw (held, (==_iff _ _).1 same_pool, (==_iff _ _).1 same_mint) refl

  -- For a mint whose metadata account is its own, is not empty and has only verified creators and a
  -- verified collection, mint_is_allowed succeeds on the accounts that
  -- remainingAccountsForAuthorization lists and takes exactly these, if, where the metadata name no
  -- allowed creator or collection, the record that the SDK names authorizes the mint (a pool that
  -- requires authorization) or the pool has neither list (one that does not).
  pub mint_is_allowed-accepts :
      (key : PublicKey) (info : AccountInfo) (m : Metadata) (rest : List AccountMeta)
      → HoldsMetadata host key info stake_mint m
      → IsVerified m
      → IsAdmissible p host pool_key pool stake_mint
          (has_allowed_creator pool (some m) || has_allowed_collection pool (some m))
      → mint_is_allowed host pool_key pool key info stake_mint
          (remaining_accounts_for_authorization p pool_key pool stake_mint (some m) ++ rest)
        ≡ done rest
  unfolding mint_is_allowed remaining_accounts_for_authorization
  mint_is_allowed-accepts key info m rest holds verified admissible =
      let creator : Bool = has_allowed_creator pool (some m) in
      let collection : Bool = has_allowed_collection pool (some m) in
      let start = (==_iff key (host.metadata_address stake_mint)).1 holds.address in
      let said = metadata_allows_lem host pool key info stake_mint m holds in
      let creators = creator_same pool m verified in
      let collections = collection_same pool m verified in
      let always =
        or_or_true (not (is_empty pool.allowed_creators))
          (not (is_empty pool.allowed_collections)) in
      elim (Bool-cases pool.requires_authorization) [
        | inl requires ↦ elim (Bool-cases creator) [
          | inl hit ↦ rw (start, said, creators, requires, always, hit) refl
          | inr miss ↦ elim (Bool-cases collection) [
            | inl hit ↦ rw (start, said, creators, collections, requires, always, miss, hit) refl
            | inr none_allowed ↦
                let (r, found, same_pool, same_mint) =
                  admissible.authorized (rw (miss, none_allowed) refl) requires in
                rw
                  (
                    start,
                    said,
                    creators,
                    collections,
                    requires,
                    always,
                    miss,
                    none_allowed,
                    record_allows_lem r rest found same_pool same_mint,
                  )
                  refl
          ]
        ]
        | inr requires_none ↦ elim (Bool-cases (creator || collection)) [
          | inl hit ↦
              rw (start, said, creators, collections, requires_none, hit)
                (either
                  (not (is_empty pool.allowed_creators)
                    || (not (is_empty pool.allowed_collections) || false))
                  (done rest))
          | inr miss ↦
              let (no_creators, no_collections) = admissible.open_pool miss requires_none in
              rw (start, requires_none, no_creators, no_collections) refl
        ]
      ]
