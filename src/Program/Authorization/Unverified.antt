-- ===== src/Program/Authorization/Unverified.antt =====
-- A creator that is not verified: `remainingAccountsForAuthorization` (sdk/authorization.ts) takes
-- it, `mint_is_allowed` (programs/rewards-center/src/authorization/state.rs) does not.
use discount_program.Common.{
  Bool, true, false, not, ◌&&◌, ◌≡◌, refl, ==_iff, none, some, List, [], ◌∷◌, ◌++◌, any, All,
}
use discount_program.Data.{PublicKey, StakePool, Metadata, Creator, AccountInfo, AccountMeta}
use discount_program.Packages.{Packages}
use discount_program.Authorization.{
  includes, has_allowed_creator, remaining_accounts_for_authorization,
}
use discount_program.Program.Outcome.{
  err, not_enough_account_keys, invalid_stake_authorization_record,
}
use discount_program.Program.Authorization.{
  MintHost, is_empty, creator_allows, collection_allows, record_allows, mint_is_allowed,
}
use discount_program.Program.Authorization.Accepted.{HoldsMetadata, metadata_allows_lem, or_or_true}

and_false : (b : Bool) → (b && false) ≡ false
and_false true = refl
and_false false = refl

none_verified :
    (f : PublicKey → Bool) (cs : List Creator)
    → All (λ c. c.verified ≡ false) cs
    → any (λ c. f c.address && c.verified) cs ≡ false
none_verified f [] h = refl
none_verified f (c ∷ cs) (v, vs) = rw (v, and_false (f c.address)) (none_verified f cs vs)

module _ (pool : StakePool) (m : Metadata) (cs : List Creator) (listed : m.creators ≡ some cs)
    (unverified : All (λ c. c.verified ≡ false) cs) where
  creator_refused : creator_allows pool m ≡ false
  unfolding creator_allows
  creator_refused =
      rw
        (
          listed,
          none_verified (includes pool.allowed_creators) cs unverified,
          and_false (not (is_empty pool.allowed_creators)),
        )
        refl

collection_refused :
    (pool : StakePool) (m : Metadata) → m.collection ≡ none → collection_allows pool m ≡ false
unfolding collection_allows
collection_refused pool m unset = rw unset refl

module _ (p : Packages) (host : MintHost) (pool_key : PublicKey) (pool : StakePool)
    (stake_mint : PublicKey) where
  -- For a pool that requires authorization and a mint whose metadata account is its own, with no
  -- collection and creators of which none is verified and one is allowed, mint_is_allowed fails on
  -- the accounts that remainingAccountsForAuthorization lists: for want of an account if none
  -- follows, and for an invalid record if an account follows that is no authorization record.
  pub unverified_refused :
      (key : PublicKey) (info : AccountInfo) (m : Metadata) (cs : List Creator) (a : AccountMeta)
      (rest : List AccountMeta)
      → HoldsMetadata host key info stake_mint m
      → pool.requires_authorization ≡ true
      → m.creators ≡ some cs
      → All (λ c. c.verified ≡ false) cs
      → m.collection ≡ none
      → has_allowed_creator pool (some m) ≡ true
      → host.authorization_record a.pubkey ≡ none
      → (mint_is_allowed host pool_key pool key info stake_mint
            (remaining_accounts_for_authorization p pool_key pool stake_mint (some m))
          ≡ err not_enough_account_keys)
        × (mint_is_allowed host pool_key pool key info stake_mint
              (remaining_accounts_for_authorization p pool_key pool stake_mint (some m) ++ a ∷ rest)
            ≡ err invalid_stake_authorization_record)
  unfolding mint_is_allowed remaining_accounts_for_authorization record_allows
  unverified_refused key info m cs a rest holds requires listed unverified unset allowed
        none_there =
      let start = (==_iff key (host.metadata_address stake_mint)).1 holds.address in
      let said = metadata_allows_lem host pool key info stake_mint m holds in
      let creator = creator_refused pool m cs listed unverified in
      let collection = collection_refused pool m unset in
      let always =
        or_or_true (not (is_empty pool.allowed_creators))
          (not (is_empty pool.allowed_collections)) in
      (
        rw (start, said, allowed, creator, collection, requires, always) refl,
        rw (start, said, allowed, creator, collection, requires, always, none_there) refl,
      )
