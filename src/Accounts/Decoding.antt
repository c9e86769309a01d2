-- ===== src/Accounts/Decoding.antt =====
-- What `decodeAccountInfos` of sdk/accounts.ts holds under each id.
use discount_program.Common.{
  ℕ, ◌≡◌, refl, ◌==◌, Option, none, some, List, [], ◌∷◌, if◌then◌else◌, arith, map, any,
}
use discount_program.Common.Table.{Table, lookup, insert, lookup-insert, or_else}
use discount_program.Data.{PublicKey, AccountInfo, AccountData}
use discount_program.Packages.{Packages}
use discount_program.Accounts.{decode_account_info, decode_account_infos_from, decode_account_infos}

-- The last account that stands at the place of the id, read by itself.
abbrev pub last_decoded :
    Packages → ℕ → PublicKey → List PublicKey → List (Option AccountInfo) → Option AccountData
last_decoded p now k [] infos = none
last_decoded p now k (id ∷ ids) [] = none
last_decoded p now k (id ∷ ids) (none ∷ infos) = last_decoded p now k ids infos
last_decoded p now k (id ∷ ids) (some info ∷ infos) =
    or_else (last_decoded p now k ids infos)
      (if id == k then some (decode_account_info p now id info) else none)

module _ (p : Packages) (now : ℕ) (k : PublicKey) where
  lookup-decode_from :
      (acc : Table AccountData) (ids : List PublicKey) (infos : List (Option AccountInfo))
      → lookup k (decode_account_infos_from p now acc ids infos)
        ≡ or_else (last_decoded p now k ids infos) (lookup k acc)
  unfolding decode_account_infos_from
  lookup-decode_from acc [] infos = refl
  lookup-decode_from acc (id ∷ ids) [] = refl
  lookup-decode_from acc (id ∷ ids) (none ∷ infos) = lookup-decode_from acc ids infos
  lookup-decode_from acc (id ∷ ids) (some info ∷ infos) = ground (
    arith,
    lookup-decode_from (insert id (decode_account_info p now id info) acc) ids infos,
    lookup-insert id k (decode_account_info p now id info) acc,
  )

  -- The table that decodeAccountInfos builds holds, under an id, the decoding of the last account
  -- that is not null at a place of that id, and nothing under an id with no such place.
  pub lookup-decode_account_infos :
      (ids : List PublicKey) (infos : List (Option AccountInfo))
      → lookup k (decode_account_infos p now ids infos) ≡ last_decoded p now k ids infos
  unfolding decode_account_infos
  lookup-decode_account_infos ids infos = ground (arith, lookup-decode_from [] ids infos)

  -- Where the infos are the answers of one state of the chain, the accounts are read off the chain.
  pub last_decoded-map :
      (chain : PublicKey → Option AccountInfo) (ids : List PublicKey)
      → last_decoded p now k ids (map chain ids) ≡ (
          if any (λ id. id == k) ids
          then elim (chain k) [ none ↦ none | some info ↦ some (decode_account_info p now k info) ]
          else none)
  last_decoded-map chain [] = refl
  last_decoded-map chain (id ∷ ids) = ground (arith, last_decoded-map chain ids)
