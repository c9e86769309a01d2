-- ===== src/Accounts/Fetching.antt =====
-- `fetchIdlAccountDataById` of sdk/accounts.ts against the chain that it reads.
use discount_program.Common.{
  ◌≡◌, ◌∙◌, ◌≢◌, ◌==◌, Option, none, some, List, if◌then◌else◌, arith, map, any, somes, Bool,
}
use discount_program.Common.Table.{lookup}
use discount_program.Data.{PublicKey, AccountInfo, AccountData, unknown}
use discount_program.Packages.{Packages, Connection}
use discount_program.Constants.{rewards_center_address}
use discount_program.Accounts.{decode_account_info, fetch_idl_account_data_by_id}
use discount_program.Accounts.Decoding.{lookup-decode_account_infos, last_decoded-map}

-- `getBatchedMultipleAccounts` answers each id in turn, from one state of the chain.
pub record Answers (c : Connection) (chain : PublicKey → Option AccountInfo) : Type 0 where
  pub batched : (ids : List PublicKey) → c.get_batched_multiple_accounts ids ≡ map chain ids

-- `id` is among the ids that are asked for.
abbrev pub asked : PublicKey → List (Option PublicKey) → Bool
asked k ids = any (λ id. id == k) (somes ids)

module _ (p : Packages) (c : Connection) (chain : PublicKey → Option AccountInfo)
    (ans : Answers c chain) where
  -- Where the connection answers each id from one state of the chain, the table that a fetch of a
  -- list of ids gives holds, under an id, the decoding of that account if the id is in the list and
  -- the account exists on the chain, and nothing otherwise; null ids are passed over.
  pub lookup-fetch :
      (ids : List (Option PublicKey)) (k : PublicKey)
      → lookup k (fetch_idl_account_data_by_id p c ids) ≡ (
          if asked k ids
          then elim (chain k) [
            | none ↦ none
            | some info ↦ some (decode_account_info p c.now k info)
          ]
          else none)
  unfolding fetch_idl_account_data_by_id
  lookup-fetch ids k = rw (ans.batched (somes ids)) (
      lookup-decode_account_infos p c.now k (somes ids) (map chain (somes ids))
      ∙ last_decoded-map p c.now k chain (somes ids))

  -- Where the connection answers from one state of the chain, an account of the fetched table that
  -- the program does not own is the chain's own, under its id, and is never decoded: whatever its
  -- bytes, parsed is null.
  pub foreign_unknown :
      (ids : List (Option PublicKey)) (k : PublicKey) (a : AccountData)
      → lookup k (fetch_idl_account_data_by_id p c ids) ≡ some a
      → a.info.owner ≢ rewards_center_address p
      → (a.pubkey ≡ k) × (chain k ≡ some a.info) × (a.parsed ≡ unknown)
  unfolding decode_account_info
  foreign_unknown ids k a found foreign = ground (arith, lookup-fetch ids k)
