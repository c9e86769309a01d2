-- ===== src/Api/Order/Stake.antt =====
-- The order of the methods in the transactions of `stake` (sdk/api.ts).
use discount_program.Common.{
  String, Bool, true, false, ◌≡◌, refl, ◌∙◌, Option, none, some, List, [], ◌∷◌, ◌++◌, Result, ok,
  ◌>>=◌, Returns, Option-cases, inl, inr, is_some, if◌then◌else◌,
}
use discount_program.Common.Table.{Table, lookup}
use discount_program.Data.{
  PublicKey, AccountType, IdlAccountData, AccountData, AccountMeta, Metadata, MintManager,
  set_compute_unit_limit, Transaction,
}
use discount_program.Packages.{Packages}
use discount_program.Pda.{find_mint_metadata_id}
use discount_program.Api.Stake.{
  StakeMint, init_entry_call, stake_ccs_call, stake_pnft_call, stake_edition_call, metadata_of,
  stake_calls, stake_transaction,
}
use discount_program.Api.Order.{methods, methods-append, sync-methods}

-- The method that stakes: by the kind of the token.
abbrev pub stake_method : Option AccountData → Option Metadata → String
stake_method (some manager) metadata = "stakeCcs"
stake_method none none = "stakeEdition"
stake_method none (some metadata) = elim metadata.programmable_config [
  | none ↦ "stakeEdition"
  | some rule_set ↦ "stakePnft"
]

module _ (p : Packages) (wallet stake_pool_id : PublicKey) where
  -- The mint manager, if there is one, can be decoded.
  abbrev pub IsDecodable : Option AccountData → Type 0
  IsDecodable none = Unit
  IsDecodable (some a) =
      (manager : MintManager) × (p.mint_manager_from_account_info a.info ≡ ok manager)

  stake_calls-Returns :
      (m : StakeMint) (manager : Option AccountData) (metadata : Option Metadata)
      (metas : List AccountMeta)
      → IsDecodable manager
      → (calls : Transaction) × (stake_calls p wallet stake_pool_id m manager metadata metas
          ≡ ok calls)
        × (methods calls ≡ stake_method manager metadata ∷ [])
  unfolding stake_calls stake_ccs_call stake_pnft_call stake_edition_call
  stake_calls-Returns m (some a) metadata metas (manager, decoded) =
      (stake_ccs_call p wallet stake_pool_id m manager metas ∷ [], rw decoded refl, refl)
  stake_calls-Returns m none none metas d =
      (stake_edition_call p wallet stake_pool_id m metas ∷ [], refl, refl)
  stake_calls-Returns m none (some metadata) metas d =
      elim (Option-cases metadata.programmable_config) [
        | inl unset ↦ (
          stake_edition_call p wallet stake_pool_id m metas ∷ [],
          rw (unset, stake_calls) refl,
          rw (unset, stake_method) refl,
        )
        | inr (rule_set, set) ↦ (
          set_compute_unit_limit 100000000
              ∷ stake_pnft_call p wallet stake_pool_id m rule_set metas
              ∷ [],
          rw (set, stake_calls) refl,
          rw (set, stake_method) refl,
        )
      ]

  init-methods :
      (b : Bool) (m : StakeMint) (metas : List AccountMeta)
      → methods (if b then [] else init_entry_call p wallet stake_pool_id m metas ∷ [])
        ≡ (if b then [] else "initEntry" ∷ [])
  unfolding init_entry_call
  init-methods true m metas = refl
  init-methods false m metas = refl

  -- The last step: the calls that stake are added to what there is.
  add-methods :
      (r : Result Transaction) (tx : Transaction) (before : List String) (name : String)
      → methods tx ≡ before
      → ((calls : Transaction) × (r ≡ ok calls) × (methods calls ≡ name ∷ []))
      → Returns (λ ty. methods ty ≡ before ++ name ∷ []) (r >>= λ calls. ok (tx ++ calls))
  add-methods r tx before name h (calls, made, named) = rw (made, methods-append, h, named) refl

  -- Where the metadata and the mint manager that were fetched can be decoded, the transaction of
  -- stake for a mint is made, and calls initEntry if the stake entry is missing, and then one
  -- method that stakes, by the kind of the token; no other.
  pub stake_transaction-methods :
      (table : Table AccountData) (pool : IdlAccountData AccountType.stake_pool)
      (payment : IdlAccountData AccountType.payment_info) (m : StakeMint)
      (metadata : Option Metadata)
      → metadata_of p wallet stake_pool_id (lookup (find_mint_metadata_id p m.mint_id) table)
        ≡ ok metadata
      → IsDecodable (lookup (p.find_mint_manager_id m.mint_id) table)
      → Returns
          (λ tx.
            methods tx
            ≡ (if is_some (lookup m.stake_entry_id table) then [] else "initEntry" ∷ [])
              ++ stake_method (lookup (p.find_mint_manager_id m.mint_id) table) metadata ∷ [])
          (stake_transaction p wallet stake_pool_id table pool payment m)
  unfolding stake_transaction
  stake_transaction-methods table pool payment m metadata read decodable =
      let manager = lookup (p.find_mint_manager_id m.mint_id) table in
      rw read (
        add-methods _ _ _ (stake_method manager metadata)
          (sync-methods p wallet _ payment.pubkey payment.parsed
            ∙ init-methods (is_some (lookup m.stake_entry_id table)) m _)
          (stake_calls-Returns m manager metadata _ decodable))
