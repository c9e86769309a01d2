-- ===== src/Api/Missing.antt =====
-- What the functions of sdk/api.ts do where the account that they are about is not on the chain, or
-- is something else.
use discount_program.Common.{
  ℕ, String, Bool, true, false, ◌≡◌, refl, ◌∙◌, ==_refl, Option, Option-cases, none, some, inl, inr,
  List, [], ◌∷◌, arith, ap, throw, Error, Result, stake_pool_not_found, receipt_manager_not_found,
  stake_booster_not_found, ◌>>=◌,
}
use discount_program.Common.Table.{Table, lookup}
use discount_program.Data.{PublicKey, AccountInfo, AccountData, Parsed}
use discount_program.Packages.{Packages, Connection}
use discount_program.Pda.{find_stake_pool_id, find_stake_booster_id}
use discount_program.Accounts.{decode_account_info, fetch_idl_account_data_by_id}
use discount_program.Accounts.Fetching.{Answers, lookup-fetch}
use discount_program.Api.Mints.{MintInfo, check_stake_pool}
use discount_program.Api.Stake.{stake, stake_ids}
use discount_program.Api.Unstake.{unstake, unstake_ids}
use discount_program.Api.Actions.{
  check_receipt_manager, check_stake_booster, booster_identifier, claim_reward_receipt, boost,
}

-- What an account of the chain is read as; nothing where there is none.
abbrev pub read_account :
    Packages → Connection → (PublicKey → Option AccountInfo) → PublicKey → Option Parsed
read_account p c chain k = elim (chain k) [
  | none ↦ none
  | some info ↦ some (decode_account_info p c.now k info).parsed
]

abbrev pub is_stake_pool : Option Parsed → Bool
is_stake_pool (some (Parsed.stake_pool _)) = true
is_stake_pool _ = false

abbrev pub is_receipt_manager : Option Parsed → Bool
is_receipt_manager (some (Parsed.receipt_manager _)) = true
is_receipt_manager _ = false

abbrev pub is_stake_booster : Option Parsed → Bool
is_stake_booster (some (Parsed.stake_booster _)) = true
is_stake_booster _ = false

abbrev parsed_of : Option AccountData → Option Parsed
parsed_of none = none
parsed_of (some a) = some a.parsed

abbrev parsed_at : Table AccountData → PublicKey → Option Parsed
parsed_at table k = parsed_of (lookup k table)

pool_lem :
    (table : Table AccountData) (k : PublicKey)
    → is_stake_pool (parsed_at table k) ≡ false
    → check_stake_pool table k ≡ throw stake_pool_not_found
unfolding check_stake_pool
pool_lem table k h = ground (arith, h)

manager_lem :
    (table : Table AccountData) (k : PublicKey)
    → is_receipt_manager (parsed_at table k) ≡ false
    → check_receipt_manager table k ≡ throw receipt_manager_not_found
unfolding check_receipt_manager
manager_lem table k h = ground (arith, h)

booster_lem :
    (table : Table AccountData) (k : PublicKey)
    → is_stake_booster (parsed_at table k) ≡ false
    → check_stake_booster table k ≡ throw stake_booster_not_found
unfolding check_stake_booster
booster_lem table k h = ground (arith, h)

-- A step that throws ends the run.
fails :
    {A B : Type 0} {e : Error} (r : Result A) (next : A → Result B)
    → r ≡ throw e
    → (r >>= next) ≡ throw e
fails r next h = rw h refl

module _ (p : Packages) (c : Connection) (chain : PublicKey → Option AccountInfo)
    (ans : Answers c chain) where
  parsed_at_lem :
      (k : PublicKey) (ids : List (Option PublicKey))
      → parsed_at (fetch_idl_account_data_by_id p c (some k ∷ ids)) k ≡ read_account p c chain k
  parsed_at_lem k ids =
      ap parsed_of (lookup-fetch p c chain ans (some k ∷ ids) k)
      ∙ rw (==_refl k) (elim (Option-cases (chain k)) [
        | inl missing ↦ rw (missing, read_account) refl
        | inr (info, found) ↦ rw (found, read_account) refl
      ])

  pool_fetched :
      (k : PublicKey) (ids : List (Option PublicKey))
      → is_stake_pool (read_account p c chain k) ≡ false
      → check_stake_pool (fetch_idl_account_data_by_id p c (some k ∷ ids)) k
        ≡ throw stake_pool_not_found
  pool_fetched k ids h = pool_lem _ k (ap is_stake_pool (parsed_at_lem k ids) ∙ h)

  manager_fetched :
      (k : PublicKey) (ids : List (Option PublicKey))
      → is_receipt_manager (read_account p c chain k) ≡ false
      → check_receipt_manager (fetch_idl_account_data_by_id p c (some k ∷ ids)) k
        ≡ throw receipt_manager_not_found
  manager_fetched k ids h = manager_lem _ k (ap is_receipt_manager (parsed_at_lem k ids) ∙ h)

  booster_fetched :
      (k : PublicKey) (ids : List (Option PublicKey))
      → is_stake_booster (read_account p c chain k) ≡ false
      → check_stake_booster (fetch_idl_account_data_by_id p c (some k ∷ ids)) k
        ≡ throw stake_booster_not_found
  booster_fetched k ids h = booster_lem _ k (ap is_stake_booster (parsed_at_lem k ids) ∙ h)

  -- Where the connection answers from one state of the chain, and the accounts of the pool, of the
  -- receipt manager and of the booster are missing there or are something else, stake and unstake
  -- throw that the pool is not found, claimRewardReceipt that the receipt manager is not found, and
  -- boost that the booster is not found.
  pub missing_account_throws :
      (wallet : PublicKey) (identifier : String) (infos : List MintInfo) (info : MintInfo)
      (distributors : Option (List PublicKey)) (manager : PublicKey) (seconds : ℕ)
      (booster : Option ℕ)
      → is_stake_pool (read_account p c chain (find_stake_pool_id p identifier)) ≡ false
      → is_receipt_manager (read_account p c chain manager) ≡ false
      → is_stake_booster (
          read_account p c chain (
            find_stake_booster_id p (find_stake_pool_id p identifier) (booster_identifier booster)))
        ≡ false
      → (stake p c wallet identifier infos ≡ throw stake_pool_not_found)
        × (unstake p c wallet identifier infos distributors ≡ throw stake_pool_not_found)
        × (claim_reward_receipt p c wallet identifier info manager
            ≡ throw receipt_manager_not_found)
        × (boost p c wallet identifier info seconds booster ≡ throw stake_booster_not_found)
  unfolding stake unstake claim_reward_receipt boost stake_ids unstake_ids
  missing_account_throws wallet identifier infos info distributors manager seconds booster no_pool
        no_manager no_booster =
      (
        fails _ _ (pool_fetched (find_stake_pool_id p identifier) _ no_pool),
        fails _ _ (pool_fetched (find_stake_pool_id p identifier) _ no_pool),
        fails _ _ (manager_fetched manager _ no_manager),
        fails _ _ (
            booster_fetched
              (find_stake_booster_id p (find_stake_pool_id p identifier)
                (booster_identifier booster))
              [] no_booster),
      )
