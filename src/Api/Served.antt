-- ===== src/Api/Served.antt =====
-- Which transactions of sdk/api.ts the program (programs/rewards-center/src/lib.rs) serves.
use discount_program.Common.{
  ℕ, String, Bool, true, false, ◌&&◌, ◌≡◌, refl, ap, ◌∙◌, Option, Option-cases, none, some, inl,
  inr, List, [], ◌∷◌, ◌++◌, Result, Returns, Returns-map, Bool-cases, ok, is_some, if◌then◌else◌,
}
use discount_program.Common.Table.{Table, lookup}
use discount_program.Data.{
  PublicKey, AccountType, IdlAccountData, AccountData, Metadata, ReceiptManager, StakeBooster,
  Transaction,
}
use discount_program.Packages.{Packages, Connection}
use discount_program.Pda.{find_mint_metadata_id}
use discount_program.Api.Claims.{ClaimMint, distributor_at}
use discount_program.Api.Unstake.{in_cooldown, unstake_transaction}
use discount_program.Api.Stake.{StakeMint, stake_transaction, metadata_of}
use discount_program.Api.ClaimRewards.{reward_owner, claim_transaction}
use discount_program.Api.Order.{methods}
use discount_program.Api.Order.Unstake.{
  round_methods, claim_methods, unstake_method, unstake_transaction-methods,
}
use discount_program.Api.Order.Stake.{stake_method, IsDecodable, stake_transaction-methods}
use discount_program.Api.Order.Claims.{claim_transaction-methods}
use discount_program.Pda.{find_stake_pool_id, find_stake_booster_id}
use discount_program.Accounts.{fetch_idl_account_data_by_id}
use discount_program.Api.Mints.{MintInfo}
use discount_program.Api.Actions.{
  is_parsed, check_receipt_manager, check_stake_booster, booster_identifier, claim_reward_receipt,
  boost,
}
use discount_program.Api.Order.Actions.{
  fetched_table, receipt_of, claim_reward_receipt-methods, boost-methods,
}
use discount_program.Constants.{rewards_center_idl}
use discount_program.Program.Entrypoints.{serves, serves_all}

-- A programmable NFT: it has no mint manager, and its metadata have a configuration.
abbrev pub is_programmable : Option AccountData → Option Metadata → Bool
is_programmable (some manager) metadata = false
is_programmable none none = false
is_programmable none (some metadata) = is_some metadata.programmable_config

serves_all-append : (xs ys : List String) → serves_all (xs ++ ys) ≡ (serves_all xs && serves_all ys)
serves_all-append [] ys = refl
serves_all-append (x ∷ xs) ys = elim (Bool-cases (serves x)) [
  | inl is ↦ rw is (serves_all-append xs ys)
  | inr is ↦ rw is refl
]

round-Served :
    (table : Table AccountData) (ids entry_ids : List PublicKey)
    → serves_all (round_methods table ids entry_ids) ≡ true
unfolding serves
round-Served table [] entry_ids = refl
round-Served table (id ∷ ids) [] = refl
round-Served table (id ∷ ids) (entry_id ∷ entry_ids) =
    elim (Option-cases (distributor_at table id)) [
      | inl missing ↦ rw missing (round-Served table ids entry_ids)
      | inr (d, found) ↦ elim (Bool-cases (is_some (lookup entry_id table))) [
        | inl old ↦ rw (found, old) (round-Served table ids entry_ids)
        | inr new ↦ rw (found, new) (round-Served table ids entry_ids)
      ]
    ]

claims-Served :
    (table : Table AccountData) (ids : Option (List PublicKey)) (m : ClaimMint)
    → serves_all (claim_methods table ids m) ≡ true
unfolding serves
claims-Served table none m = refl
claims-Served table (some []) m = refl
claims-Served table (some (id ∷ ids)) m = elim (Option-cases m.reward_entry_ids) [
  | inl unset ↦ rw unset refl
  | inr (entry_ids, set) ↦ rw set (round-Served table (id ∷ ids) entry_ids)
]

unstake_method-Served :
    (manager : Option AccountData) (metadata : Option Metadata)
    → serves_all (unstake_method manager metadata ∷ []) ≡ is_programmable manager metadata
unfolding serves
unstake_method-Served (some manager) metadata = refl
unstake_method-Served none none = refl
unstake_method-Served none (some metadata) = elim (Option-cases metadata.programmable_config) [
  | inl unset ↦ rw unset refl
  | inr (rule_set, set) ↦ rw set refl
]

stake_method-Served :
    (manager : Option AccountData) (metadata : Option Metadata)
    → serves_all (stake_method manager metadata ∷ []) ≡ is_programmable manager metadata
unfolding serves
stake_method-Served (some manager) metadata = refl
stake_method-Served none none = refl
stake_method-Served none (some metadata) = elim (Option-cases metadata.programmable_config) [
  | inl unset ↦ rw unset refl
  | inr (rule_set, set) ↦ rw set refl
]

init-Served : (present : Bool) → serves_all (if present then [] else "initEntry" ∷ []) ≡ true
unfolding serves
init-Served true = refl
init-Served false = refl

first_lem :
    (cooling : Bool) (table : Table AccountData) (ids : Option (List PublicKey)) (m : ClaimMint)
    → serves_all (if cooling then [] else claim_methods table ids m) ≡ true
first_lem true table ids m = refl
first_lem false table ids m = claims-Served table ids m

-- The methods of claimRewardReceipt.
abbrev receipt_names : (present : Bool) → List String
receipt_names present =
    ("updateTotalStakeSeconds" ∷ (if present then [] else "initRewardReceipt" ∷ []))
    ++ "claimRewardReceipt" ∷ []

receipt-Unserved : (present : Bool) → serves_all (receipt_names present) ≡ false
unfolding serves
receipt-Unserved true = refl
receipt-Unserved false = refl

boost_name-Unserved : serves_all ("updateTotalStakeSeconds" ∷ "boostStakeEntry" ∷ []) ≡ false
unfolding serves
boost_name-Unserved = refl

served_when :
    (r : Result Transaction) (ms : List String) (b : Bool)
    → serves_all ms ≡ b
    → Returns (λ tx. methods tx ≡ ms) r
    → Returns (λ tx. serves_all (methods tx) ≡ b) r
served_when r ms b served h =
    Returns-map (λ tx. methods tx ≡ ms) (λ tx. serves_all (methods tx) ≡ b) r
      (λ tx is. ap serves_all is ∙ served) h

module _ (p : Packages) (wallet stake_pool_id : PublicKey) where
  -- Where the metadata and the mint manager that were fetched can be decoded, the transaction of
  -- stake is made, and the program serves all its instructions exactly if the mint has no mint
  -- manager and its metadata have a programmable configuration.
  pub stake_transaction-Served :
      (table : Table AccountData) (pool : IdlAccountData AccountType.stake_pool)
      (payment : IdlAccountData AccountType.payment_info) (m : StakeMint)
      (metadata : Option Metadata)
      → metadata_of p wallet stake_pool_id (lookup (find_mint_metadata_id p m.mint_id) table)
        ≡ ok metadata
      → IsDecodable p wallet stake_pool_id (lookup (p.find_mint_manager_id m.mint_id) table)
      → Returns
          (λ tx.
            serves_all (methods tx)
            ≡ is_programmable (lookup (p.find_mint_manager_id m.mint_id) table) metadata)
          (stake_transaction p wallet stake_pool_id table pool payment m)
  stake_transaction-Served table pool payment m metadata read decodable =
      let manager = lookup (p.find_mint_manager_id m.mint_id) table in
      let start : List String =
        if is_some (lookup m.stake_entry_id table) then [] else "initEntry" ∷ [] in
      served_when (stake_transaction p wallet stake_pool_id table pool payment m)
        (start ++ stake_method manager metadata ∷ []) (is_programmable manager metadata)
        (serves_all-append start (stake_method manager metadata ∷ [])
          ∙ ap (λ b. b && serves_all (stake_method manager metadata ∷ []))
              (init-Served (is_some (lookup m.stake_entry_id table)))
          ∙ stake_method-Served manager metadata)
        (stake_transaction-methods p wallet stake_pool_id table pool payment m metadata read
          decodable)

  -- The program serves all instructions of the transaction of unstake exactly if the mint has no
  -- mint manager and its metadata have a programmable configuration.
  pub unstake_transaction-Served :
      (c : Connection) (table : Table AccountData) (ids : Option (List PublicKey))
      (payment : PublicKey) (m : ClaimMint)
      → serves_all (methods (unstake_transaction p wallet stake_pool_id c table ids payment m))
        ≡ is_programmable
            (lookup (p.find_mint_manager_id m.mint_id) table)
            (c.try_metadata_from_account_address (find_mint_metadata_id p m.mint_id))
  unstake_transaction-Served c table ids payment m =
      let manager = lookup (p.find_mint_manager_id m.mint_id) table in
      let metadata = c.try_metadata_from_account_address (find_mint_metadata_id p m.mint_id) in
      let first : List String =
        if in_cooldown (lookup m.stake_entry_id table) then [] else claim_methods table ids m in
      ap serves_all (unstake_transaction-methods p wallet stake_pool_id c table ids payment m)
      ∙ serves_all-append first (unstake_method manager metadata ∷ [])
      ∙ ap (λ b. b && serves_all (unstake_method manager metadata ∷ []))
          (first_lem (in_cooldown (lookup m.stake_entry_id table)) table ids m)
      ∙ unstake_method-Served manager metadata

  -- Where the stake entry, if it was fetched, can be decoded, the transaction of claimRewards is
  -- made, and the program serves all its instructions.
  pub claim_transaction-Served :
      (table : Table AccountData) (ids : Option (List PublicKey)) (m : ClaimMint)
      (owner : PublicKey)
      → reward_owner p wallet stake_pool_id (lookup m.stake_entry_id table) ≡ ok owner
      → Returns
          (λ tx. serves_all (methods tx) ≡ true)
          (claim_transaction p wallet stake_pool_id table ids m)
  claim_transaction-Served table ids m owner owned =
      served_when (claim_transaction p wallet stake_pool_id table ids m) (claim_methods table ids m)
        true (claims-Served table ids m)
        (claim_transaction-methods p wallet stake_pool_id table ids m owner owned)

module _ (p : Packages) (c : Connection) (wallet : PublicKey) where
  claim_reward_receipt-Unserved :
      (identifier : String) (info : MintInfo) (manager_id : PublicKey) (manager : ReceiptManager)
      (payment : IdlAccountData AccountType.payment_info)
      → check_receipt_manager (fetched_table p c wallet identifier info manager_id) manager_id
        ≡ ok manager
      → c.fetch_idl_account AccountType.payment_info manager.claim_action_payment_info
          rewards_center_idl
        ≡ ok payment
      → Returns
          (λ tx. serves_all (methods tx) ≡ false)
          (claim_reward_receipt p c wallet identifier info manager_id)
  claim_reward_receipt-Unserved identifier info manager_id manager payment checked fetched =
      let present : Bool = is_parsed (
        lookup (receipt_of p c wallet identifier info manager_id)
          (fetched_table p c wallet identifier info manager_id)) in
      served_when (claim_reward_receipt p c wallet identifier info manager_id)
        (receipt_names present) false (receipt-Unserved present)
        (claim_reward_receipt-methods p c wallet identifier info manager_id manager payment checked
          fetched)

  boost-Unserved :
      (identifier : String) (info : MintInfo) (seconds : ℕ) (booster_number : Option ℕ)
      (booster_id : PublicKey) (booster : StakeBooster)
      (payment : IdlAccountData AccountType.payment_info)
      → find_stake_booster_id p
          (find_stake_pool_id p identifier)
          (booster_identifier booster_number)
        ≡ booster_id
      → check_stake_booster (fetch_idl_account_data_by_id p c (some booster_id ∷ [])) booster_id
        ≡ ok booster
      → c.fetch_idl_account AccountType.payment_info booster.boost_action_payment_info
          rewards_center_idl
        ≡ ok payment
      → Returns
          (λ tx. serves_all (methods tx) ≡ false)
          (boost p c wallet identifier info seconds booster_number)
  boost-Unserved identifier info seconds booster_number booster_id booster payment same checked
        fetched =
      served_when (boost p c wallet identifier info seconds booster_number)
        ("updateTotalStakeSeconds" ∷ "boostStakeEntry" ∷ []) false boost_name-Unserved
        (boost-methods p c wallet identifier info seconds booster_number booster_id booster payment
          same checked fetched)

  -- Where the receipt manager and the booster of the given number are found, and their payment
  -- infos can be fetched, the transactions of claimRewardReceipt and of boost are made, and each
  -- has an instruction that the program does not serve.
  pub actions-Unserved :
      (identifier : String) (info : MintInfo) (manager_id : PublicKey) (manager : ReceiptManager)
      (seconds : ℕ) (booster_number : Option ℕ) (booster_id : PublicKey) (booster : StakeBooster)
      (claim_payment boost_payment : IdlAccountData AccountType.payment_info)
      → check_receipt_manager (fetched_table p c wallet identifier info manager_id) manager_id
        ≡ ok manager
      → c.fetch_idl_account AccountType.payment_info manager.claim_action_payment_info
          rewards_center_idl
        ≡ ok claim_payment
      → find_stake_booster_id p
          (find_stake_pool_id p identifier)
          (booster_identifier booster_number)
        ≡ booster_id
      → check_stake_booster (fetch_idl_account_data_by_id p c (some booster_id ∷ [])) booster_id
        ≡ ok booster
      → c.fetch_idl_account AccountType.payment_info booster.boost_action_payment_info
          rewards_center_idl
        ≡ ok boost_payment
      → Returns
          (λ tx. serves_all (methods tx) ≡ false)
          (claim_reward_receipt p c wallet identifier info manager_id)
        × Returns
            (λ tx. serves_all (methods tx) ≡ false)
            (boost p c wallet identifier info seconds booster_number)
  actions-Unserved identifier info manager_id manager seconds booster_number booster_id booster
        claim_payment boost_payment found fetched same checked fetched_boost =
      (
        claim_reward_receipt-Unserved identifier info manager_id manager claim_payment found
            fetched,
        boost-Unserved identifier info seconds booster_number booster_id booster boost_payment same
            checked fetched_boost,
      )
