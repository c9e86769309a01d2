-- ===== src/Api/Order/Unstake.antt =====
-- The order of the methods in the transactions of `unstake` (sdk/api.ts).
use discount_program.Common.{
  String, ◌≡◌, refl, sym, ap, ◌∙◌, Option, none, some, List, [], ◌∷◌, ◌++◌, Bool-cases,
  Option-cases, inl, inr, is_some, if◌then◌else◌,
}
use discount_program.Common.Table.{Table, lookup}
use discount_program.Data.{
  PublicKey, AccountData, AccountMeta, RewardDistributor, Metadata, Transaction,
}
use discount_program.Packages.{Packages, Connection}
use discount_program.Pda.{find_mint_metadata_id}
use discount_program.Api.Claims.{ClaimMint, distributor_at}
use discount_program.Api.Unstake.{
  in_cooldown, claim_rewards_call, claim_round, claim_rounds, claims_of, unstake_calls,
  unstake_ccs_call, unstake_pnft_call, unstake_edition_call, unstake_transaction,
}
use discount_program.Api.Order.{methods, methods-append, optional-methods, ++_nil, ++_assoc}

-- A claim from each of the distributors that exist, with its reward entry made first if there is
-- none.
abbrev pub round_methods : Table AccountData → List PublicKey → List PublicKey → List String
round_methods table [] entry_ids = []
round_methods table (id ∷ ids) [] = []
round_methods table (id ∷ ids) (entry_id ∷ entry_ids) =
    (elim (distributor_at table id) [
      | none ↦ []
      | some d ↦
          if is_some (lookup entry_id table)
          then "claimRewards" ∷ []
          else "initRewardEntry" ∷ "claimRewards" ∷ []
    ])
    ++ round_methods table ids entry_ids

-- The claims that come before an unstaking.
abbrev pub claim_methods : Table AccountData → Option (List PublicKey) → ClaimMint → List String
claim_methods table (some (id ∷ ids)) m = elim m.reward_entry_ids [
  | none ↦ []
  | some entry_ids ↦ "updateTotalStakeSeconds" ∷ round_methods table (id ∷ ids) entry_ids
]
claim_methods table (some []) m = []
claim_methods table none m = []

-- The method that unstakes: by the kind of the token.
abbrev pub unstake_method : Option AccountData → Option Metadata → String
unstake_method (some manager) metadata = "unstakeCcs"
unstake_method none none = "unstakeEdition"
unstake_method none (some metadata) = elim metadata.programmable_config [
  | none ↦ "unstakeEdition"
  | some rule_set ↦ "unstakePnft"
]

module _ (p : Packages) (wallet stake_pool_id : PublicKey) where
  round_lem :
      (table : Table AccountData) (entry id : PublicKey) (d : RewardDistributor)
      (entry_id : PublicKey) (tx : Transaction)
      → methods (claim_round p wallet stake_pool_id table entry id d entry_id tx)
        ≡ methods tx
          ++ (if is_some (lookup entry_id table)
              then "claimRewards" ∷ []
              else "initRewardEntry" ∷ "claimRewards" ∷ [])
  unfolding claim_round claim_rewards_call
  round_lem table entry id d entry_id tx = elim (Bool-cases (is_some (lookup entry_id table))) [
    | inl there ↦ rw (there, methods-append, optional-methods p wallet table, ++_nil tx) refl
    | inr missing ↦
        rw (missing, methods-append, optional-methods p wallet table, methods-append)
          (++_assoc (methods tx) ("initRewardEntry" ∷ []) ("claimRewards" ∷ []))
  ]

  rounds_lem :
      (table : Table AccountData) (entry : PublicKey) (ids entry_ids : List PublicKey)
      (tx : Transaction)
      → methods (claim_rounds p wallet stake_pool_id table entry ids entry_ids tx)
        ≡ methods tx ++ round_methods table ids entry_ids
  unfolding claim_rounds
  rounds_lem table entry [] entry_ids tx = sym (++_nil (methods tx))
  rounds_lem table entry (id ∷ ids) [] tx = sym (++_nil (methods tx))
  rounds_lem table entry (id ∷ ids) (entry_id ∷ entry_ids) tx =
      known (rounds_lem table entry ids entry_ids) (distributor_at table id)
    where
      next : Option RewardDistributor → Transaction
      next o = elim o [
        | none ↦ tx
        | some d ↦ claim_round p wallet stake_pool_id table entry id d entry_id tx
      ]

      done : Option RewardDistributor → List String
      done o = elim o [
        | none ↦ []
        | some d ↦
            if is_some (lookup entry_id table)
            then "claimRewards" ∷ []
            else "initRewardEntry" ∷ "claimRewards" ∷ []
      ]

      known :
          ((ty : Transaction)
            → methods (claim_rounds p wallet stake_pool_id table entry ids entry_ids ty)
              ≡ methods ty ++ round_methods table ids entry_ids)
          → (o : Option RewardDistributor)
          → methods (claim_rounds p wallet stake_pool_id table entry ids entry_ids (next o))
            ≡ methods tx ++ (done o ++ round_methods table ids entry_ids)
      known later none = later tx
      known later (some d) =
          later _
          ∙ ap (λ ms. ms ++ round_methods table ids entry_ids)
              (round_lem table entry id d entry_id tx)
          ∙ ++_assoc (methods tx) (done (some d)) (round_methods table ids entry_ids)

  claims_lem :
      (table : Table AccountData) (ids : Option (List PublicKey)) (m : ClaimMint)
      → methods (claims_of p wallet stake_pool_id table ids m)
        ≡ (if in_cooldown (lookup m.stake_entry_id table) then [] else claim_methods table ids m)
  unfolding claims_of
  claims_lem table none m = elim (Bool-cases (in_cooldown (lookup m.stake_entry_id table))) [
    | inl cool ↦ rw cool refl
    | inr warm ↦ rw warm refl
  ]
  claims_lem table (some []) m = elim (Bool-cases (in_cooldown (lookup m.stake_entry_id table))) [
    | inl cool ↦ rw cool refl
    | inr warm ↦ rw warm refl
  ]
  claims_lem table (some (id ∷ ids)) m = elim (Option-cases m.reward_entry_ids) [
    | inl unset ↦ elim (Bool-cases (in_cooldown (lookup m.stake_entry_id table))) [
      | inl cool ↦ rw (unset, claims_of, cool) refl
      | inr warm ↦ rw (unset, claims_of, warm) refl
    ]
    | inr (entry_ids, set) ↦ elim (Bool-cases (in_cooldown (lookup m.stake_entry_id table))) [
      | inl cool ↦ rw (set, claims_of, cool) refl
      | inr warm ↦
          rw (set, claims_of, warm) (rounds_lem table m.stake_entry_id (id ∷ ids) entry_ids _)
    ]
  ]

  calls_lem :
      (m : ClaimMint) (manager : Option AccountData) (metadata : Option Metadata)
      (metas : List AccountMeta)
      → methods (unstake_calls p wallet stake_pool_id m manager metadata metas)
        ≡ unstake_method manager metadata ∷ []
  unfolding unstake_calls unstake_ccs_call unstake_pnft_call unstake_edition_call
  calls_lem m (some manager) metadata metas = refl
  calls_lem m none none metas = refl
  calls_lem m none (some metadata) metas = elim (Option-cases metadata.programmable_config) [
    | inl unset ↦ rw (unset, unstake_method) refl
    | inr (rule_set, set) ↦ rw (set, unstake_method) refl
  ]

  -- The transaction of unstake for a mint calls, in this order, nothing for the claims if the stake
  -- entry is in its cooldown, or else (if distributors are given) updateTotalStakeSeconds and, for
  -- each distributor that was fetched, initRewardEntry where the reward entry is missing and
  -- claimRewards; and last one method that unstakes, by the kind of the token. So it is for every
  -- table of fetched accounts.
  pub unstake_transaction-methods :
      (c : Connection) (table : Table AccountData) (ids : Option (List PublicKey))
      (payment : PublicKey) (m : ClaimMint)
      → methods (unstake_transaction p wallet stake_pool_id c table ids payment m)
        ≡ (if in_cooldown (lookup m.stake_entry_id table) then [] else claim_methods table ids m)
          ++ unstake_method
              (lookup (p.find_mint_manager_id m.mint_id) table)
              (c.try_metadata_from_account_address (find_mint_metadata_id p m.mint_id))
            ∷ []
  unfolding unstake_transaction
  unstake_transaction-methods c table ids payment m =
      rw (methods-append, optional-methods p wallet table, calls_lem m, claims_lem table ids m) refl
