-- ===== src/Api/Order/Claims.antt =====
-- The order of the methods in the transactions of `claimRewards` (sdk/api.ts).
use discount_program.Common.{
  String, ◌≡◌, refl, sym, ap, ◌∙◌, Option, Option-cases, none, some, inl, inr, List, [], ◌∷◌, ◌++◌,
  Result, ok, ◌>>=◌, Returns, Returns-bind, Returns-mono, Bool-cases, is_some, if◌then◌else◌,
}
use discount_program.Common.Table.{Table, lookup}
use discount_program.Data.{PublicKey, AccountData, RewardDistributor, Transaction}
use discount_program.Packages.{Packages}
use discount_program.Api.Claims.{ClaimMint, distributor_at}
use discount_program.Api.Unstake.{claim_rewards_call}
use discount_program.Api.ClaimRewards.{
  reward_owner, claim_for_owner, claim_rounds_for_owner, claim_transaction,
}
use discount_program.Api.Order.{methods, methods-append, optional-methods, ++_nil, ++_assoc}
use discount_program.Api.Order.Unstake.{round_methods, claim_methods}

module _ (p : Packages) (wallet stake_pool_id : PublicKey) where
  -- The methods of one round.
  abbrev round_of : Table AccountData → PublicKey → List String
  round_of table entry_id =
      if is_some (lookup entry_id table)
      then "claimRewards" ∷ []
      else "initRewardEntry" ∷ "claimRewards" ∷ []

  round_lem :
      (table : Table AccountData) (entry id : PublicKey) (d : RewardDistributor)
      (entry_id : PublicKey) (tx : Transaction) (owner : PublicKey)
      → reward_owner p wallet stake_pool_id (lookup entry table) ≡ ok owner
      → Returns
          (λ ty. methods ty ≡ methods tx ++ round_of table entry_id)
          (claim_for_owner p wallet stake_pool_id table entry id d entry_id tx)
  unfolding claim_for_owner claim_rewards_call
  round_lem table entry id d entry_id tx owner owned =
      elim (Bool-cases (is_some (lookup entry_id table))) [
        | inl there ↦
            rw (owned, there, methods-append, optional-methods p wallet table, methods-append)
              (++_assoc (methods tx) [] ("claimRewards" ∷ []))
        | inr missing ↦
            rw (owned, missing, methods-append, optional-methods p wallet table, methods-append)
              (++_assoc (methods tx) ("initRewardEntry" ∷ []) ("claimRewards" ∷ []))
      ]

  -- One round, and the rounds after it.
  next_lem :
      (round : Result Transaction) (next : Transaction → Result Transaction)
      (before this later : List String)
      → Returns (λ ty. methods ty ≡ before ++ this) round
      → ((ty : Transaction) → Returns (λ tz. methods tz ≡ methods ty ++ later) (next ty))
      → Returns (λ tz. methods tz ≡ before ++ (this ++ later)) (round >>= next)
  next_lem round next before this later h k =
      Returns-bind (λ ty. methods ty ≡ before ++ this)
        (λ tz. methods tz ≡ before ++ (this ++ later)) round next h
        (λ ty named.
          Returns-mono (λ tz. methods tz ≡ methods ty ++ later)
            (λ tz. methods tz ≡ before ++ (this ++ later)) (next ty)
            (λ tz same. same ∙ ap (λ ms. ms ++ later) named ∙ ++_assoc before this later) (k ty))

  rounds_lem :
      (table : Table AccountData) (entry : PublicKey) (ids entry_ids : List PublicKey)
      (tx : Transaction) (owner : PublicKey)
      → reward_owner p wallet stake_pool_id (lookup entry table) ≡ ok owner
      → Returns
          (λ ty. methods ty ≡ methods tx ++ round_methods table ids entry_ids)
          (claim_rounds_for_owner p wallet stake_pool_id table entry ids entry_ids tx)
  unfolding claim_rounds_for_owner
  rounds_lem table entry [] entry_ids tx owner owned = sym (++_nil (methods tx))
  rounds_lem table entry (id ∷ ids) [] tx owner owned = sym (++_nil (methods tx))
  rounds_lem table entry (id ∷ ids) (entry_id ∷ entry_ids) tx owner owned =
      known (λ ty. rounds_lem table entry ids entry_ids ty owner owned) (distributor_at table id)
    where
      next : Option RewardDistributor → Result Transaction
      next o = elim o [
        | none ↦ ok tx
        | some d ↦ claim_for_owner p wallet stake_pool_id table entry id d entry_id tx
      ]

      this : Option RewardDistributor → List String
      this o = elim o [ none ↦ [] | some d ↦ round_of table entry_id ]

      known :
          ((ty : Transaction)
            → Returns
                (λ tz. methods tz ≡ methods ty ++ round_methods table ids entry_ids)
                (claim_rounds_for_owner p wallet stake_pool_id table entry ids entry_ids ty))
          → (o : Option RewardDistributor)
          → Returns
              (λ tz. methods tz ≡ methods tx ++ (this o ++ round_methods table ids entry_ids))
              (next o >>= claim_rounds_for_owner p wallet stake_pool_id table entry ids entry_ids)
      known later none = later tx
      known later (some d) =
          next_lem _ _ (methods tx) (this (some d)) _
            (round_lem table entry id d entry_id tx owner owned) later

  -- Where the stake entry, if it was fetched, can be decoded, the transaction of claimRewards for a
  -- mint is made; if distributors are given it calls updateTotalStakeSeconds and then, for each
  -- distributor that was fetched, initRewardEntry where the reward entry is missing and
  -- claimRewards; otherwise nothing.
  pub claim_transaction-methods :
      (table : Table AccountData) (ids : Option (List PublicKey)) (m : ClaimMint)
      (owner : PublicKey)
      → reward_owner p wallet stake_pool_id (lookup m.stake_entry_id table) ≡ ok owner
      → Returns
          (λ tx. methods tx ≡ claim_methods table ids m)
          (claim_transaction p wallet stake_pool_id table ids m)
  unfolding claim_transaction
  claim_transaction-methods table none m owner owned = refl
  claim_transaction-methods table (some []) m owner owned = refl
  claim_transaction-methods table (some (id ∷ ids)) m owner owned =
      elim (Option-cases m.reward_entry_ids) [
        | inl unset ↦ rw (unset, claim_transaction) refl
        | inr (entry_ids, set) ↦
            rw (set, claim_transaction)
              (rounds_lem table m.stake_entry_id (id ∷ ids) entry_ids _ owner owned)
      ]
