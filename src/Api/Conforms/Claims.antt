-- ===== src/Api/Conforms/Claims.antt =====
-- The transactions of `unstake` and `claimRewards` (sdk/api.ts) conform to the IDL.
use discount_program.Common.{
  Option, none, some, List, [], ◌∷◌, All-append, Bool-cases, Option-cases, inl, inr,
}
use discount_program.Data.{
  PublicKey, AccountData, AccountMeta, Metadata, RewardDistributor, Transaction,
}
use discount_program.Packages.{Packages, Connection}
use discount_program.Common.Table.{Table, lookup}
use discount_program.Api.Claims.{ClaimMint, distributor_at}
use discount_program.Api.Unstake.{
  unstake_calls, claim_round, claim_rounds, claims_of, unstake_transaction, in_cooldown,
}
use discount_program.Api.Conforms.{Conforms, AllConform}
use discount_program.Api.Conforms.Calls.{
  update_total_stake_seconds_call-Conforms, init_reward_entry_call-Conforms,
  unstake_ccs_call-Conforms, unstake_pnft_call-Conforms, unstake_edition_call-Conforms,
  claim_rewards_call-Conforms,
}
use discount_program.Api.Conforms.Transactions.{init-Conform, snoc-Conform, optional-Conform}

module _ (p : Packages) (wallet pool : PublicKey) where
  unstake_calls-Conform :
      (m : ClaimMint) (manager : Option AccountData) (metadata : Option Metadata)
      (metas : List AccountMeta)
      → AllConform (unstake_calls p wallet pool m manager metadata metas)
  unfolding unstake_calls
  unstake_calls-Conform m (some manager) metadata metas =
      (unstake_ccs_call-Conforms p wallet pool metas m, tt)
  unstake_calls-Conform m none none metas =
      (unstake_edition_call-Conforms p wallet pool metas m, tt)
  unstake_calls-Conform m none (some metadata) metas =
      elim (Option-cases metadata.programmable_config) [
        | inl plain ↦ rw plain (unstake_edition_call-Conforms p wallet pool metas m, tt)
        | inr (rule_set, config) ↦
            rw config (tt, (unstake_pnft_call-Conforms p wallet pool metas m rule_set, tt))
      ]

  claim_round-Conform :
      (table : Table AccountData) (entry id : PublicKey) (d : RewardDistributor)
      (reward_entry : PublicKey) (tx : Transaction)
      → AllConform tx
      → AllConform (claim_round p wallet pool table entry id d reward_entry tx)
  unfolding claim_round
  claim_round-Conform table entry id d reward_entry tx h =
      snoc-Conform _ _
        (optional-Conform p wallet table _ _ (
          All-append Conforms tx _ h
            (init-Conform _ _ (init_reward_entry_call-Conforms p wallet id entry))))
        (claim_rewards_call-Conforms p wallet pool _ entry id d _)

  claim_rounds-Conform :
      (table : Table AccountData) (entry : PublicKey) (ids entry_ids : List PublicKey)
      (tx : Transaction)
      → AllConform tx
      → AllConform (claim_rounds p wallet pool table entry ids entry_ids tx)
  unfolding claim_rounds
  claim_rounds-Conform table entry [] entry_ids tx h = h
  claim_rounds-Conform table entry (id ∷ ids) [] tx h = h
  claim_rounds-Conform table entry (id ∷ ids) (e ∷ es) tx h =
      claim_rounds-Conform table entry ids es _ (known (distributor_at table id))
    where
      known :
          (o : Option RewardDistributor)
          → AllConform
              (elim o [ none ↦ tx | some d ↦ claim_round p wallet pool table entry id d e tx ])
      known none = h
      known (some d) = claim_round-Conform table entry id d e tx h

  claims_of-Conform :
      (table : Table AccountData) (ids : Option (List PublicKey)) (m : ClaimMint)
      → AllConform (claims_of p wallet pool table ids m)
  unfolding claims_of
  claims_of-Conform table (some (id ∷ ids)) m = elim (Option-cases m.reward_entry_ids) [
    | inl nothing ↦ rw (nothing, claims_of) tt
    | inr (es, found) ↦ elim (Bool-cases (in_cooldown (lookup m.stake_entry_id table))) [
      | inl cooling ↦ rw (found, claims_of, cooling) tt
      | inr free ↦
          rw (found, claims_of, free)
            (claim_rounds-Conform table m.stake_entry_id (id ∷ ids) es _
              (update_total_stake_seconds_call-Conforms p wallet m.stake_entry_id, tt))
    ]
  ]
  claims_of-Conform table (some []) m = tt
  claims_of-Conform table none m = tt

  pub unstake_transaction-Conform :
      (c : Connection) (table : Table AccountData) (ids : Option (List PublicKey))
      (info : PublicKey) (m : ClaimMint)
      → AllConform (unstake_transaction p wallet pool c table ids info m)
  unfolding unstake_transaction
  unstake_transaction-Conform c table ids info m =
      All-append Conforms _ _
        (optional-Conform p wallet table _ info (claims_of-Conform table ids m))
        (unstake_calls-Conform m _ _ _)
