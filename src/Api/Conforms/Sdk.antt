-- ===== src/Api/Conforms/Sdk.antt =====
-- What the five functions of sdk/api.ts send conforms to the IDL.
use discount_program.Common.{
  ℕ, String, Bool, Option, none, some, List, [], ◌∷◌, ◌++◌, Result, ok, throw, ◌>>=◌, Ensures,
  Ensures-bind, for_each-Ensures, All, All-append, All-map, Option-cases, inl, inr,
}
use discount_program.Data.{
  PublicKey, AccountData, AccountMeta, RewardDistributor, Instruction, Transaction,
}
use discount_program.Packages.{Packages, Connection}
use discount_program.Common.Table.{Table}
use discount_program.Api.Stake.{stake}
use discount_program.Api.Claims.{ClaimMint, distributor_at}
use discount_program.Api.Unstake.{unstake}
use discount_program.Api.ClaimRewards.{
  reward_owner, claim_for_owner, claim_rounds_for_owner, claim_transaction, claim_rewards,
}
use discount_program.Api.Actions.{claim_reward_receipt, boost}
use discount_program.Api.Conforms.{Conforms, AllConform}
use discount_program.Api.Conforms.Calls.{
  update_total_stake_seconds_call-Conforms, init_reward_entry_call-Conforms,
  init_reward_receipt_call-Conforms, claim_reward_receipt_call-Conforms,
  boost_stake_entry_call-Conforms, claim_rewards_call-Conforms,
}
use discount_program.Api.Conforms.Transactions.{
  init-Conform, snoc-Conform, optional-Conform, payment-Conform, async-Conform, stake-Conform,
}
use discount_program.Api.Conforms.Claims.{unstake_transaction-Conform}
use discount_program.Api.Mints.{MintInfo, check_stake_pool, stake_entry_id_of}
use discount_program.Pda.{find_stake_pool_id}
use discount_program.Api.Actions.{check_receipt_manager, check_stake_booster}
use discount_program.Accounts.{fetch_idl_account}

module _ (p : Packages) (wallet pool : PublicKey) where
  claim_for_owner-Conform :
      (table : Table AccountData) (entry id : PublicKey) (d : RewardDistributor)
      (reward_entry : PublicKey) (tx : Transaction)
      → AllConform tx
      → Ensures AllConform (claim_for_owner p wallet pool table entry id d reward_entry tx)
  unfolding claim_for_owner
  claim_for_owner-Conform table entry id d reward_entry tx h =
      Ensures-bind AllConform (reward_owner p wallet pool _) _ (λ owner.
        snoc-Conform _ _
          (optional-Conform p wallet table _ _ (
            All-append Conforms tx _ h
              (tt, init-Conform _ _ (init_reward_entry_call-Conforms p wallet id entry))))
          (claim_rewards_call-Conforms p wallet pool _ entry id d _))

  -- A step that keeps a transaction fit may come before another.
  then-Conform :
      (step : Result Transaction) (k : Transaction → Result Transaction)
      → Ensures AllConform step
      → ((tx : Transaction) → AllConform tx → Ensures AllConform (k tx))
      → Ensures AllConform (step >>= k)
  then-Conform (ok tx) k h f = f tx h
  then-Conform (throw e) k h f = tt

  claim_rounds_for_owner-Conform :
      (table : Table AccountData) (entry : PublicKey) (ids entry_ids : List PublicKey)
      (tx : Transaction)
      → AllConform tx
      → Ensures AllConform (claim_rounds_for_owner p wallet pool table entry ids entry_ids tx)
  unfolding claim_rounds_for_owner
  claim_rounds_for_owner-Conform table entry [] entry_ids tx h = h
  claim_rounds_for_owner-Conform table entry (id ∷ ids) [] tx h = h
  claim_rounds_for_owner-Conform table entry (id ∷ ids) (e ∷ es) tx h =
      then-Conform _ _ (known (distributor_at table id))
        (claim_rounds_for_owner-Conform table entry ids es)
    where
      known :
          (o : Option RewardDistributor)
          → Ensures AllConform (elim o [
            | none ↦ ok tx
            | some d ↦ claim_for_owner p wallet pool table entry id d e tx
          ])
      known none = h
      known (some d) = claim_for_owner-Conform table entry id d e tx h

  pub claim_transaction-Conform :
      (table : Table AccountData) (ids : Option (List PublicKey)) (m : ClaimMint)
      → Ensures AllConform (claim_transaction p wallet pool table ids m)
  unfolding claim_transaction
  claim_transaction-Conform table (some (id ∷ ids)) m = elim (Option-cases m.reward_entry_ids) [
    | inl nothing ↦ rw (nothing, claim_transaction) tt
    | inr (es, found) ↦
        rw (found, claim_transaction)
          (claim_rounds_for_owner-Conform table m.stake_entry_id (id ∷ ids) es _
            (update_total_stake_seconds_call-Conforms p wallet m.stake_entry_id, tt))
  ]
  claim_transaction-Conform table (some []) m = tt
  claim_transaction-Conform table none m = tt

-- The last step of `claimRewardReceipt` and `boost`: the accounts of the second payment, and the
-- call itself.
action-Conform :
    (r : Result (Transaction × List AccountMeta)) (call : List AccountMeta → Instruction)
    → Ensures (λ (x : Transaction × List AccountMeta). AllConform x.0) r
    → ((metas : List AccountMeta) → Conforms (call metas))
    → Ensures AllConform (r >>= λ (tx, metas). ok (tx ++ call metas ∷ []))
action-Conform (ok (tx, metas)) call h k = snoc-Conform tx (call metas) h (k metas)
action-Conform (throw e) call h k = tt

module _ (p : Packages) (c : Connection) (wallet : PublicKey) (identifier : String) where
  -- Each call of the program in the transactions of stake, unstake, claimRewards,
  -- claimRewardReceipt and boost conforms to the IDL: the method is declared and has as many
  -- arguments; the accounts that are named are declared and named once; and every declared account
  -- is named, but for the token and system programs in a call that is not strict.
  pub transactions-Conform :
      (infos : List MintInfo) (info : MintInfo) (distributors : Option (List PublicKey))
      (for_users : Option Bool) (manager : PublicKey) (seconds : ℕ) (booster : Option ℕ)
      → Ensures (All AllConform) (stake p c wallet identifier infos)
        × Ensures (All AllConform) (unstake p c wallet identifier infos distributors)
        × Ensures
            (All AllConform)
            (claim_rewards p c wallet identifier infos distributors for_users)
        × Ensures AllConform (claim_reward_receipt p c wallet identifier info manager)
        × Ensures AllConform (boost p c wallet identifier info seconds booster)
  unfolding stake unstake claim_rewards claim_reward_receipt boost
  transactions-Conform infos info distributors for_users manager seconds booster = (
    Ensures-bind (All AllConform) (check_stake_pool _ _) _ (λ pool.
        Ensures-bind (All AllConform) (fetch_idl_account c _ _) _
          (λ payment. stake-Conform p wallet _ _ pool payment _)),
    Ensures-bind (All AllConform) (check_stake_pool _ _) _ (λ pool.
        All-map AllConform _ _ (unstake_transaction-Conform p wallet _ c _ distributors _)),
    for_each-Ensures AllConform _ _ (claim_transaction-Conform p wallet _ _ distributors),
    Ensures-bind AllConform (check_receipt_manager _ manager) _ (λ m.
        action-Conform _ _
          (async-Conform p wallet c _ _ (
            payment-Conform p wallet _ _ _ (
              update_total_stake_seconds_call-Conforms p wallet
                  (stake_entry_id_of p wallet (find_stake_pool_id p identifier) info),
              init-Conform _ _ (init_reward_receipt_call-Conforms p wallet _ manager _),
            )))
          (λ metas. claim_reward_receipt_call-Conforms p wallet _ manager _ _)),
    Ensures-bind AllConform (check_stake_booster _ _) _ (λ b.
        action-Conform _ _
          (async-Conform p wallet c _ _ (
            payment-Conform p wallet _ _ _ (
              update_total_stake_seconds_call-Conforms p wallet
                  (stake_entry_id_of p wallet (find_stake_pool_id p identifier) info),
              tt,
            )))
          (λ metas. boost_stake_entry_call-Conforms p wallet _ _ _ _ seconds _)),
  )
