-- ===== src/Api/Order.antt =====
-- The order in which the transactions of sdk/api.ts call the methods of the program.
pub mod Unstake
pub mod Stake
pub mod Claims
pub mod Actions
use discount_program.Common.{
  String, Bool, true, false, not, ◌≡◌, refl, sym, ap, ◌∙◌, ◌==◌, Option, none, some, List, [], ◌∷◌,
  ◌++◌, Result, ok, throw, ◌>>=◌, Returns, Bool-cases, Option-cases, inl, inr, is_some,
  if◌then◌else◌,
}
use discount_program.Common.Table.{Table, lookup}
use discount_program.Data.{
  PublicKey, AccountType, IdlAccountData, AccountData, AccountMeta, PaymentInfo, RewardDistributor,
  Metadata, MintManager, Instruction, rewards_center, set_compute_unit_limit,
  create_associated_token_account, Transaction,
}
use discount_program.Packages.{Packages, Connection}
use discount_program.Pda.{find_mint_metadata_id}
use discount_program.Payment.{
  is_zero, create_token_accounts, with_remaining_accounts_for_payment,
  with_remaining_accounts_for_payment_info_sync,
}
use discount_program.Api.Mints.{init_reward_entry_call, update_total_stake_seconds_call}
use discount_program.Api.Claims.{ClaimMint, distributor_at, payment_info_at, optional_payment}
use discount_program.Api.Unstake.{
  in_cooldown, claim_rewards_call, claim_round, claim_rounds, claims_of, unstake_calls,
  unstake_ccs_call, unstake_pnft_call, unstake_edition_call, unstake_transaction,
}

-- The methods that a transaction calls, in their order; what other programs do is passed over.
abbrev pub methods : Transaction → List String
methods [] = []
methods (rewards_center call ∷ tx) = call.method ∷ methods tx
methods (set_compute_unit_limit units ∷ tx) = methods tx
methods (create_associated_token_account payer account owner mint ∷ tx) = methods tx

pub methods-append : (tx ty : Transaction) → methods (tx ++ ty) ≡ methods tx ++ methods ty
methods-append [] ty = refl
methods-append (rewards_center call ∷ tx) ty = rw (methods-append tx ty) refl
methods-append (set_compute_unit_limit units ∷ tx) ty = methods-append tx ty
methods-append (create_associated_token_account payer account owner mint ∷ tx) ty =
    methods-append tx ty

pub ++_nil : {A : Type 0} (xs : List A) → xs ++ [] ≡ xs
++_nil [] = refl
++_nil (x ∷ xs) = rw (++_nil xs) refl

pub ++_assoc : {A : Type 0} (xs ys zs : List A) → xs ++ ys ++ zs ≡ xs ++ (ys ++ zs)
++_assoc [] ys zs = refl
++_assoc (x ∷ xs) ys zs = rw (++_assoc xs ys zs) refl

module _ (p : Packages) (wallet : PublicKey) where
  create-methods :
      (mint : PublicKey) (ts : List PublicKey)
      → methods (create_token_accounts p wallet mint ts) ≡ []
  create-methods mint [] = refl
  create-methods mint (t ∷ ts) = create-methods mint ts

  pub payment-methods :
      (tx : Transaction) (mint : PublicKey) (ts : List PublicKey)
      → methods (with_remaining_accounts_for_payment p tx wallet mint ts).0 ≡ methods tx
  unfolding with_remaining_accounts_for_payment
  payment-methods tx mint ts = elim (Bool-cases (mint == p.default_key)) [
    | inl sol ↦ rw sol refl
    | inr token ↦
        rw
          (
            token,
            methods-append tx (create_token_accounts p wallet mint ts),
            create-methods mint ts,
          )
          (++_nil (methods tx))
  ]

  pub sync-methods :
      (tx : Transaction) (id : PublicKey) (info : PaymentInfo)
      → methods (with_remaining_accounts_for_payment_info_sync p tx wallet id info).0 ≡ methods tx
  unfolding with_remaining_accounts_for_payment_info_sync
  sync-methods tx id info = elim (Bool-cases (is_zero info.payment_amount)) [
    | inl free ↦ rw free refl
    | inr paid ↦ rw paid (payment-methods tx info.payment_mint _)
  ]

  pub optional-methods :
      (table : Table AccountData) (tx : Transaction) (id : PublicKey)
      → methods (optional_payment p wallet table tx id).0 ≡ methods tx
  unfolding optional_payment
  optional-methods table tx id = known (payment_info_at table id)
    where
      paid : Option (PublicKey × PaymentInfo) → Transaction × List AccountMeta
      paid o = elim o [
        | none ↦ (tx, [])
        | some (key, info) ↦ with_remaining_accounts_for_payment_info_sync p tx wallet key info
      ]

      known : (o : Option (PublicKey × PaymentInfo)) → methods (paid o).0 ≡ methods tx
      known none = refl
      known (some (key, info)) = sync-methods tx key info
