-- ===== src/Program/Pools/Fee.antt =====
-- What a new pool costs, and who decides it.
use discount_program.Common.{
  ℕ, ◌≡◌, refl, ap, ◌∙◌, Bool, true, false, some, List, ◌∷◌, ◌==◌, ==_iff, same_string,
  if◌then◌else◌, arith,
}
use discount_program.Data.{PublicKey, AccountMeta}
use discount_program.Program.Outcome.{done}
use discount_program.Program.Pools.{
  PoolHost, Discount, InitPoolIx, pool_fee, pool_owner, pool_with, init_discount, init_pool,
}

-- The fee of a discount with this text.
abbrev pub fee_of : Bool → ℕ
fee_of true = 1000000000
fee_of false = 3000000000

stored_text :
    (pools : PoolHost) (key : PublicKey) (ix d : Discount)
    → init_discount pools key ix ≡ done d
    → d.discount_str ≡ ix.discount_str
unfolding init_discount
stored_text pools key ix d h = ground arith

pool_fee_lem : (d : Discount) → pool_fee d ≡ fee_of (same_string d.discount_str "discount")
unfolding pool_fee
pool_fee_lem d = go (same_string d.discount_str "discount")
  where
    go : (b : Bool) → (if b then 1000000000 else 3000000000) ≡ fee_of b
    go true = refl
    go false = refl

-- After initDiscount has returned for a text, a discount account that holds its result makes
-- initPool, at the address of the pool, which is not in use, and with the right owner, return a
-- pool that counts no stake, and transfer 1000000000 lamports to the owner if the text is discount
-- and 3000000000 otherwise, where that transfer can be made. The authority and the payer of the
-- discount do not matter.
pub init_pool-Fee :
    (before pools : PoolHost) (discount_data : AccountMeta) (ix d : Discount)
    (stake_pool owner payer : PublicKey) (pool : InitPoolIx) (rest : List AccountMeta) (left : ℕ)
    → init_discount before discount_data.pubkey ix ≡ done d
    → pools.discount discount_data.pubkey ≡ some d
    → stake_pool ≡ (pools.find_stake_pool pool.identifier).0
    → pools.in_use stake_pool ≡ false
    → owner ≡ pool_owner pools
    → pools.transfer payer owner (fee_of (same_string ix.discount_str "discount")) ≡ some left
    → init_pool pools stake_pool owner payer pool (discount_data ∷ rest)
      ≡ done (
        pool_with pool.settings (pools.find_stake_pool pool.identifier).1 0 pool.identifier,
        record { to = owner; amount = fee_of (same_string ix.discount_str "discount") },
      )
unfolding init_pool
init_pool-Fee before pools discount_data ix d stake_pool owner payer pool rest left stored found
      same free own paid =
    let fee : pool_fee d ≡ fee_of (same_string ix.discount_str "discount") =
      pool_fee_lem d
      ∙ ap (λ t. fee_of (same_string t "discount"))
          (stored_text before discount_data.pubkey ix d stored) in
    let at_key : (stake_pool == (pools.find_stake_pool pool.identifier).0) ≡ true =
      (==_iff _ _).1 same in
    let to_owner : (owner == pool_owner pools) ≡ true = (==_iff _ _).1 own in
    rw (at_key, free, to_owner, found, fee, paid) refl
