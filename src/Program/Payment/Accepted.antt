-- ===== src/Program/Payment/Accepted.antt =====
-- The accounts that `withRemainingAccountsForPayment` (sdk/payment.ts) lists are those that
-- `handle_payment` (programs/rewards-center/src/payment/state.rs) takes.
use discount_program.Common.{
  ℕ, zero, suc, ◌+◌, ◌*◌, ◌/◌, ◌-◌, ◌^◌, ◌≤◌, ◌<◌, ◌≡◌, ◌≢◌, refl, sym, ap, ◌∙◌, ◌==◌, ==_iff, true,
  false, some, List, [], ◌∷◌, ◌++◌, map, All, if◌then◌else◌, ltb, arith, Bool-cases, inl, inr,
}
use discount_program.Data.{PublicKey, PaymentShare, AccountMeta, Transaction}
use discount_program.Packages.{Packages}
use discount_program.Payment.{writable, ata, addresses, with_remaining_accounts_for_payment}
use discount_program.Program.Outcome.{done, checked_sub}
use discount_program.Program.Payment.{
  Host, Transfer, remainder_part, share_amounts_sum, share_amount, check_share_account,
  check_payer_account, pay_shares, handle_payment,
}

-- The basis points of all shares.
abbrev pub total_points : List PaymentShare → ℕ
total_points [] = 0
total_points (s ∷ shares) = s.basis_points + total_points shares

pub share_amounts_sum_lem :
    (a : ℕ) (shares : List PaymentShare)
    → a * total_points shares < 2 ^ 64
    → share_amounts_sum a shares ≡ done (a * total_points shares)
unfolding share_amounts_sum
share_amounts_sum_lem a [] h = ground arith
share_amounts_sum_lem a (s ∷ shares) h =
    ground (arith, share_amounts_sum_lem a shares (omega arith))

-- One more below the limit of 64 bits is left for the remainder.
pub share_amount_lem :
    (a b r : ℕ) → a * b < 2 ^ 63 → share_amount a b r ≡ done (a * b / 10000 + remainder_part r)
unfolding share_amount
share_amount_lem a b zero h = ground arith
share_amount_lem a b (suc r) h = ground arith

part-le : (a b : ℕ) → b ≤ 10000 → a * b / 10000 ≤ a
part-le a b h = let m : a * b ≤ a * 10000 = grind arith in omega arith

pub checked_part : (a b : ℕ) → b ≤ 10000 → checked_sub a (a * b / 10000) ≡ done (a - a * b / 10000)
checked_part a b h = ground (arith, part-le a b h)

pub ==-false : (a b : ℕ) → a ≢ b → (a == b) ≡ false
==-false a b h = ground arith

module _ (p : Packages) where
  -- The account that a share is paid to.
  abbrev pub payee : PublicKey → PaymentShare → PublicKey
  payee mint s = if mint == p.default_key then s.address else ata p mint s.address

  -- What each collector is due: its basis points of the amount, rounded down, and 1 more as long as
  -- some of the remainder is left. Nothing is sent for an amount of 0.
  abbrev pub dues :
      (amount : ℕ) → (mint : PublicKey) → (remainder : ℕ) → List PaymentShare → List Transfer
  dues amount mint remainder [] = []
  dues amount mint remainder (s ∷ shares) =
      let due = amount * s.basis_points / 10000 + remainder_part remainder in
      let rest = dues amount mint (remainder - remainder_part remainder) shares in
      if ltb 0 due then record { to = payee mint s; amount = due } ∷ rest else rest

module _ (p : Packages) (host : Host) where
  -- The program runs on the chain that the packages of the SDK speak of.
  pub record Agrees : Type 0 where
    pub default_key : host.default_key ≡ p.default_key
    pub system : host.system_program_id ≡ p.system_program_id
    pub token : host.token_program_id ≡ p.token_program_id

  -- The associated token account of the owner exists.
  abbrev pub HasAccount : PublicKey → PublicKey → Type 0
  HasAccount mint owner =
      host.token_account (ata p mint owner) ≡ some (record { owner = owner; mint = mint })

  check_share_lem :
      (agrees : Agrees) (mint : PublicKey) (s : PaymentShare)
      → (mint ≢ p.default_key → HasAccount mint s.address)
      → check_share_account host mint (payee p mint s) s.address ≡ done tt
  unfolding check_share_account
  check_share_lem agrees mint s account =
      rw agrees.default_key (elim (Bool-cases (mint == p.default_key)) [
        | inl sol ↦ ground (arith, sol)
        | inr token ↦
            ground (arith, token, account (λ same. cc (token, (==_iff mint p.default_key).1 same)))
      ])

  pay_shares_lem :
      (agrees : Agrees) (a : ℕ) (mint : PublicKey) (r : ℕ) (shares : List PaymentShare)
      (rest : List AccountMeta)
      → a * total_points shares < 2 ^ 63
      → All (λ s. s.basis_points ≢ 0) shares
      → (mint ≢ p.default_key → All (λ s. HasAccount mint s.address) shares)
      → pay_shares host a mint r shares (map (λ s. writable (payee p mint s)) shares ++ rest)
        ≡ done (dues p a mint r shares, rest)
  unfolding pay_shares
  pay_shares_lem agrees a mint r [] rest small some_points accounts = refl
  pay_shares_lem agrees a mint r (s ∷ shares) rest small (sp, some_points) accounts =
      rw
        (
          ==-false s.basis_points 0 sp,
          share_amount_lem a s.basis_points r (omega arith),
          check_share_lem agrees mint s (λ token. (accounts token).0),
          pay_shares_lem agrees a mint (r - remainder_part r) shares rest (omega arith) some_points
              (λ token. (accounts token).1),
        )
        (ground arith)

  pub check_payer_sol :
      (mint payer : PublicKey) (rest : List AccountMeta)
      → (mint == host.default_key) ≡ true
      → check_payer_account host mint payer rest ≡ done rest
  unfolding check_payer_account
  check_payer_sol mint payer rest sol = rw sol

  check_payer_token :
      (mint payer : PublicKey) (rest : List AccountMeta)
      → (mint == host.default_key) ≡ false
      → HasAccount mint payer
      → check_payer_account host mint payer (writable (ata p mint payer) ∷ rest) ≡ done rest
  unfolding check_payer_account
  check_payer_token mint payer rest token account = rw token (ground (arith, account))

  payee_sol :
      (mint : PublicKey) (shares : List PaymentShare)
      → (mint == p.default_key) ≡ true
      → map writable (addresses p shares) ≡ map (λ s. writable (payee p mint s)) shares
  payee_sol mint [] sol = refl
  payee_sol mint (s ∷ shares) sol = ground (arith, sol, payee_sol mint shares sol)

  payee_token :
      (mint : PublicKey) (shares : List PaymentShare)
      → (mint == p.default_key) ≡ false
      → map (λ t. writable (ata p mint t)) (addresses p shares)
        ≡ map (λ s. writable (payee p mint s)) shares
  payee_token mint [] token = refl
  payee_token mint (s ∷ shares) token = ground (arith, token, payee_token mint shares token)

  -- A payment that can be made: all shares have some basis points, of 10000 at most together; the
  -- amount times the basis points is below 2 ^ 63; and if the payment is in a token, the payer and
  -- the collectors have their associated token accounts.
  pub record IsPayable (mint payer : PublicKey) (amount : ℕ) (shares : List PaymentShare)
      : Type 0 where
    pub small : amount * total_points shares < 2 ^ 63
    pub part : total_points shares ≤ 10000
    pub some_points : All (λ s. s.basis_points ≢ 0) shares
    pub accounts :
        mint ≢ p.default_key → HasAccount mint payer × All (λ s. HasAccount mint s.address) shares

  -- For a payment that can be made (IsPayable), on a chain whose constants the packages share,
  -- handle_payment takes exactly the accounts that withRemainingAccountsForPayment lists, leaves
  -- what stands behind them, and pays each collector what it is due.
  pub handle_payment-accepts :
      (agrees : Agrees) (tx : Transaction) (payer mint : PublicKey) (amount : ℕ)
      (shares : List PaymentShare) (rest : List AccountMeta)
      → IsPayable mint payer amount shares
      → handle_payment host amount mint shares
          ((with_remaining_accounts_for_payment p tx payer mint (addresses p shares)).1 ++ rest)
        ≡ done (dues p amount mint (amount - amount * total_points shares / 10000) shares, rest)
  unfolding handle_payment with_remaining_accounts_for_payment
  handle_payment-accepts agrees tx payer mint amount shares rest h =
      let remainder = amount - amount * total_points shares / 10000 in
      let paid =
        pay_shares_lem agrees amount mint remainder shares rest h.small h.some_points
          (λ token. (h.accounts token).1) in
      let native = ap (λ k. mint == k) agrees.default_key in
      elim (Bool-cases (mint == p.default_key)) [
        | inl sol ↦
            rw
              (
                native ∙ sol,
                sol,
                (==_iff _ _).1 (sym agrees.system),
                check_payer_sol mint payer (map writable (addresses p shares) ++ rest)
                    (native ∙ sol),
                share_amounts_sum_lem amount shares (below h.small),
                checked_part amount (total_points shares) h.part,
                payee_sol mint shares sol,
              )
              paid
        | inr token ↦
            rw
              (
                native ∙ token,
                token,
                (==_iff _ _).1 (sym agrees.token),
                check_payer_token mint payer
                    (map (λ t. writable (ata p mint t)) (addresses p shares) ++ rest)
                    (native ∙ token) (h.accounts (not_default token)).0,
                share_amounts_sum_lem amount shares (below h.small),
                checked_part amount (total_points shares) h.part,
                payee_token mint shares token,
              )
              paid
      ]
    where
      below : amount * total_points shares < 2 ^ 63 → amount * total_points shares < 2 ^ 64
      below h = omega arith

      not_default : (mint == p.default_key) ≡ false → mint ≢ p.default_key
      not_default token same = cc (token, (==_iff mint p.default_key).1 same)
