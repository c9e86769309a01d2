-- ===== src/Program/Payment/Amounts.antt =====
-- The amounts that `handle_payment` (programs/rewards-center/src/payment/state.rs) sends.
use discount_program.Common.{
  ℕ, sym, true, ◌==◌, ==_iff, ==_refl, ◌+◌, ◌*◌, ◌/◌, ◌-◌, ◌≤◌, ◌<◌, ◌≡◌, ◌≢◌, ◌^◌, ◌++◌, List, [],
  ◌∷◌, length, arith,
}
use discount_program.Data.{PublicKey, PaymentShare, AccountMeta, Transaction}
use discount_program.Packages.{Packages}
use discount_program.Payment.{writable, addresses, with_remaining_accounts_for_payment}
use discount_program.Program.Outcome.{done, err, invalid_payment_share}
use discount_program.Program.Payment.{
  Host, Transfer, handle_payment, pay_shares, check_share_account,
}
use discount_program.Program.Payment.Accepted.{
  total_points, dues, Agrees, IsPayable, handle_payment-accepts, check_payer_sol,
  share_amounts_sum_lem, checked_part, share_amount_lem, ==-false,
}

-- What all transfers come to.
abbrev pub total_sent : List Transfer → ℕ
total_sent [] = 0
total_sent (t ∷ ts) = t.amount + total_sent ts

module _ (p : Packages) (amount : ℕ) (mint : PublicKey) where
  -- The rounding of each share loses less than 1.
  sent_bounds :
      (shares : List PaymentShare)
      → (10000 * total_sent (dues p amount mint 0 shares) ≤ amount * total_points shares)
        × (amount * total_points shares
            ≤ 10000 * total_sent (dues p amount mint 0 shares) + 9999 * length shares)
  sent_bounds [] = omega arith
  sent_bounds (s ∷ shares) = ground (arith, sent_bounds shares)

module _ (p : Packages) (host : Host) (agrees : Agrees p host) where
  -- Where the shares make 10000 basis points and the payment can be made (IsPayable),
  -- handle_payment sends, with the accounts that the SDK lists, no more than the amount, and less
  -- by fewer units than there are shares; what each collector is due is its part of the amount,
  -- rounded down, as no remainder is left to distribute.
  pub handle_payment_sends :
      (tx : Transaction) (payer mint : PublicKey) (amount : ℕ) (shares : List PaymentShare)
      (rest : List AccountMeta)
      → IsPayable p host mint payer amount shares
      → total_points shares ≡ 10000
      → let sent = dues p amount mint 0 shares in
        (handle_payment host amount mint shares
            ((with_remaining_accounts_for_payment p tx payer mint (addresses p shares)).1 ++ rest)
          ≡ done (sent, rest))
        × (total_sent sent ≤ amount)
        × (amount < total_sent sent + length shares)
  handle_payment_sends tx payer mint amount shares rest h full = (
    rw (nothing_left amount (total_points shares) full) at
        (handle_payment-accepts p host agrees tx payer mint amount shares rest h),
    omega (arith, bounds.0),
    omega (arith, bounds.1, some_share shares full),
  )
    where
      nothing_left : (a t : ℕ) → t ≡ 10000 → a - a * t / 10000 ≡ 0
      nothing_left a t e = rw e (omega arith)

      some_share : (shares : List PaymentShare) → total_points shares ≡ 10000 → 0 < length shares
      some_share [] e = absurd (omega arith)
      some_share (s ∷ shares) e = omega arith

      bounds :
          (10000 * total_sent (dues p amount mint 0 shares) ≤ amount * 10000)
          × (amount * 10000
              ≤ 10000 * total_sent (dues p amount mint 0 shares) + 9999 * length shares)
      bounds = rw full at (sent_bounds p amount mint shares)

  check_share_refused :
      (mint account address : PublicKey)
      → (mint == host.default_key) ≡ true
      → account ≢ address
      → check_share_account host mint account address ≡ err invalid_payment_share
  unfolding check_share_account
  check_share_refused mint account address sol other = rw (sol, ==-false account address other)

  pay_shares_refused :
      (mint : PublicKey) (amount r : ℕ) (z s : PaymentShare) (shares : List PaymentShare)
      (rest : List AccountMeta)
      → (mint == host.default_key) ≡ true
      → z.basis_points ≡ 0
      → s.basis_points ≢ 0
      → z.address ≢ s.address
      → amount * s.basis_points < 2 ^ 63
      → pay_shares host amount mint r (z ∷ s ∷ shares) (writable z.address ∷ rest)
        ≡ err invalid_payment_share
  unfolding pay_shares
  pay_shares_refused mint amount r z s shares rest sol no_points points other small = rw (
    (==_iff _ _).1 no_points,
    ==-false s.basis_points 0 points,
    share_amount_lem amount s.basis_points r small,
    check_share_refused mint z.address s.address sol other,
  )

  -- Where the first share has no basis points and the second has some and another address,
  -- handle_payment refuses a payment in SOL with the accounts that the SDK lists, for an amount
  -- times basis points below 2 ^ 63 and shares of at most 10000 basis points together.
  pub empty_share_refused :
      (tx : Transaction) (payer amount : ℕ) (z s : PaymentShare) (shares : List PaymentShare)
      (rest : List AccountMeta)
      → amount * total_points (z ∷ s ∷ shares) < 2 ^ 63
      → total_points (z ∷ s ∷ shares) ≤ 10000
      → z.basis_points ≡ 0
      → s.basis_points ≢ 0
      → z.address ≢ s.address
      → handle_payment host amount p.default_key (z ∷ s ∷ shares) (
          (with_remaining_accounts_for_payment p tx payer p.default_key
            (addresses p (z ∷ s ∷ shares))).1
          ++ rest)
        ≡ err invalid_payment_share
  unfolding handle_payment with_remaining_accounts_for_payment
  empty_share_refused tx payer amount z s shares rest small part no_points points other =
      let sol : (p.default_key == host.default_key) ≡ true =
        (==_iff _ _).1 (sym agrees.default_key) in
      rw (
        ==_refl p.default_key,
        sol,
        (==_iff _ _).1 (sym agrees.system),
        check_payer_sol p host p.default_key payer _ sol,
        share_amounts_sum_lem amount (z ∷ s ∷ shares) (omega arith),
        checked_part amount (total_points (z ∷ s ∷ shares)) part,
        pay_shares_refused p.default_key amount _ z s shares _ sol no_points points other
            (omega arith),
      )
