-- ===== src/Program/PaymentInfos/Shares.antt =====
-- Which shares a payment info may have, and what a payment to them does.
use discount_program.Common.{
  ℕ, ◌*◌, ◌/◌, ◌%◌, ◌^◌, ◌≤◌, ◌<◌, ◌≡◌, ◌≢◌, refl, ◌==◌, ==_iff, ==_refl, Bool, true, false, List,
  [], ◌∷◌, arith, if◌then◌else◌,
}
use discount_program.Data.{PublicKey, PaymentShare, PaymentInfo, AccountMeta}
use discount_program.Program.Outcome.{◌>>=◌, done, err, panic, checked_sub, invalid_payment_shares}
use discount_program.Program.Payment.{Host, check_payer_account, handle_payment}
use discount_program.Program.Payment.Accepted.{total_points, share_amounts_sum_lem}
use discount_program.Program.PaymentInfos.{
  InfoHost, InitPaymentInfoIx, share_total, check_shares, init_payment_info, update_payment_info,
  info_with,
}

share_total_lem : (shares : List PaymentShare) → share_total shares ≡ total_points shares % 2 ^ 16
unfolding share_total
share_total_lem [] = refl
share_total_lem (s ∷ shares) = rw (share_total_lem shares) (omega arith)

check_shares_lem :
    (shares : List PaymentShare)
    → check_shares shares
      ≡ (if total_points shares % 2 ^ 16 == 10000 then done tt else err invalid_payment_shares)
unfolding check_shares
check_shares_lem shares = ground (arith, share_total_lem shares)

if_bind :
    {A : Type 0} (a : A) (b : Bool)
    → ((if b then done tt else err invalid_payment_shares) >>= λ (u : Unit {0}). done a)
      ≡ (if b then done a else err invalid_payment_shares)
if_bind a true = refl
if_bind a false = refl

-- At its own address that is not in use, and for its authority, initPaymentInfo and
-- updatePaymentInfo succeed where the basis points of the shares make 10000 modulo 2 ^ 16, and
-- store the given values; otherwise both fail for invalid payment shares.
pub payment_info_shares :
    (host : InfoHost) (key authority : PublicKey) (ix : InitPaymentInfoIx) (info : PaymentInfo)
    → key ≡ (host.find_payment_info ix.identifier).0
    → host.in_use key ≡ false
    → info.authority ≡ authority
    → (init_payment_info host key ix ≡ (
        if total_points ix.settings.payment_shares % 2 ^ 16 == 10000
        then done (info_with ix.settings (host.find_payment_info ix.identifier).1 ix.identifier)
        else err invalid_payment_shares))
      × (update_payment_info authority ix.settings info ≡ (
          if total_points ix.settings.payment_shares % 2 ^ 16 == 10000
          then done (info_with ix.settings info.bump info.identifier)
          else err invalid_payment_shares))
unfolding init_payment_info update_payment_info
payment_info_shares host key authority ix info same free own =
    let checked = check_shares_lem ix.settings.payment_shares in
    let at_key : (key == (host.find_payment_info ix.identifier).0) ≡ true = (==_iff _ _).1 same in
    let by_authority : (info.authority == authority) ≡ true = (==_iff _ _).1 own in
    let n : ℕ = total_points ix.settings.payment_shares % 2 ^ 16 in
    (
      rw (at_key, free, checked) (if_bind _ (n == 10000)),
      rw (by_authority, checked) (if_bind _ (n == 10000)),
    )

payer_sol :
    (chain : Host) (payer : PublicKey) (rest : List AccountMeta)
    → check_payer_account chain chain.default_key payer rest ≡ done rest
unfolding check_payer_account
payer_sol chain payer rest = rw (==_refl chain.default_key) refl

overfull : (a n : ℕ) → 0 < a → 20000 ≤ n → checked_sub a (a * n / 10000) ≡ panic
overfull a n some_amount many = let product : a * 20000 ≤ a * n = grind arith in ground arith

-- For shares whose basis points make 10000 modulo 2 ^ 16 but are not 10000, initPaymentInfo
-- succeeds, and handle_payment panics for every amount in SOL above 0 whose product with the basis
-- points is below 2 ^ 64.
pub overfull_shares_panic :
    (host : InfoHost) (chain : Host) (key : PublicKey) (ix : InitPaymentInfoIx) (amount : ℕ)
    (payer transfer_program : AccountMeta) (rest : List AccountMeta)
    → key ≡ (host.find_payment_info ix.identifier).0
    → host.in_use key ≡ false
    → total_points ix.settings.payment_shares % 2 ^ 16 ≡ 10000
    → total_points ix.settings.payment_shares ≢ 10000
    → 0 < amount
    → amount * total_points ix.settings.payment_shares < 2 ^ 64
    → transfer_program.pubkey ≡ chain.system_program_id
    → (init_payment_info host key ix
        ≡ done (info_with ix.settings (host.find_payment_info ix.identifier).1 ix.identifier))
      × (handle_payment chain amount chain.default_key ix.settings.payment_shares
            (payer ∷ transfer_program ∷ rest)
          ≡ panic)
unfolding init_payment_info handle_payment
overfull_shares_panic host chain key ix amount payer transfer_program rest same free wraps more
      some_amount small program =
    let shares = ix.settings.payment_shares in
    let at_key : (key == (host.find_payment_info ix.identifier).0) ≡ true = (==_iff _ _).1 same in
    let full : (total_points shares % 2 ^ 16 == 10000) ≡ true = (==_iff _ _).1 wraps in
    (
      rw (at_key, free, check_shares_lem shares, full) refl,
      rw
          (
            ==_refl chain.default_key,
            (==_iff _ _).1 program,
            payer_sol chain payer.pubkey rest,
            share_amounts_sum_lem amount shares small,
            overfull amount (total_points shares) some_amount (omega arith),
          )
          refl,
    )
