-- ===== src/Program/Payment/Info.antt =====
-- `handle_payment_info` (programs/rewards-center/src/payment/state.rs) on the accounts that
-- `withRemainingAccountsForPaymentInfoSync` (sdk/payment.ts) lists.
use discount_program.Common.{
  ℕ, ◌*◌, ◌/◌, ◌-◌, ◌≡◌, ◌≢◌, refl, ◌==◌, ==_iff, Bool-cases, inl, inr, some, List, [], ◌++◌,
  if◌then◌else◌,
}
use discount_program.Common.Int.{pos}
use discount_program.Data.{PublicKey, PaymentInfo, AccountMeta, Transaction}
use discount_program.Packages.{Packages}
use discount_program.Payment.{with_remaining_accounts_for_payment_info_sync}
use discount_program.Program.Outcome.{done}
use discount_program.Program.Payment.{
  Host, Transfer, handle_payment_info, program_payment_info, payment_info_of,
}
use discount_program.Program.Payment.Accepted.{
  Agrees, IsPayable, dues, total_points, handle_payment-accepts,
}

module _ (p : Packages) where
  -- What a payment info makes the program send: nothing for an amount of 0.
  abbrev pub info_dues : ℕ → PaymentInfo → List Transfer
  info_dues amount info =
      if amount == 0
      then []
      else dues p amount info.payment_mint
          (amount - amount * total_points info.payment_shares / 10000) info.payment_shares

module _ (p : Packages) (host : Host) (agrees : Agrees p host) where
  payment_info_of_lem :
      (pubkey : PublicKey) (info : PaymentInfo)
      → host.payment_info pubkey ≡ some info
      → payment_info_of host pubkey ≡ done info
  payment_info_of_lem pubkey info held = rw (held, payment_info_of) refl

  -- For the payment info that the program takes, with an amount of 0 or a payment that can be made
  -- (IsPayable), handle_payment_info takes exactly the accounts that
  -- withRemainingAccountsForPaymentInfoSync lists, leaves what stands behind them, and sends
  -- nothing for an amount of 0 and what each collector is due otherwise. The program and the
  -- packages agree on the chain's constants.
  pub handle_payment_info-accepts :
      (tx : Transaction) (payer pubkey : PublicKey) (amount : ℕ) (info : PaymentInfo)
      (rest : List AccountMeta)
      → program_payment_info host ≡ pubkey
      → host.payment_info pubkey ≡ some info
      → info.payment_amount ≡ pos amount
      → (amount ≢ 0 → IsPayable p host info.payment_mint payer amount info.payment_shares)
      → handle_payment_info host
          ((with_remaining_accounts_for_payment_info_sync p tx payer pubkey info).1 ++ rest)
        ≡ done (info_dues p amount info, rest)
  unfolding handle_payment_info with_remaining_accounts_for_payment_info_sync
  handle_payment_info-accepts tx payer pubkey amount info rest named held is payable =
      elim (Bool-cases (amount == 0)) [
        | inl nothing ↦
            rw
              (is, nothing, (==_iff _ _).1 named, payment_info_of_lem pubkey info held, is, nothing)
              refl
        | inr something ↦
            rw
              (
                is,
                something,
                (==_iff _ _).1 named,
                payment_info_of_lem pubkey info held,
                is,
                something,
              )
              (handle_payment-accepts p host agrees tx payer info.payment_mint amount
                info.payment_shares rest
                (payable (λ same. cc (something, (==_iff amount 0).1 same))))
      ]
