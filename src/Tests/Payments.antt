-- ===== src/Tests/Payments.antt =====
-- Payments: the accounts of the SDK before the program.
use discount_program.Common.{◌≡◌, ◌≤◌, ◌<◌, ◌+◌, refl, List, [], ◌∷◌, ◌++◌, arith}
use discount_program.Data.{PaymentShare}
use discount_program.Payment.{addresses, with_remaining_accounts_for_payment}
use discount_program.Program.Outcome.{done, err, invalid_payment_share}
use discount_program.Program.Payment.{handle_payment}
use discount_program.Program.Payment.Accepted.{dues, IsPayable, handle_payment-accepts}
use discount_program.Program.Payment.Amounts.{total_sent, handle_payment_sends, empty_share_refused}
use discount_program.Tests.World.{packages, host, host_agrees, shares}

pub shares-IsPayable : IsPayable packages host 33 7 100 shares
shares-IsPayable = record {
  small = omega arith;
  part = omega arith;
  some_points = omega arith;
  accounts = λ token. (refl, (refl, (refl, tt)));
}

handle_payment-accepts_example :
    handle_payment host 100 33 shares
      ((with_remaining_accounts_for_payment packages [] 7 33 (addresses packages shares)).1 ++ [])
    ≡ done (dues packages 100 33 0 shares, [])
handle_payment-accepts_example =
    handle_payment-accepts packages host host_agrees [] 7 33 100 shares [] shares-IsPayable

handle_payment_sends_example :
    (handle_payment host 100 33 shares
        ((with_remaining_accounts_for_payment packages [] 7 33 (addresses packages shares)).1 ++ [])
      ≡ done (dues packages 100 33 0 shares, []))
    × (total_sent (dues packages 100 33 0 shares) ≤ 100)
    × (100 < total_sent (dues packages 100 33 0 shares) + 2)
handle_payment_sends_example =
    handle_payment_sends packages host host_agrees [] 7 33 100 shares [] shares-IsPayable refl

-- One unit of the payment is sent to nobody.
one_unit_short : total_sent (dues packages 100 33 0 shares) ≡ 99
one_unit_short = refl

abbrev with_empty_share : List PaymentShare
with_empty_share =
    record { address = 40; basis_points = 0 } ∷ record { address = 41; basis_points = 10000 } ∷ []

empty_share_refused_example :
    handle_payment host 100 0 with_empty_share (
      (with_remaining_accounts_for_payment packages [] 7 0 (addresses packages with_empty_share)).1
      ++ [])
    ≡ err invalid_payment_share
empty_share_refused_example =
    empty_share_refused packages host host_agrees [] 7 100
      (record { address = 40; basis_points = 0 }) (record { address = 41; basis_points = 10000 }) []
      [] (omega arith) (omega arith) refl (omega arith) (omega arith)
