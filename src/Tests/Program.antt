-- ===== src/Tests/Program.antt =====
-- The theorems on payment infos, fees and the program's interface at concrete values.
use discount_program.Common.{◌≡◌, refl, true, false, none, List, [], ◌∷◌, arith}
use discount_program.Common.Int.{pos}
use discount_program.Data.{PaymentShare}
use discount_program.Idl.{idl}
use discount_program.Idl.Errors.{errors}
use discount_program.Idl.Types.{types}
use discount_program.Program.Outcome.{done, panic}
use discount_program.Program.Payment.{handle_payment}
use discount_program.Program.PaymentInfos.{
  InfoHost, InitPaymentInfoIx, init_payment_info, update_payment_info, info_with,
}
use discount_program.Program.PaymentInfos.Shares.{payment_info_shares, overfull_shares_panic}
use discount_program.Program.Pools.{Discount, init_discount, init_pool}
use discount_program.Program.Pools.Fee.{init_pool-Fee}
use discount_program.Program.Errors.{variants, error_codes}
use discount_program.Program.Errors.Codes.{find_error, error_codes_agree}
use discount_program.Program.Structs.{init_discount_ix_struct}
use discount_program.Program.Contexts.Pools.{init_pool_context}
use discount_program.Program.Contexts.Agrees.{
  find_instruction, find_type, fields_defined, fields_of, declared_of, interface_agrees,
}
use discount_program.Tests.Chain.{program_host, pools, pool_ix, new_pool, meta}
use discount_program.Tests.World.{payment, shares}

abbrev infos : InfoHost
infos = record { find_payment_info = λ s. (30, 255); in_use = λ k. false; from_str = λ s. 30 }

abbrev info_ix : List PaymentShare → InitPaymentInfoIx
info_ix given = record {
  settings = record {
    authority = 61;
    payment_amount = pos 100;
    payment_mint = 0;
    payment_shares = given;
  };
  identifier = "payment";
}

payment_info_shares_example :
    (init_payment_info infos 30 (info_ix shares)
      ≡ done (info_with (info_ix shares).settings 255 "payment"))
    × (update_payment_info 61 (info_ix shares).settings payment
        ≡ done (info_with (info_ix shares).settings 255 "payment"))
payment_info_shares_example =
    payment_info_shares infos 30 61 (info_ix shares) payment refl refl refl

-- Shares of 65536 + 10000 basis points.
abbrev wrapping : List PaymentShare
wrapping =
    record { address = 41; basis_points = 65535 }
    ∷ record { address = 42; basis_points = 10001 }
    ∷ []

overfull_shares_panic_example :
    (init_payment_info infos 30 (info_ix wrapping)
      ≡ done (info_with (info_ix wrapping).settings 255 "payment"))
    × (handle_payment program_host.payments 100 0 wrapping (meta 7 ∷ meta 1 ∷ []) ≡ panic)
overfull_shares_panic_example =
    overfull_shares_panic infos program_host.payments 30 (info_ix wrapping) 100 (meta 7) (meta 1) []
      refl refl refl (λ same. absurd (omega arith)) (omega arith) (omega arith) refl

abbrev my_discount : Discount
my_discount = record { discount_str = "discount"; authority = 7; identifier = "mine" }

made_discount : init_discount pools 45 my_discount ≡ done my_discount
unfolding init_discount
made_discount = refl

init_pool-Fee_example :
    init_pool pools 60 5 7 pool_ix (meta 45 ∷ [])
    ≡ done (new_pool, record { to = 5; amount = 1000000000 })
init_pool-Fee_example =
    init_pool-Fee pools pools (meta 45) my_discount my_discount 60 5 7 pool_ix [] 0 made_discount
      refl refl refl refl refl

interface_agrees_example :
    (find_instruction "initPool" idl.instructions ≡ declared_of init_pool_context)
    × (fields_defined init_pool_context.args ≡ true)
    × (find_type "InitDiscountIx" types ≡ none)
    × (fields_defined (fields_of init_discount_ix_struct) ≡ true)
interface_agrees_example =
    interface_agrees "initPool" init_pool_context "InitDiscountIx" init_discount_ix_struct refl refl

error_codes_agree_example : find_error 6014 (error_codes 0 variants) ≡ find_error 6014 errors
error_codes_agree_example = error_codes_agree 6014
