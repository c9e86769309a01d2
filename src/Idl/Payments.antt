-- ===== src/Idl/Payments.antt =====
-- The instructions of the IDL (sdk/idl/cardinal_rewards_center.ts) on payment infos.
use discount_program.Common.{true, false, [], ◌∷◌}
use discount_program.Idl.Defs.{IdlInstruction, account, field, defined}

abbrev pub init_payment_info : IdlInstruction
init_payment_info = record {
  name = "initPaymentInfo";
  accounts =
      account "paymentInfo" true false
      ∷ account "payer" true true
      ∷ account "systemProgram" false false
      ∷ [];
  args = field "ix" (defined "InitPaymentInfoIx") ∷ [];
}

abbrev pub update_payment_info : IdlInstruction
update_payment_info = record {
  name = "updatePaymentInfo";
  accounts =
      account "paymentInfo" true false
      ∷ account "authority" false true
      ∷ account "payer" true true
      ∷ account "systemProgram" false false
      ∷ [];
  args = field "ix" (defined "UpdatePaymentInfoIx") ∷ [];
}

abbrev pub close_payment_info : IdlInstruction
close_payment_info = record {
  name = "closePaymentInfo";
  accounts = account "paymentInfo" true false ∷ account "authority" true true ∷ [];
  args = [];
}
