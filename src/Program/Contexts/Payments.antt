-- ===== src/Program/Contexts/Payments.antt =====
-- The accounts and arguments of the instructions on payment infos, from their contexts in
-- programs/rewards-center/src, by the names that Anchor's clients use.
use discount_program.Common.{true, false, [], ◌∷◌}
use discount_program.Idl.Defs.{IdlInstruction, account, field, defined}

abbrev pub init_payment_info_context : IdlInstruction
init_payment_info_context = record {
  name = "initPaymentInfo";
  accounts =
      account "paymentInfo" true false
      ∷ account "payer" true true
      ∷ account "systemProgram" false false
      ∷ [];
  args = field "ix" (defined "InitPaymentInfoIx") ∷ [];
}

abbrev pub update_payment_info_context : IdlInstruction
update_payment_info_context = record {
  name = "updatePaymentInfo";
  accounts =
      account "paymentInfo" true false
      ∷ account "authority" false true
      ∷ account "payer" true true
      ∷ account "systemProgram" false false
      ∷ [];
  args = field "ix" (defined "UpdatePaymentInfoIx") ∷ [];
}

abbrev pub close_payment_info_context : IdlInstruction
close_payment_info_context = record {
  name = "closePaymentInfo";
  accounts = account "paymentInfo" true false ∷ account "authority" true true ∷ [];
  args = [];
}
