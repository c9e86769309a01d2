-- ===== src/Idl/Receipts.antt =====
-- The instructions of the IDL (sdk/idl/cardinal_rewards_center.ts) on receipt managers and reward receipts.
use discount_program.Common.{true, false, [], ◌∷◌}
use discount_program.Idl.Defs.{IdlInstruction, account, field, bool, defined}

abbrev pub init_receipt_manager : IdlInstruction
init_receipt_manager = record {
  name = "initReceiptManager";
  accounts =
      account "receiptManager" true false
      ∷ account "stakePool" false false
      ∷ account "payer" true true
      ∷ account "systemProgram" false false
      ∷ [];
  args = field "ix" (defined "InitReceiptManagerIx") ∷ [];
}

abbrev pub update_receipt_manager : IdlInstruction
update_receipt_manager = record {
  name = "updateReceiptManager";
  accounts = account "receiptManager" true false ∷ account "authority" false true ∷ [];
  args = field "ix" (defined "UpdateReceiptManagerIx") ∷ [];
}

abbrev pub close_receipt_manager : IdlInstruction
close_receipt_manager = record {
  name = "closeReceiptManager";
  accounts = account "receiptManager" true false ∷ account "authority" true true ∷ [];
  args = [];
}

abbrev pub init_reward_receipt : IdlInstruction
init_reward_receipt = record {
  name = "initRewardReceipt";
  accounts =
      account "rewardReceipt" true false
      ∷ account "receiptManager" false false
      ∷ account "stakeEntry" false false
      ∷ account "payer" true true
      ∷ account "systemProgram" false false
      ∷ [];
  args = [];
}

abbrev pub close_reward_receipt : IdlInstruction
close_reward_receipt = record {
  name = "closeRewardReceipt";
  accounts =
      account "rewardReceipt" true false
      ∷ account "receiptManager" false false
      ∷ account "authority" true true
      ∷ [];
  args = [];
}

abbrev pub claim_reward_receipt : IdlInstruction
claim_reward_receipt = record {
  name = "claimRewardReceipt";
  accounts =
      account "rewardReceipt" true false
      ∷ account "receiptManager" true false
      ∷ account "stakeEntry" true false
      ∷ account "payer" true true
      ∷ account "claimer" true true
      ∷ [];
  args = [];
}

abbrev pub set_reward_receipt_allowed : IdlInstruction
set_reward_receipt_allowed = record {
  name = "setRewardReceiptAllowed";
  accounts =
      account "receiptManager" false false
      ∷ account "rewardReceipt" true false
      ∷ account "authority" true true
      ∷ [];
  args = field "allowed" bool ∷ [];
}
