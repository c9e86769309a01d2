-- ===== src/Program/Structs.antt =====
-- The argument types of the program (programs/rewards-center/src), with their fields in the order in
-- which they are serialized, by the names that Anchor's clients use.
use discount_program.Common.{List, [], ◌∷◌}
use discount_program.Idl.Defs.{
  IdlTypeDef, struct, field, u8, u16, u32, u64, u128, i64, bool, string, public_key, option, vec,
  defined,
}

abbrev pub init_payment_info_ix_struct : IdlTypeDef
init_payment_info_ix_struct = struct "InitPaymentInfoIx" (
    field "authority" public_key
    ∷ field "identifier" string
    ∷ field "paymentAmount" u64
    ∷ field "paymentMint" public_key
    ∷ field "paymentShares" (vec (defined "PaymentShare"))
    ∷ [])

abbrev pub payment_share_struct : IdlTypeDef
payment_share_struct =
    struct "PaymentShare" (field "address" public_key ∷ field "basisPoints" u16 ∷ [])

abbrev pub update_payment_info_ix_struct : IdlTypeDef
update_payment_info_ix_struct = struct "UpdatePaymentInfoIx" (
    field "authority" public_key
    ∷ field "paymentAmount" u64
    ∷ field "paymentMint" public_key
    ∷ field "paymentShares" (vec (defined "PaymentShare"))
    ∷ [])

abbrev pub init_reward_distributor_ix_struct : IdlTypeDef
init_reward_distributor_ix_struct = struct "InitRewardDistributorIx" (
    field "rewardAmount" u64
    ∷ field "rewardDurationSeconds" u128
    ∷ field "identifier" u64
    ∷ field "supply" (option u64)
    ∷ field "defaultMultiplier" (option u64)
    ∷ field "multiplierDecimals" (option u8)
    ∷ field "maxRewardSecondsReceived" (option u128)
    ∷ field "claimRewardsPaymentInfo" public_key
    ∷ [])

abbrev pub update_reward_distributor_ix_struct : IdlTypeDef
update_reward_distributor_ix_struct = struct "UpdateRewardDistributorIx" (
    field "defaultMultiplier" u64
    ∷ field "multiplierDecimals" u8
    ∷ field "rewardAmount" u64
    ∷ field "rewardDurationSeconds" u128
    ∷ field "maxRewardSecondsReceived" (option u128)
    ∷ field "claimRewardsPaymentInfo" public_key
    ∷ [])

abbrev pub update_reward_entry_ix_struct : IdlTypeDef
update_reward_entry_ix_struct = struct "UpdateRewardEntryIx" (field "multiplier" u64 ∷ [])

abbrev pub init_receipt_manager_ix_struct : IdlTypeDef
init_receipt_manager_ix_struct = struct "InitReceiptManagerIx" (
    field "name" string
    ∷ field "authority" public_key
    ∷ field "requiredStakeSeconds" u128
    ∷ field "stakeSecondsToUse" u128
    ∷ field "paymentMint" public_key
    ∷ field "paymentAmount" u64
    ∷ field "paymentShares" (vec (defined "PaymentShare"))
    ∷ field "requiresAuthorization" bool
    ∷ field "claimActionPaymentInfo" public_key
    ∷ field "maxClaimedReceipts" (option u128)
    ∷ [])

abbrev pub update_receipt_manager_ix_struct : IdlTypeDef
update_receipt_manager_ix_struct = struct "UpdateReceiptManagerIx" (
    field "authority" public_key
    ∷ field "requiredStakeSeconds" u128
    ∷ field "stakeSecondsToUse" u128
    ∷ field "paymentMint" public_key
    ∷ field "paymentAmount" u64
    ∷ field "paymentShares" (vec (defined "PaymentShare"))
    ∷ field "requiresAuthorization" bool
    ∷ field "claimActionPaymentInfo" public_key
    ∷ field "maxClaimedReceipts" (option u128)
    ∷ [])

abbrev pub boost_stake_entry_ix_struct : IdlTypeDef
boost_stake_entry_ix_struct = struct "BoostStakeEntryIx" (field "secondsToBoost" u64 ∷ [])

abbrev pub init_stake_booster_ix_struct : IdlTypeDef
init_stake_booster_ix_struct = struct "InitStakeBoosterIx" (
    field "stakePool" public_key
    ∷ field "identifier" u64
    ∷ field "paymentAmount" u64
    ∷ field "paymentMint" public_key
    ∷ field "paymentShares" (vec (defined "PaymentShare"))
    ∷ field "boostSeconds" u128
    ∷ field "startTimeSeconds" i64
    ∷ field "boostActionPaymentInfo" public_key
    ∷ [])

abbrev pub update_stake_booster_ix_struct : IdlTypeDef
update_stake_booster_ix_struct = struct "UpdateStakeBoosterIx" (
    field "paymentAmount" u64
    ∷ field "paymentMint" public_key
    ∷ field "paymentShares" (vec (defined "PaymentShare"))
    ∷ field "boostSeconds" u128
    ∷ field "startTimeSeconds" i64
    ∷ field "boostActionPaymentInfo" public_key
    ∷ [])

abbrev pub init_pool_ix_struct : IdlTypeDef
init_pool_ix_struct = struct "InitPoolIx" (
    field "allowedCollections" (vec public_key)
    ∷ field "allowedCreators" (vec public_key)
    ∷ field "requiresAuthorization" bool
    ∷ field "authority" public_key
    ∷ field "resetOnUnstake" bool
    ∷ field "cooldownSeconds" (option u32)
    ∷ field "minStakeSeconds" (option u32)
    ∷ field "endDate" (option i64)
    ∷ field "stakePaymentInfo" public_key
    ∷ field "unstakePaymentInfo" public_key
    ∷ field "identifier" string
    ∷ [])

abbrev pub update_pool_ix_struct : IdlTypeDef
update_pool_ix_struct = struct "UpdatePoolIx" (
    field "allowedCollections" (vec public_key)
    ∷ field "allowedCreators" (vec public_key)
    ∷ field "requiresAuthorization" bool
    ∷ field "authority" public_key
    ∷ field "resetOnUnstake" bool
    ∷ field "cooldownSeconds" (option u32)
    ∷ field "minStakeSeconds" (option u32)
    ∷ field "endDate" (option i64)
    ∷ field "stakePaymentInfo" public_key
    ∷ field "unstakePaymentInfo" public_key
    ∷ [])

abbrev pub init_discount_ix_struct : IdlTypeDef
init_discount_ix_struct =
    struct "InitDiscountIx"
      (field "discountStr" string ∷ field "authority" public_key ∷ field "identifier" string ∷ [])

-- The argument types of the instructions of lib.rs, and the type that they have fields of.
abbrev pub structs : List IdlTypeDef
structs =
    init_pool_ix_struct ∷ update_pool_ix_struct ∷ init_discount_ix_struct
    ∷ init_reward_distributor_ix_struct ∷ update_reward_distributor_ix_struct
    ∷ update_reward_entry_ix_struct ∷ init_payment_info_ix_struct ∷ update_payment_info_ix_struct
    ∷ payment_share_struct ∷ []

-- The argument types of the modules that lib.rs does not declare: reward_receipts and
-- stake_booster.
abbrev pub undeclared_structs : List IdlTypeDef
undeclared_structs =
    init_receipt_manager_ix_struct ∷ update_receipt_manager_ix_struct ∷ boost_stake_entry_ix_struct
    ∷ init_stake_booster_ix_struct ∷ update_stake_booster_ix_struct ∷ []
