-- ===== src/Idl/Types.antt =====
-- The types of the IDL (sdk/idl/cardinal_rewards_center.ts, `types`).
use discount_program.Common.{List, [], ◌∷◌}
use discount_program.Idl.Defs.{
  IdlTypeDef, struct, enum, field, u8, u16, u32, u64, u128, i64, bool, string, public_key, option,
  vec, defined,
}

abbrev pub init_payment_info_ix : IdlTypeDef
init_payment_info_ix = struct "InitPaymentInfoIx" (
    field "authority" public_key
    ∷ field "identifier" string
    ∷ field "paymentAmount" u64
    ∷ field "paymentMint" public_key
    ∷ field "paymentShares" (vec (defined "PaymentShare"))
    ∷ [])

abbrev pub payment_share : IdlTypeDef
payment_share = struct "PaymentShare" (field "address" public_key ∷ field "basisPoints" u16 ∷ [])

abbrev pub update_payment_info_ix : IdlTypeDef
update_payment_info_ix = struct "UpdatePaymentInfoIx" (
    field "authority" public_key
    ∷ field "paymentAmount" u64
    ∷ field "paymentMint" public_key
    ∷ field "paymentShares" (vec (defined "PaymentShare"))
    ∷ [])

abbrev pub init_reward_distributor_ix : IdlTypeDef
init_reward_distributor_ix = struct "InitRewardDistributorIx" (
    field "rewardAmount" u64
    ∷ field "rewardDurationSeconds" u128
    ∷ field "identifier" u64
    ∷ field "supply" (option u64)
    ∷ field "defaultMultiplier" (option u64)
    ∷ field "multiplierDecimals" (option u8)
    ∷ field "maxRewardSecondsReceived" (option u128)
    ∷ field "claimRewardsPaymentInfo" public_key
    ∷ [])

abbrev pub update_reward_distributor_ix : IdlTypeDef
update_reward_distributor_ix = struct "UpdateRewardDistributorIx" (
    field "defaultMultiplier" u64
    ∷ field "multiplierDecimals" u8
    ∷ field "rewardAmount" u64
    ∷ field "rewardDurationSeconds" u128
    ∷ field "maxRewardSecondsReceived" (option u128)
    ∷ field "claimRewardsPaymentInfo" public_key
    ∷ [])

abbrev pub update_reward_entry_ix : IdlTypeDef
update_reward_entry_ix = struct "UpdateRewardEntryIx" (field "multiplier" u64 ∷ [])

abbrev pub init_receipt_manager_ix : IdlTypeDef
init_receipt_manager_ix = struct "InitReceiptManagerIx" (
    field "name" string
    ∷ field "authority" public_key
    ∷ field "requiredStakeSeconds" u128
    ∷ field "stakeSecondsToUse" u128
    ∷ field "paymentMint" public_key
    ∷ field "paymentAmount" u64
    ∷ field "paymentShares" (vec (defined "PaymentShare"))
    ∷ field "requiresAuthorization" bool
    ∷ field "claimActionPaymentInfo" public_key
    ∷ field "maxClaimedReceipts" (option u128)
    ∷ [])

abbrev pub update_receipt_manager_ix : IdlTypeDef
update_receipt_manager_ix = struct "UpdateReceiptManagerIx" (
    field "authority" public_key
    ∷ field "requiredStakeSeconds" u128
    ∷ field "stakeSecondsToUse" u128
    ∷ field "paymentMint" public_key
    ∷ field "paymentAmount" u64
    ∷ field "paymentShares" (vec (defined "PaymentShare"))
    ∷ field "requiresAuthorization" bool
    ∷ field "claimActionPaymentInfo" public_key
    ∷ field "maxClaimedReceipts" (option u128)
    ∷ [])

abbrev pub boost_stake_entry_ix : IdlTypeDef
boost_stake_entry_ix = struct "BoostStakeEntryIx" (field "secondsToBoost" u64 ∷ [])

abbrev pub init_stake_booster_ix : IdlTypeDef
init_stake_booster_ix = struct "InitStakeBoosterIx" (
    field "stakePool" public_key
    ∷ field "identifier" u64
    ∷ field "paymentAmount" u64
    ∷ field "paymentMint" public_key
    ∷ field "paymentShares" (vec (defined "PaymentShare"))
    ∷ field "boostSeconds" u128
    ∷ field "startTimeSeconds" i64
    ∷ field "boostActionPaymentInfo" public_key
    ∷ [])

abbrev pub update_stake_booster_ix : IdlTypeDef
update_stake_booster_ix = struct "UpdateStakeBoosterIx" (
    field "paymentAmount" u64
    ∷ field "paymentMint" public_key
    ∷ field "paymentShares" (vec (defined "PaymentShare"))
    ∷ field "boostSeconds" u128
    ∷ field "startTimeSeconds" i64
    ∷ field "boostActionPaymentInfo" public_key
    ∷ [])

abbrev pub init_pool_ix : IdlTypeDef
init_pool_ix = struct "InitPoolIx" (
    field "allowedCollections" (vec public_key)
    ∷ field "allowedCreators" (vec public_key)
    ∷ field "requiresAuthorization" bool
    ∷ field "authority" public_key
    ∷ field "resetOnUnstake" bool
    ∷ field "cooldownSeconds" (option u32)
    ∷ field "minStakeSeconds" (option u32)
    ∷ field "endDate" (option i64)
    ∷ field "stakePaymentInfo" public_key
    ∷ field "unstakePaymentInfo" public_key
    ∷ field "identifier" string
    ∷ [])

abbrev pub update_pool_ix : IdlTypeDef
update_pool_ix = struct "UpdatePoolIx" (
    field "allowedCollections" (vec public_key)
    ∷ field "allowedCreators" (vec public_key)
    ∷ field "requiresAuthorization" bool
    ∷ field "authority" public_key
    ∷ field "resetOnUnstake" bool
    ∷ field "cooldownSeconds" (option u32)
    ∷ field "minStakeSeconds" (option u32)
    ∷ field "endDate" (option i64)
    ∷ field "stakePaymentInfo" public_key
    ∷ field "unstakePaymentInfo" public_key
    ∷ [])

abbrev pub action : IdlTypeDef
action =
    enum "Action"
      ("Stake" ∷ "Unstake" ∷ "ClaimRewards" ∷ "ClaimRewardReceipt" ∷ "BoostStakeEntry" ∷ [])

abbrev pub types : List IdlTypeDef
types =
    init_payment_info_ix ∷ payment_share ∷ update_payment_info_ix ∷ init_reward_distributor_ix
    ∷ update_reward_distributor_ix ∷ update_reward_entry_ix ∷ init_receipt_manager_ix
    ∷ update_receipt_manager_ix ∷ boost_stake_entry_ix ∷ init_stake_booster_ix
    ∷ update_stake_booster_ix ∷ init_pool_ix ∷ update_pool_ix ∷ action ∷ []
