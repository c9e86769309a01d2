-- ===== src/Idl/Errors.antt =====
-- The errors of the IDL (sdk/idl/cardinal_rewards_center.ts, `errors`).
use discount_program.Common.{List, [], ◌∷◌, ◌++◌}
use discount_program.Idl.Defs.{IdlError, error}

abbrev pub validation_errors : List IdlError
validation_errors =
    error 6000 "InvalidStakePool" "Invalid stake pool"
    ∷ error 6001 "InvalidStakeEntry" "Invalid stake entry"
    ∷ error 6002 "InvalidAuthority" "Invalid stake pool authority"
    ∷ error 6003 "InvalidEscrow" "Mismatched user and escrow"
    ∷ []

abbrev pub action_errors : List IdlError
action_errors =
    error 6010 "InvalidUserStakeMintTokenAccount" "Invalid user original mint token account"
    ∷ error 6011 "InvalidLastStaker" "Invalid last staker"
    ∷ error 6012 "CannotUpdateUnstakedEntry" "Cannot update unstaked entry"
    ∷ error 6013 "CannotCloseStakedEntry" "Cannot close staked entry"
    ∷ error 6014 "CannotClosePoolWithStakedEntries" "Cannot close staked entry"
    ∷ []

abbrev pub authorization_errors : List IdlError
authorization_errors =
    error 6020 "InvalidMintMetadata" "Invalid mint metadata"
    ∷ error 6021 "MintNotAllowedInPool" "Mint not allowed in this pool"
    ∷ error 6022 "InvalidStakeAuthorizationRecord" "Invalid stake authorization provided"
    ∷ error 6023 "InvalidMintMetadataOwner" "Mint metadata is owned by the incorrect program"
    ∷ []

abbrev pub payment_errors : List IdlError
payment_errors =
    error 6030 "InvalidPaymentMint" "Invalid payment mint"
    ∷ error 6031 "InvalidPaymentShares" "Invalid payment shares"
    ∷ error 6032 "InvalidPaymentShare" "Invalid payment share"
    ∷ error 6033 "InvalidPaymentTokenAccount" "Invalid payment token account"
    ∷ error 6034 "InvalidPayerTokenAccount" "Invalid payer token account"
    ∷ error 6035 "InvalidTransferProgram" "Invalid transfer program"
    ∷ []

abbrev pub cooldown_errors : List IdlError
cooldown_errors =
    error 6040 "CooldownSecondRemaining" "Token still has some cooldown seconds remaining" ∷ []

abbrev pub stake_pool_errors : List IdlError
stake_pool_errors =
    error 6050 "StakePoolHasEnded" "Stake pool has ended"
    ∷ error 6051 "MinStakeSecondsNotSatisfied" "Minimum stake seconds not satisfied"
    ∷ []

abbrev pub boost_errors : List IdlError
boost_errors =
    error 6060 "CannotBoostUnstakedToken" "Cannot boost unstaked token"
    ∷ error 6061 "CannotBoostMoreThanCurrentTime"
        "Cannot boost past current time less than start time"
    ∷ error 6062 "InvalidBoostPayerTokenAccount" "Invalid boost payer token account"
    ∷ error 6063 "InvalidBoostPaymentRecipientTokenAccount"
        "Invalid boost payment recipient token account"
    ∷ error 6064 "InvalidPaymentInfo" "Invalid payment info"
    ∷ error 6065 "CannotBoostFungibleToken" "Cannot boost a fungible token stake entry"
    ∷ []

abbrev pub reward_receipt_errors : List IdlError
reward_receipt_errors =
    error 6070 "MaxNumberOfReceiptsExceeded" "Max number of receipts exceeded"
    ∷ error 6071 "InvalidClaimer" "Invalid claimer"
    ∷ error 6072 "RewardSecondsNotSatisfied" "Reward seconds not satisifed"
    ∷ error 6073 "InvalidPayerTokenAcount" "Invalid payer token account"
    ∷ error 6074 "InvalidMaxClaimedReceipts" "Invalid max claimed receipts"
    ∷ error 6075 "InvalidRewardReceipt" "Invalid reward receipt"
    ∷ error 6076 "InvalidReceiptEntry" "Invalid receipt entry"
    ∷ error 6077 "InsufficientAvailableStakeSeconds" "Insufficient available stake seconds to use"
    ∷ error 6078 "InvalidReceiptManager" "Invalid receipt manager"
    ∷ error 6079 "RewardReceiptIsNotAllowed" "Reward receipt is not allowed"
    ∷ error 6080 "RewardReceiptAlreadyClaimed" "Reward receipt already claimed"
    ∷ []

abbrev pub reward_distribution_errors : List IdlError
reward_distribution_errors =
    error 6090 "InvalidTokenAccount" "Invalid token account"
    ∷ error 6091 "InvalidRewardMint" "Invalid reward mint"
    ∷ error 6092 "InvalidUserRewardMintTokenAccount" "Invalid user reward mint token account"
    ∷ error 6093 "InvalidRewardDistributor" "Invalid reward distributor"
    ∷ error 6094 "InvalidRewardDistributorAuthority" "Invalid reward distributor authority"
    ∷ error 6095 "InvalidRewardDistributorKind" "Invalid reward distributor kind"
    ∷ error 6096 "SupplyRequired" "Initial supply required for kind treasury"
    ∷ error 6097 "InvalidPoolDistributor" "Invalid distributor for pool"
    ∷ error 6098 "DistributorNotClosed" "Distributor is already open"
    ∷ error 6099 "DistributorAlreadyClosed" "Distributor is already closed"
    ∷ error 6100 "InvalidRewardEntry" "Invalid reward entry"
    ∷ error 6101 "InvalidRewardDistributorTokenAccount" "Invalid reward distributor token account"
    ∷ error 6102 "InvalidAuthorityTokenAccount" "Invalid authority token account"
    ∷ error 6103 "MaxRewardSecondsClaimed" "Max reward seconds claimed"
    ∷ []

abbrev pub errors : List IdlError
errors =
    validation_errors
    ++ (action_errors
        ++ (authorization_errors
            ++ (payment_errors
                ++ (cooldown_errors
                    ++ (stake_pool_errors
                        ++ (boost_errors
                            ++ (reward_receipt_errors ++ (reward_distribution_errors))))))))
