-- ===== src/Program/Errors.antt =====
-- The errors of the program (programs/rewards-center/src/errors.rs), by the comments of that file.
pub mod Codes
use discount_program.Common.{ℕ, ◌+◌, String, List, [], ◌∷◌, ◌++◌}
use discount_program.Idl.Defs.{IdlError, error}

-- A variant of `ErrorCode` with its message, with a discriminant or without.
pub data Variant : Type 0 where
  numbered : ℕ → (name msg : String) → Variant
  plain : (name msg : String) → Variant

abbrev pub validation_variants : List Variant
validation_variants =
    numbered 0 "InvalidStakePool" "Invalid stake pool"
    ∷ plain "InvalidStakeEntry" "Invalid stake entry"
    ∷ plain "InvalidAuthority" "Invalid stake pool authority"
    ∷ plain "InvalidEscrow" "Mismatched user and escrow"
    ∷ []

abbrev pub action_variants : List Variant
action_variants =
    numbered 10 "InvalidUserStakeMintTokenAccount" "Invalid user original mint token account"
    ∷ plain "InvalidLastStaker" "Invalid last staker"
    ∷ plain "CannotUpdateUnstakedEntry" "Cannot update unstaked entry"
    ∷ plain "CannotCloseStakedEntry" "Cannot close staked entry"
    ∷ plain "CannotClosePoolWithStakedEntries" "Cannot close staked entry"
    ∷ []

abbrev pub authorization_variants : List Variant
authorization_variants =
    numbered 20 "InvalidMintMetadata" "Invalid mint metadata"
    ∷ plain "MintNotAllowedInPool" "Mint not allowed in this pool"
    ∷ plain "InvalidStakeAuthorizationRecord" "Invalid stake authorization provided"
    ∷ plain "InvalidMintMetadataOwner" "Mint metadata is owned by the incorrect program"
    ∷ []

abbrev pub payment_variants : List Variant
payment_variants =
    numbered 30 "InvalidPaymentMint" "Invalid payment mint"
    ∷ plain "InvalidPaymentShares" "Invalid payment shares"
    ∷ plain "InvalidPaymentShare" "Invalid payment share"
    ∷ plain "InvalidPaymentTokenAccount" "Invalid payment token account"
    ∷ plain "InvalidPayerTokenAccount" "Invalid payer token account"
    ∷ plain "InvalidTransferProgram" "Invalid transfer program"
    ∷ []

abbrev pub cooldown_variants : List Variant
cooldown_variants =
    numbered 40 "CooldownSecondRemaining" "Token still has some cooldown seconds remaining" ∷ []

abbrev pub stake_pool_variants : List Variant
stake_pool_variants =
    numbered 50 "StakePoolHasEnded" "Stake pool has ended"
    ∷ plain "MinStakeSecondsNotSatisfied" "Minimum stake seconds not satisfied"
    ∷ []

abbrev pub boost_variants : List Variant
boost_variants =
    numbered 60 "CannotBoostUnstakedToken" "Cannot boost unstaked token"
    ∷ plain "CannotBoostMoreThanCurrentTime" "Cannot boost past current time less than start time"
    ∷ plain "InvalidBoostPayerTokenAccount" "Invalid boost payer token account"
    ∷ plain "InvalidBoostPaymentRecipientTokenAccount"
        "Invalid boost payment recipient token account"
    ∷ plain "InvalidPaymentInfo" "Invalid payment info"
    ∷ plain "CannotBoostFungibleToken" "Cannot boost a fungible token stake entry"
    ∷ []

abbrev pub reward_receipt_variants : List Variant
reward_receipt_variants =
    numbered 70 "MaxNumberOfReceiptsExceeded" "Max number of receipts exceeded"
    ∷ plain "InvalidClaimer" "Invalid claimer"
    ∷ plain "RewardSecondsNotSatisfied" "Reward seconds not satisifed"
    ∷ plain "InvalidPayerTokenAcount" "Invalid payer token account"
    ∷ plain "InvalidMaxClaimedReceipts" "Invalid max claimed receipts"
    ∷ plain "InvalidRewardReceipt" "Invalid reward receipt"
    ∷ plain "InvalidReceiptEntry" "Invalid receipt entry"
    ∷ plain "InsufficientAvailableStakeSeconds" "Insufficient available stake seconds to use"
    ∷ plain "InvalidReceiptManager" "Invalid receipt manager"
    ∷ plain "RewardReceiptIsNotAllowed" "Reward receipt is not allowed"
    ∷ plain "RewardReceiptAlreadyClaimed" "Reward receipt already claimed"
    ∷ []

abbrev pub reward_distribution_variants : List Variant
reward_distribution_variants =
    numbered 90 "InvalidTokenAccount" "Invalid token account"
    ∷ plain "InvalidRewardMint" "Invalid reward mint"
    ∷ plain "InvalidUserRewardMintTokenAccount" "Invalid user reward mint token account"
    ∷ plain "InvalidRewardDistributor" "Invalid reward distributor"
    ∷ plain "InvalidRewardDistributorAuthority" "Invalid reward distributor authority"
    ∷ plain "InvalidRewardDistributorKind" "Invalid reward distributor kind"
    ∷ plain "SupplyRequired" "Initial supply required for kind treasury"
    ∷ plain "InvalidPoolDistributor" "Invalid distributor for pool"
    ∷ plain "DistributorNotClosed" "Distributor is already open"
    ∷ plain "DistributorAlreadyClosed" "Distributor is already closed"
    ∷ plain "InvalidRewardEntry" "Invalid reward entry"
    ∷ plain "InvalidRewardDistributorTokenAccount" "Invalid reward distributor token account"
    ∷ plain "InvalidAuthorityTokenAccount" "Invalid authority token account"
    ∷ plain "MaxRewardSecondsClaimed" "Max reward seconds claimed"
    ∷ []

abbrev pub variants : List Variant
variants =
    validation_variants
    ++ (action_variants
        ++ (authorization_variants
            ++ (payment_variants
                ++ (cooldown_variants
                    ++ (stake_pool_variants
                        ++ (boost_variants
                            ++ (reward_receipt_variants ++ (reward_distribution_variants))))))))

-- The codes of an Anchor program: 6000 and the discriminant, which is one more than that of the
-- variant before where none is given.
unfoldable pub error_codes : (discriminant : ℕ) → List Variant → List IdlError
error_codes discriminant [] = []
error_codes discriminant (numbered n name msg ∷ rest) =
    error (6000 + n) name msg ∷ error_codes (n + 1) rest
error_codes discriminant (plain name msg ∷ rest) =
    error (6000 + discriminant) name msg ∷ error_codes (discriminant + 1) rest
