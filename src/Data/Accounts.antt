-- ===== src/Data/Accounts.antt =====
-- The account types of the IDL (sdk/idl/cardinal_rewards_center.ts, `accounts`).
use discount_program.Common.{ℕ, String, Bool, Option, List}
use discount_program.Common.Int.{ℤ}

abbrev pub PublicKey : Type 0
PublicKey = ℕ

pub record StakeAuthorizationRecord : Type 0 where
  pub bump : ℕ
  pub pool : PublicKey
  pub mint : PublicKey

-- `PaymentShare` of sdk/constants.ts
pub record PaymentShare : Type 0 where
  pub address : PublicKey
  pub basis_points : ℕ

pub record PaymentInfo : Type 0 where
  pub bump : ℕ
  pub authority : PublicKey
  pub identifier : String
  pub payment_amount : ℤ
  pub payment_mint : PublicKey
  pub payment_shares : List PaymentShare

pub record RewardEntry : Type 0 where
  pub bump : ℕ
  pub stake_entry : PublicKey
  pub reward_distributor : PublicKey
  pub reward_seconds_received : ℤ
  pub multiplier : ℤ

pub record RewardDistributor : Type 0 where
  pub bump : ℕ
  pub stake_pool : PublicKey
  pub kind : ℕ
  pub authority : PublicKey
  pub identifier : ℤ
  pub reward_mint : PublicKey
  pub reward_amount : ℤ
  pub reward_duration_seconds : ℤ
  pub rewards_issued : ℤ
  pub default_multiplier : ℤ
  pub multiplier_decimals : ℕ
  pub claim_rewards_payment_info : PublicKey
  pub max_reward_seconds_received : Option ℤ

pub record ReceiptManager : Type 0 where
  pub bump : ℕ
  pub stake_pool : PublicKey
  pub authority : PublicKey
  pub required_stake_seconds : ℤ
  pub stake_seconds_to_use : ℤ
  pub claimed_receipts_counter : ℤ
  pub requires_authorization : Bool
  pub payment_amount : ℤ
  pub payment_mint : PublicKey
  pub payment_shares : List PaymentShare
  pub claim_action_payment_info : PublicKey
  pub name : String
  pub max_claimed_receipts : Option ℤ

pub record RewardReceipt : Type 0 where
  pub bump : ℕ
  pub stake_entry : PublicKey
  pub receipt_manager : PublicKey
  pub target : PublicKey
  pub allowed : Bool

pub record StakeBooster : Type 0 where
  pub bump : ℕ
  pub stake_pool : PublicKey
  pub identifier : ℤ
  pub payment_amount : ℤ
  pub payment_mint : PublicKey
  pub payment_shares : List PaymentShare
  pub boost_seconds : ℤ
  pub start_time_seconds : ℤ
  pub boost_action_payment_info : PublicKey

pub record UserEscrow : Type 0 where
  pub bump : ℕ
  pub user : PublicKey

pub record StakeEntry : Type 0 where
  pub bump : ℕ
  pub kind : ℕ
  pub pool : PublicKey
  pub amount : ℤ
  pub stake_mint : PublicKey
  pub last_staker : PublicKey
  pub last_staked_at : ℤ
  pub last_updated_at : ℤ
  pub total_stake_seconds : ℤ
  pub used_stake_seconds : ℤ
  pub cooldown_start_seconds : Option ℤ
  pub multiplier_stake_seconds : Option ℤ
  pub multiplier_basis_points : Option ℤ

pub record StakePool : Type 0 where
  pub bump : ℕ
  pub authority : PublicKey
  pub total_staked : ℕ
  pub reset_on_unstake : Bool
  pub cooldown_seconds : Option ℕ
  pub min_stake_seconds : Option ℕ
  pub end_date : Option ℤ
  pub stake_payment_info : PublicKey
  pub unstake_payment_info : PublicKey
  pub requires_authorization : Bool
  pub allowed_creators : List PublicKey
  pub allowed_collections : List PublicKey
  pub identifier : String

-- `keyof AllAccountsMap<CardinalRewardsCenter>`: the names of the account types.
pub data AccountType : Type 0 where
  stake_authorization_record payment_info reward_entry reward_distributor : AccountType
  receipt_manager reward_receipt stake_booster user_escrow stake_entry stake_pool : AccountType

-- What an account of each type holds, the `parsed` of an `IdlAccountData<T>`.
abbrev pub AccountOf : AccountType → Type 0
AccountOf stake_authorization_record = StakeAuthorizationRecord
AccountOf payment_info = PaymentInfo
AccountOf reward_entry = RewardEntry
AccountOf reward_distributor = RewardDistributor
AccountOf receipt_manager = ReceiptManager
AccountOf reward_receipt = RewardReceipt
AccountOf stake_booster = StakeBooster
AccountOf user_escrow = UserEscrow
AccountOf stake_entry = StakeEntry
AccountOf stake_pool = StakePool
