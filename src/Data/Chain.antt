-- ===== src/Data/Chain.antt =====
-- Account data as fetched, and what the SDK puts into a transaction. An instruction of the rewards
-- center is kept as the call of Anchor's builder that makes it.
use discount_program.Common.{ℕ, String, Bool, Option, List}
use discount_program.Common.Int.{ℤ}
use discount_program.Data.Accounts.{
  PublicKey, StakeAuthorizationRecord, PaymentInfo, RewardEntry, RewardDistributor, ReceiptManager,
  RewardReceipt, StakeBooster, UserEscrow, StakeEntry, StakePool, AccountType, AccountOf,
}

-- `AccountInfo<Buffer>`, with the fields that the SDK reads; `bytes` is its `data`.
pub record AccountInfo : Type 0 where
  pub bytes : List ℕ
  pub owner : PublicKey

-- `type` and `parsed` of a `NullableIdlAccountData`; `unknown` has the `parsed` of `null`.
pub data Parsed : Type 0 where
  stake_authorization_record : StakeAuthorizationRecord → Parsed
  payment_info : PaymentInfo → Parsed
  reward_entry : RewardEntry → Parsed
  reward_distributor : RewardDistributor → Parsed
  receipt_manager : ReceiptManager → Parsed
  reward_receipt : RewardReceipt → Parsed
  stake_booster : StakeBooster → Parsed
  user_escrow : UserEscrow → Parsed
  stake_entry : StakeEntry → Parsed
  stake_pool : StakePool → Parsed
  unknown : Parsed

-- `NullableIdlAccountData`: the account's own fields stand in `info`.
pub record AccountData : Type 0 where
  pub timestamp : ℕ
  pub pubkey : PublicKey
  pub info : AccountInfo
  pub parsed : Parsed

-- `IdlAccountData<T>` of sdk/constants.ts
pub record IdlAccountData (T : AccountType) : Type 0 where
  pub timestamp : ℕ
  pub pubkey : PublicKey
  pub parsed : AccountOf T

pub record AccountMeta : Type 0 where
  pub pubkey : PublicKey
  pub is_signer : Bool
  pub is_writable : Bool

-- An argument of a method of the program.
pub data Argument : Type 0 where
  public_key : PublicKey → Argument
  bn : ℤ → Argument
  fields : List (String × ℤ) → Argument

-- `program.methods.METHOD(args).accounts(accounts).remainingAccounts(metas).instruction()`;
-- `strict` tells `accountsStrict` from `accounts`.
pub record ProgramCall : Type 0 where
  pub method : String
  pub args : List Argument
  pub strict : Bool
  pub accounts : List (String × PublicKey)
  pub remaining_accounts : List AccountMeta

pub data Instruction : Type 0 where
  rewards_center : ProgramCall → Instruction
  -- `ComputeBudgetProgram.setComputeUnitLimit({ units })`
  set_compute_unit_limit : (units : ℕ) → Instruction
  -- `createAssociatedTokenAccountIdempotentInstruction`
  create_associated_token_account : (payer associated_token owner mint : PublicKey) → Instruction

-- A `Transaction`: its instructions, in the order of the calls of `add`.
abbrev pub Transaction : Type 0
Transaction = List Instruction

pub record Creator : Type 0 where
  pub address : PublicKey
  pub verified : Bool

pub record Collection : Type 0 where
  pub key : PublicKey
  pub verified : Bool

-- `Metadata` of mpl-token-metadata, with the fields that are read.
pub record Metadata : Type 0 where
  pub creators : Option (List Creator)
  pub collection : Option Collection
  -- `programmableConfig`, with its `ruleSet`
  pub programmable_config : Option (Option PublicKey)

-- `MintManager` of the creator standard, with its `ruleset`
pub record MintManager : Type 0 where
  pub rule_set : PublicKey
