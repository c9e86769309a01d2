-- ===== src/Lib.antt =====
-- The client SDK of the rewards center (sdk/), a staking program on Solana, and those parts of the
-- program itself (programs/rewards-center/src) that the SDK's transactions must agree with.
--
-- Parts. An application calls one of five functions of sdk/api.ts (stake, unstake, claimRewards,
-- claimRewardReceipt, boost). Each derives addresses (sdk/pda.ts, sdk/utils.ts), fetches and decodes
-- the accounts (sdk/accounts.ts), and builds transactions, with the accounts for authorization
-- (sdk/authorization.ts) and for payments (sdk/payment.ts) behind those that the IDL names
-- (sdk/idl/cardinal_rewards_center.ts). sdk/rewardDistribution.ts previews the rewards.
--
-- Files:
--   Common, Common/*     tests, lists, results, integers and tables that the parts share
--   Idl, Idl/*           the constant IDL: a definition per instruction, named as the instruction, per
--                        argument type (Idl/Types) and per group of errors (Idl/Errors)
--   Data/Accounts        the accounts of the IDL and of sdk/constants.ts, a record per account type
--   Data/Chain           fetched accounts, instructions and transactions
--   Packages             what the SDK takes from packages and from the cluster, as parameters
--   Constants            sdk/constants.ts and METADATA_PROGRAM_ID of sdk/utils.ts
--   Pda                  sdk/pda.ts (findStakeEntryId is find_stake_entry_id, and so on), sdk/utils.ts
--   Authorization        sdk/authorization.ts: remaining_accounts_for_authorization
--   Payment              sdk/payment.ts: with_remaining_accounts_for_payment and its two callers
--   Accounts, Accounts/* sdk/accounts.ts: decode_account_infos, fetch_idl_account_data_by_id
--   Rewards/Pending      sdk/rewardDistribution.ts: calculate_pending_rewards
--   Rewards/Pool         the same file: get_reward_map, get_pending_rewards_for_pool
--   Rewards/ClosedForm, Rewards/Bounds, Rewards/Totals   their theorems
--   Api/Mints, Api/Stake, Api/Claims, Api/Unstake, Api/ClaimRewards, Api/Actions
--                        sdk/api.ts; a function that sends an instruction has a definition for it
--   Api/Conforms, Api/Conforms/*, Api/Order, Api/Order/*, Api/Missing, Api/Fungible, Api/Served
--                        their theorems
--   Program/Payment      handle_payment and handle_payment_info of
--                        programs/rewards-center/src/payment/state.rs
--   Program/Payment/*    their theorems, with the accounts that the SDK lists
--   Program/Authorization, Program/Authorization/*
--                        mint_is_allowed of programs/rewards-center/src/authorization/state.rs, and
--                        its theorems, with the accounts that the SDK lists
--   Program/Staking      programs/rewards-center/src/stake_entry/update_total_stake_seconds.rs
--   Program/Claims       the handler of
--                        programs/rewards-center/src/reward_distribution/reward_entry/claim_rewards.rs
--   Program/Claims/Accounts   the constraints on its accounts, and the whole instruction
--   Program/RewardEntries     init_reward_entry.rs beside it
--   Program/Claims/*, Program/Preview   their theorems, with the preview of the SDK
--   Program/Pools, Program/Pools/Fee
--                        programs/rewards-center/src/stake_pool and discount
--   Program/Entries      programs/rewards-center/src/stake_entry: init_entry.rs, reset_stake_entry.rs,
--                        close_stake_entry.rs and stake_seed of state.rs
--   Program/Pnft, Program/Pnft/*
--                        stake_pnft.rs and unstake_pnft.rs of
--                        programs/rewards-center/src/stake_entry/pnfts: what they do when they return
--                        (Changes), when they return (Returns), and the cooldown (Waiting, Cooldown, Early)
--   Program/Ledger, Program/Ledger/*
--                        a pool with its entries, the handlers as a step relation, its invariant
--                        (Books, Handlers, Steps, Invariant, Opened), when a pool can be closed, and
--                        that a staked entry can be unstaked
--   Program/PaymentInfos, Program/PaymentInfos/Shares
--                        the handlers and assert_payment_info of programs/rewards-center/src/payment
--   Program/Contexts, Program/Contexts/*, Program/Structs, Program/Errors, Program/Entrypoints
--                        the interface that programs/rewards-center/src/lib.rs serves, the argument
--                        types and errors.rs, with the theorems that set them against the IDL
--   Tests, Tests/*       a concrete chain with concrete packages, and runs on it
--
-- State. The SDK keeps none but the transaction it builds, which the source changes in place: here a
-- function that adds to a transaction takes it and returns it. The chain is what a Connection
-- answers; each run sees one state of it. A thrown error is a Result. A handler of the program takes
-- the accounts that it reads and returns those that it writes, in an Outcome: a value, one of the
-- errors, or a panic. The Ledger is the state of one pool over many handlers.
--
-- Packages. The functions of @solana, @coral-xyz, @cardinal, @metaplex-foundation and bn.js are
-- fields of the records of Packages.antt. Where a theorem relies on bn.js, it asks for IsDocumented;
-- where it relies on the batch fetch, for Answers; where it speaks of the program and the SDK on one
-- chain, for Agrees. Assumed throughout: a derived address is found (findProgramAddressSync does not
-- throw), a number given to `new BN` is a safe integer, and a batch has no more answers than ids.
-- The token metadata program is a parameter of the ledger: IsDocumented of Program/Ledger says that a
-- token that is locked is not delegated again, that only its delegate unlocks it, and that neither
-- changes another token.
-- A public key is the number it holds, and an object keyed by the string of a public key is a table
-- keyed by the public key.
--
-- Numbers. A BN is an integer without bounds. The u64 and u128 operations of the program are checked
-- at 2 ^ 64 and 2 ^ 128, and the one sum that is not checked wraps. Every loop is structural
-- recursion on its list: there is no fuel.
--
-- The program's transfers are recorded as they are asked for; that one fails for want of funds is
-- not modelled.
--
-- Not modelled: rewardsCenterProgram (it builds Anchor objects), withRemainingAccounts (nothing calls
-- it), the IDL as a TypeScript type, dist/ (compiled from sdk/), tests/ and generate-erd.js (scripts),
-- the sizes of accounts on the chain, and what the handlers of reward distributors, stake boosters,
-- receipts, multipliers and mint authorizations do, but for claim_rewards.rs.
pub mod Common
pub mod Idl
pub mod Data
pub mod Packages
pub mod Constants
pub mod Pda
pub mod Authorization
pub mod Payment
pub mod Accounts
pub mod Rewards
pub mod Api
pub mod Program
pub mod Tests
