-- ===== src/Program.antt =====
-- The parts of the on-chain program (programs/rewards-center/src) that the accounts and the
-- previews of the SDK are made for.
pub mod Outcome
pub mod Payment
pub mod Staking
pub mod Authorization
pub mod RewardEntries
pub mod Claims
pub mod Preview
pub mod Pools
pub mod Entries
pub mod Pnft
pub mod Ledger
pub mod PaymentInfos
pub mod Entrypoints
pub mod Errors
pub mod Structs
pub mod Contexts
