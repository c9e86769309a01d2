-- ===== src/Api.antt =====
-- sdk/api.ts: the transactions that stake, unstake, claim and boost. Each function fetches the
-- accounts that it needs, and builds a transaction for each mint, or one.
pub mod Mints
pub mod Stake
pub mod Claims
pub mod Unstake
pub mod ClaimRewards
pub mod Actions
pub mod Fungible
pub mod Conforms
pub mod Order
pub mod Served
pub mod Missing
