-- ===== src/Tests.antt =====
-- Tests on concrete accounts, and the theorems at inputs where their hypotheses hold.
mod World
mod Payments
mod Rewards
mod Authorization
mod Order
mod Claims
mod Sdk
mod Chain
mod Ledger
mod Program
mod Served
