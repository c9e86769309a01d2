-- ===== src/Data.antt =====
-- The accounts of the rewards center as the SDK reads them: the `accounts` of the IDL
-- (sdk/idl/cardinal_rewards_center.ts) and the types of sdk/constants.ts. A `PublicKey` is the
-- 256-bit number that it holds; two keys are equal, and spell the same string, if the numbers are
-- equal. A `u64`, `u128` or `i64` field is read as a `BN`, which is an integer.
mod Accounts
mod Chain
pub use Accounts.*
pub use Chain.*
