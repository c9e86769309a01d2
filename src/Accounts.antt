-- ===== src/Accounts.antt =====
-- sdk/accounts.ts: fetching and decoding accounts. The first functions hand the program's IDL to
-- those of @cardinal/common.
pub mod Decoding
pub mod Fetching
use discount_program.Common.{
  ℕ, ◌==◌, Option, none, some, List, [], ◌∷◌, Result, if◌then◌else◌, somes,
}
use discount_program.Common.Table.{Table, insert}
use discount_program.Data.{
  PublicKey, AccountType, AccountOf, AccountInfo, AccountData, IdlAccountData, Parsed, unknown,
}
use discount_program.Packages.{Packages, Connection}
use discount_program.Constants.{rewards_center_idl, rewards_center_address}

unfoldable pub fetch_idl_account :
    Connection → PublicKey → (T : AccountType) → Result (IdlAccountData T)
fetch_idl_account c pubkey T = c.fetch_idl_account T pubkey rewards_center_idl

unfoldable pub fetch_idl_account_nullable :
    Connection → PublicKey → (T : AccountType) → Result (Option (IdlAccountData T))
fetch_idl_account_nullable c pubkey T = c.fetch_idl_account_nullable T pubkey rewards_center_idl

unfoldable pub get_program_idl_accounts :
    Packages → Connection → (T : AccountType) → Result (List (IdlAccountData T))
get_program_idl_accounts p c T =
    c.get_program_idl_accounts T (rewards_center_address p) rewards_center_idl

module _ (p : Packages) where
  unfoldable pub decode_idl_account : AccountInfo → (T : AccountType) → Result (AccountOf T)
  decode_idl_account info T = p.decode_idl_account T info rewards_center_idl

  unfoldable pub try_decode_idl_account : AccountInfo → (T : AccountType) → Option (AccountOf T)
  try_decode_idl_account info T = p.try_decode_idl_account T info rewards_center_idl

  unfoldable pub decode_idl_account_unknown : Option AccountInfo → Result Parsed
  decode_idl_account_unknown info = p.decode_idl_account_unknown info rewards_center_idl

  unfoldable pub try_decode_idl_account_unknown : AccountInfo → Parsed
  try_decode_idl_account_unknown info = p.try_decode_idl_account_unknown info rewards_center_idl

-- The `switch` on the owner: the program's own accounts are decoded, others stay unknown.
module _ (p : Packages) (now : ℕ) where
  unfoldable pub decode_account_info : PublicKey → AccountInfo → AccountData
  unfolding try_decode_idl_account_unknown
  decode_account_info id info = record {
    timestamp = now;
    pubkey = id;
    info = info;
    parsed =
        if info.owner == rewards_center_address p
        then try_decode_idl_account_unknown p info
        else unknown;
  }

  -- The `reduce` of `decodeAccountInfos` from a table `acc`, over both arrays at once: the i-th id
  -- is that of the i-th info. There are no more infos than ids.
  unfoldable pub decode_account_infos_from :
      Table AccountData → List PublicKey → List (Option AccountInfo) → Table AccountData
  decode_account_infos_from acc (id ∷ ids) (some info ∷ infos) =
      decode_account_infos_from (insert id (decode_account_info id info) acc) ids infos
  decode_account_infos_from acc (id ∷ ids) (none ∷ infos) = decode_account_infos_from acc ids infos
  decode_account_infos_from acc [] infos = acc
  decode_account_infos_from acc (id ∷ ids) [] = acc

  unfoldable pub decode_account_infos :
      List PublicKey → List (Option AccountInfo) → Table AccountData
  unfolding decode_account_infos_from decode_account_info
  decode_account_infos ids infos = decode_account_infos_from [] ids infos

unfoldable pub fetch_idl_account_data_by_id :
    Packages → Connection → List (Option PublicKey) → Table AccountData
fetch_idl_account_data_by_id p c ids =
    decode_account_infos p c.now (somes ids) (c.get_batched_multiple_accounts (somes ids))
