-- ===== src/Constants.antt =====
-- sdk/constants.ts: the addresses that the SDK is built with. The program that
-- `rewardsCenterProgram` gives is the IDL with that address.
use discount_program.Data.{PublicKey}
use discount_program.Idl.{Idl, idl}
use discount_program.Packages.{Packages}

abbrev pub rewards_center_idl : Idl
rewards_center_idl = idl

module _ (p : Packages) where
  abbrev pub rewards_center_address : PublicKey
  rewards_center_address = p.public_key "EMw5PpPu7E92uBKYQbLWv6ioghSDehJr1PL7fDvhC6CK"

  abbrev pub wrapped_sol_payment_info : PublicKey
  wrapped_sol_payment_info = p.public_key "5vsKac5CuyHnK1A19Vs4ChvBV4PreHKKvgmACA6KyGdi"

  abbrev pub sol_payment_info : PublicKey
  sol_payment_info = p.public_key "5vsKac5CuyHnK1A19Vs4ChvBV4PreHKKvgmACA6KyGdi"

  abbrev pub default_payment_info : PublicKey
  default_payment_info = p.public_key "5vsKac5CuyHnK1A19Vs4ChvBV4PreHKKvgmACA6KyGdi"

  -- `METADATA_PROGRAM_ID` of sdk/utils.ts
  abbrev pub metadata_program_id : PublicKey
  metadata_program_id = p.public_key "metaqbxxUerdq28cj1RbAWkYQm3ybzjb6a8bt518x1s"
