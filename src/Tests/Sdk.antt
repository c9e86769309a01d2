-- ===== src/Tests/Sdk.antt =====
-- Fetching, and the functions of sdk/api.ts.
use discount_program.Common.{
  ℕ, true, ◌≡◌, refl, none, some, List, [], ◌∷◌, map, All, Ensures, Result, ok, length, arith,
}
use discount_program.Common.Table.{lookup}
use discount_program.Data.{AccountData, unknown}
use discount_program.Accounts.{
  decode_account_info, decode_account_infos, fetch_idl_account_data_by_id,
}
use discount_program.Accounts.Decoding.{last_decoded, lookup-decode_account_infos}
use discount_program.Accounts.Fetching.{Answers, lookup-fetch, foreign_unknown}
use discount_program.Api.Mints.{MintInfo}
use discount_program.Api.Stake.{stake}
use discount_program.Api.Unstake.{unstake}
use discount_program.Api.ClaimRewards.{claim_rewards}
use discount_program.Api.Actions.{claim_reward_receipt, boost}
use discount_program.Api.Fungible.{with_flag, flag_ignored}
use discount_program.Api.Conforms.{AllConform}
use discount_program.Api.Conforms.Sdk.{transactions-Conform}
use discount_program.Api.Mints.{stake_entry_id_of, check_stake_pool}
use discount_program.Api.Stake.{
  to_stake_mint, stake_ids, stake_transaction, metadata_of, stake_calls,
}
use discount_program.Api.Claims.{to_claim_mint}
use discount_program.Accounts.{
  fetch_idl_account, decode_account_infos_from, try_decode_idl_account_unknown,
}
use discount_program.Payment.{
  with_remaining_accounts_for_payment_info_sync, with_remaining_accounts_for_payment,
}
use discount_program.Pda.{
  find_stake_pool_id, find_stake_booster_id, find_mint_metadata_id, find_stake_entry_id,
}
use discount_program.Tests.World.{packages, connection, chain}

answers : Answers connection chain
answers = record { batched = λ ids. refl }

lookup-fetch_example :
    lookup 20 (fetch_idl_account_data_by_id packages connection (none ∷ some 20 ∷ some 21 ∷ []))
    ≡ some (decode_account_info packages 1700 20 (record { bytes = 7 ∷ []; owner = 1 }))
unfolding find_stake_pool_id find_stake_booster_id
lookup-fetch_example =
    lookup-fetch packages connection chain answers (none ∷ some 20 ∷ some 21 ∷ []) 20

abbrev foreign : AccountData
foreign = record {
  timestamp = 1700;
  pubkey = 20;
  info = record { bytes = 7 ∷ []; owner = 1 };
  parsed = unknown;
}

foreign_found :
    lookup 20 (fetch_idl_account_data_by_id packages connection (some 20 ∷ [])) ≡ some foreign
unfolding fetch_idl_account_data_by_id decode_account_infos find_stake_pool_id find_stake_booster_id
foreign_found = refl

foreign_unknown_example :
    (foreign.pubkey ≡ 20) × (chain 20 ≡ some foreign.info) × (foreign.parsed ≡ unknown)
unfolding find_stake_pool_id find_stake_booster_id
foreign_unknown_example =
    foreign_unknown packages connection chain answers (some 20 ∷ []) 20 foreign foreign_found
      (omega arith)

lookup-decode_account_infos_example :
    lookup 20 (decode_account_infos packages 1700 (20 ∷ 20 ∷ []) (chain 20 ∷ none ∷ []))
    ≡ last_decoded packages 1700 20 (20 ∷ 20 ∷ []) (chain 20 ∷ none ∷ [])
lookup-decode_account_infos_example =
    lookup-decode_account_infos packages 1700 20 (20 ∷ 20 ∷ []) (chain 20 ∷ none ∷ [])

abbrev info : MintInfo
info = record { mint_id = 33; token_account_id = none; amount = none; fungible = some true }

flag_ignored_example :
    (stake packages connection 7 "pool" (with_flag none info ∷ [])
      ≡ stake packages connection 7 "pool" (info ∷ []))
    × (unstake packages connection 7 "pool" (with_flag none info ∷ []) none
        ≡ unstake packages connection 7 "pool" (info ∷ []) none)
    × (claim_rewards packages connection 7 "pool" (with_flag none info ∷ []) none none
        ≡ claim_rewards packages connection 7 "pool" (info ∷ []) none none)
    × (claim_reward_receipt packages connection 7 "pool" (with_flag none info) 90
        ≡ claim_reward_receipt packages connection 7 "pool" info 90)
    × (boost packages connection 7 "pool" (with_flag none info) 60 none
        ≡ boost packages connection 7 "pool" info 60 none)
flag_ignored_example =
    flag_ignored packages 7 connection "pool" (info ∷ []) info none none none 90 60 none

transactions-Conform_example :
    Ensures (All AllConform) (stake packages connection 7 "pool" (info ∷ []))
    × Ensures (All AllConform) (unstake packages connection 7 "pool" (info ∷ []) (some (50 ∷ [])))
    × Ensures
        (All AllConform)
        (claim_rewards packages connection 7 "pool" (info ∷ []) (some (50 ∷ [])) (some true))
    × Ensures AllConform (claim_reward_receipt packages connection 7 "pool" info 90)
    × Ensures AllConform (boost packages connection 7 "pool" info 60 none)
transactions-Conform_example =
    transactions-Conform packages connection 7 "pool" (info ∷ []) info (some (50 ∷ [])) (some true)
      90 60 none

-- What the functions send for the mint: the numbers of instructions.
abbrev sizes : {A : Type 0} → Result (List (List A)) → List ℕ
sizes (ok txs) = map length txs
sizes _ = []

-- Opening this opens what the functions of sdk/api.ts call.
sdk : Unit {0}
unfolding stake unstake claim_rewards claim_reward_receipt boost to_stake_mint to_claim_mint
    stake_entry_id_of check_stake_pool fetch_idl_account fetch_idl_account_data_by_id
    decode_account_infos decode_account_infos_from decode_account_info
    try_decode_idl_account_unknown stake_ids stake_transaction metadata_of stake_calls
    with_remaining_accounts_for_payment_info_sync with_remaining_accounts_for_payment
    find_stake_pool_id find_stake_booster_id find_mint_metadata_id find_stake_entry_id
sdk = tt

-- The mint is staked with its entry made, two token accounts and the staking.
stake-sizes : sizes (stake packages connection 7 "pool" (info ∷ [])) ≡ 4 ∷ []
unfolding sdk
stake-sizes = refl
