-- ===== src/Pda.antt =====
-- sdk/pda.ts, and the addresses of sdk/utils.ts: program-derived addresses from their seeds.
use discount_program.Common.{
  ℕ, String, Bool, Option, none, some, List, [], ◌∷◌, Result, ok, ◌>>=◌, if◌then◌else◌,
}
use discount_program.Common.Int.{ℤ, pos}
use discount_program.Data.{PublicKey}
use discount_program.Packages.{Packages, Connection, BigNumber}
use discount_program.Constants.{rewards_center_address, metadata_program_id}

abbrev pub stake_entry_seed : String
stake_entry_seed = "stake-entry"

abbrev pub stake_pool_seed : String
stake_pool_seed = "stake-pool"

abbrev pub stake_authorization_record_seed : String
stake_authorization_record_seed = "stake-authorization"

abbrev pub user_escrow_seed : String
user_escrow_seed = "escrow"

abbrev pub stake_booster_seed : String
stake_booster_seed = "stake-booster"

abbrev pub reward_distributor_seed : String
reward_distributor_seed = "reward-distributor"

abbrev pub reward_entry_seed : String
reward_entry_seed = "reward-entry"

abbrev pub receipt_manager_seed : String
receipt_manager_seed = "receipt-manager"

abbrev pub reward_receipt_seed : String
reward_receipt_seed = "reward-receipt"

abbrev pub payment_info_seed : String
payment_info_seed = "payment-info"

-- `identifier ?? new BN(0)`
abbrev pub identifier_or_zero : Option ℤ → ℤ
identifier_or_zero none = pos 0
identifier_or_zero (some n) = n

module _ (p : Packages) where
  open p use {default_key, utf8_encode, to_buffer, to_array_like_le_8, find_program_address_sync}

  -- `PublicKey.findProgramAddressSync(seeds, REWARDS_CENTER_ADDRESS)[0]`
  abbrev pub derived : List (List ℕ) → PublicKey
  derived seeds = (find_program_address_sync seeds (rewards_center_address p)).0

  -- `user && isFungible ? user.toBuffer() : PublicKey.default.toBuffer()`; an argument that is
  -- left out is `undefined`, hence no `isFungible` at all.
  abbrev pub entry_owner_seed : Option PublicKey → Option Bool → List ℕ
  entry_owner_seed (some user) (some is_fungible) =
      if is_fungible then to_buffer user else to_buffer default_key
  entry_owner_seed (some user) none = to_buffer default_key
  entry_owner_seed none is_fungible = to_buffer default_key

  unfoldable pub find_stake_entry_id :
      PublicKey → PublicKey → Option PublicKey → Option Bool → PublicKey
  find_stake_entry_id stake_pool_id mint_id user is_fungible = derived (
      utf8_encode stake_entry_seed
      ∷ to_buffer stake_pool_id
      ∷ to_buffer mint_id
      ∷ entry_owner_seed user is_fungible
      ∷ [])

  unfoldable pub find_stake_pool_id : String → PublicKey
  find_stake_pool_id identifier =
      derived (utf8_encode stake_pool_seed ∷ utf8_encode identifier ∷ [])

  unfoldable pub find_stake_authorization_record_id : PublicKey → PublicKey → PublicKey
  find_stake_authorization_record_id stake_pool_id mint_id = derived (
      utf8_encode stake_authorization_record_seed
      ∷ to_buffer stake_pool_id
      ∷ to_buffer mint_id
      ∷ [])

  unfoldable pub find_user_escrow_id : PublicKey → PublicKey
  find_user_escrow_id user = derived (utf8_encode user_escrow_seed ∷ to_buffer user ∷ [])

  unfoldable pub find_stake_booster_id : PublicKey → Option ℤ → PublicKey
  find_stake_booster_id stake_pool_id identifier = derived (
      utf8_encode stake_booster_seed
      ∷ to_buffer stake_pool_id
      ∷ to_array_like_le_8 (identifier_or_zero identifier)
      ∷ [])

  unfoldable pub find_reward_distributor_id : PublicKey → Option ℤ → PublicKey
  find_reward_distributor_id stake_pool_id identifier = derived (
      utf8_encode reward_distributor_seed
      ∷ to_buffer stake_pool_id
      ∷ to_array_like_le_8 (identifier_or_zero identifier)
      ∷ [])

  unfoldable pub find_reward_entry_id : PublicKey → PublicKey → PublicKey
  find_reward_entry_id reward_distributor_id stake_entry_id = derived (
      utf8_encode reward_entry_seed
      ∷ to_buffer reward_distributor_id
      ∷ to_buffer stake_entry_id
      ∷ [])

  unfoldable pub find_receipt_manager_id : PublicKey → String → PublicKey
  find_receipt_manager_id stake_pool_id identifier =
      derived
        (utf8_encode receipt_manager_seed ∷ to_buffer stake_pool_id ∷ utf8_encode identifier ∷ [])

  unfoldable pub find_reward_receipt_id : PublicKey → PublicKey → PublicKey
  find_reward_receipt_id receipt_manager_id stake_entry_id = derived (
      utf8_encode reward_receipt_seed
      ∷ to_buffer receipt_manager_id
      ∷ to_buffer stake_entry_id
      ∷ [])

  unfoldable pub find_payment_info_id : String → PublicKey
  find_payment_info_id identifier =
      derived (utf8_encode payment_info_seed ∷ utf8_encode identifier ∷ [])

  -- `findMintMetadataId` of sdk/utils.ts
  unfoldable pub find_mint_metadata_id : PublicKey → PublicKey
  find_mint_metadata_id mint_id =
      (find_program_address_sync
        (utf8_encode "metadata" ∷ to_buffer (metadata_program_id p) ∷ to_buffer mint_id ∷ [])
        (metadata_program_id p)).0

  -- `findMintEditionId` of sdk/utils.ts
  unfoldable pub find_mint_edition_id : PublicKey → PublicKey
  find_mint_edition_id mint_id =
      (find_program_address_sync
        (utf8_encode "metadata"
          ∷ to_buffer (metadata_program_id p)
          ∷ to_buffer mint_id
          ∷ utf8_encode "edition"
          ∷ [])
        (metadata_program_id p)).0

  -- `isFungible` as `findStakeEntryIdFromMint` settles it: by the supply, where it is not given.
  pub resolve_fungible : Connection → BigNumber → PublicKey → Option Bool → Result Bool
  resolve_fungible c n stake_mint_id (some is_fungible) = ok is_fungible
  resolve_fungible c n stake_mint_id none =
      c.get_mint_supply stake_mint_id >>= λ supply. ok (n.gt (pos supply) (n.number (pos 1)))

  -- `findStakeEntryIdFromMint` of sdk/utils.ts
  unfoldable pub find_stake_entry_id_from_mint :
      Connection → BigNumber → PublicKey → PublicKey → PublicKey → Option Bool → Result PublicKey
  unfolding find_stake_entry_id resolve_fungible
  find_stake_entry_id_from_mint c n stake_pool_id stake_mint_id user is_fungible =
      resolve_fungible c n stake_mint_id is_fungible >>= λ fungible.
      ok (find_stake_entry_id stake_pool_id stake_mint_id (some user) (some fungible))
