-- ===== src/Tests/Authorization.antt =====
-- Authorization: the accounts of the SDK before the program.
use discount_program.Common.{
  All, subst, ◌==◌, ==_refl, if◌then◌else◌, Bool, true, false, ◌≡◌, refl, Option, none, some, List,
  [], ◌∷◌, ◌++◌,
}
use discount_program.Data.{PublicKey, Metadata, Creator, AccountInfo}
use discount_program.Authorization.{has_allowed_creator, remaining_accounts_for_authorization}
use discount_program.Pda.{find_stake_authorization_record_id}
use discount_program.Program.Outcome.{
  done, err, not_enough_account_keys, invalid_stake_authorization_record,
}
use discount_program.Program.Authorization.{MintHost, mint_is_allowed}
use discount_program.Program.Authorization.Accepted.{mint_is_allowed-accepts}
use discount_program.Program.Authorization.Unverified.{unverified_refused}
use discount_program.Tests.World.{packages, pool}

-- Metadata of a creator.
abbrev by_creator : PublicKey → Bool → Metadata
by_creator address verified = record {
  creators = some (record { address = address; verified = verified } ∷ []);
  collection = none;
  programmable_config = none;
}

abbrev held : Metadata → MintHost
held m = record {
  metadata_program = 77;
  metadata_address = λ mint. 900;
  deserialize = λ bytes. some (33, m);
  authorization_record = λ k.
      if k == find_stake_authorization_record_id packages 60 33
      then some (record { bump = 255; pool = 60; mint = 33 })
      else none;
}

abbrev info : AccountInfo
info = record { bytes = 4 ∷ []; owner = 77 }

all_verified :
    (cs : List Creator) → (by_creator 13 true).creators ≡ some cs → All (λ c. c.verified ≡ true) cs
all_verified cs set = subst AllVerified set (refl, tt)
  where
    AllVerified : Option (List Creator) → Type 0
    AllVerified none = Unit
    AllVerified (some cs) = All (λ c. c.verified ≡ true) cs

found :
    (held (by_creator 13 true)).authorization_record
      (find_stake_authorization_record_id packages 60 33)
    ≡ some (record { bump = 255; pool = 60; mint = 33 })
found = rw (==_refl (find_stake_authorization_record_id packages 60 33)) refl

-- The creator 13 is not in the list of the pool, so the record is asked for.
mint_is_allowed-accepts_example :
    mint_is_allowed
      (held (by_creator 13 true))
      60
      pool
      900
      info
      33
      (remaining_accounts_for_authorization packages 60 pool 33 (some (by_creator 13 true)) ++ [])
    ≡ done []
mint_is_allowed-accepts_example =
    mint_is_allowed-accepts packages (held (by_creator 13 true)) 60 pool 33 900 info
      (by_creator 13 true) []
      (record { address = refl; owner = refl; not_empty = refl; deserialized = refl })
      (record { creators = all_verified; collection = λ c set. cc })
      (record {
        authorized =
            λ missed requires. (record { bump = 255; pool = 60; mint = 33 }, found, refl, refl);
        open_pool = λ missed requires. cc;
      })

unverified_refused_example :
    (mint_is_allowed
        (held (by_creator 11 false))
        60
        pool
        900
        info
        33
        (remaining_accounts_for_authorization packages 60 pool 33 (some (by_creator 11 false)))
      ≡ err not_enough_account_keys)
    × (mint_is_allowed (held (by_creator 11 false)) 60 pool 900 info 33 (
          remaining_accounts_for_authorization packages 60 pool 33 (some (by_creator 11 false))
          ++ record { pubkey = 30; is_signer = false; is_writable = false } ∷ [])
        ≡ err invalid_stake_authorization_record)
unfolding has_allowed_creator find_stake_authorization_record_id
unverified_refused_example =
    unverified_refused packages (held (by_creator 11 false)) 60 pool 33 900 info
      (by_creator 11 false) (record { address = 11; verified = false } ∷ [])
      (record { pubkey = 30; is_signer = false; is_writable = false }) []
      (record { address = refl; owner = refl; not_empty = refl; deserialized = refl }) refl refl
      (refl, tt) refl refl refl
