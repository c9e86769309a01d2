-- ===== src/Tests/World.antt =====
-- A concrete world for the tests: packages, a chain with a few accounts, and the program's host.
use discount_program.Common.{
  ℕ, zero, suc, ◌+◌, ◌*◌, ◌/◌, ◌%◌, ◌^◌, ◌<◌, ◌≡◌, refl, ◌==◌, true, false, Option, none, some,
  List, [], ◌∷◌, map, Result, ok, throw, package_error, if◌then◌else◌, arith,
}
use discount_program.Common.Int.{ℤ, pos, pos_part, ◌+ℤ◌, ◌-ℤ◌, ◌*ℤ◌, ltb_ℤ}
use discount_program.Data.{
  PublicKey, AccountType, AccountInfo, Parsed, unknown, PaymentInfo, PaymentShare, StakePool,
  StakeBooster, ReceiptManager, IdlAccountData, payment_info,
}
use discount_program.Packages.{Packages, Connection, BigNumber, IsDocumented}
use Prim.Native.String.{count}
use discount_program.Idl.{Idl}
use discount_program.Pda.{find_stake_pool_id, find_stake_booster_id}
use discount_program.Program.Payment.{Host}
use discount_program.Program.Payment.Accepted.{Agrees}

-- An id from seeds that tells the ids of the tests apart.
abbrev sum : List ℕ → ℕ
sum [] = 0
sum (b ∷ bs) = b + 3 * sum bs

abbrev pub hash : List (List ℕ) → ℕ
hash [] = 100000
hash (seed ∷ seeds) = sum seed + 7 * hash seeds

abbrev pub pool : StakePool
pool = record {
  bump = 255;
  authority = 61;
  total_staked = 0;
  reset_on_unstake = false;
  cooldown_seconds = none;
  min_stake_seconds = none;
  end_date = none;
  stake_payment_info = 30;
  unstake_payment_info = 30;
  requires_authorization = true;
  allowed_creators = 11 ∷ [];
  allowed_collections = 12 ∷ [];
  identifier = "pool";
}

abbrev pub shares : List PaymentShare
shares =
    record { address = 41; basis_points = 3333 } ∷ record { address = 42; basis_points = 6667 } ∷ []

abbrev pub payment : PaymentInfo
payment = record {
  bump = 255;
  authority = 61;
  identifier = "payment";
  payment_amount = pos 100;
  payment_mint = 33;
  payment_shares = shares;
}

abbrev pub booster : StakeBooster
booster = record {
  bump = 255;
  stake_pool = 60;
  identifier = pos 0;
  payment_amount = pos 5;
  payment_mint = 33;
  payment_shares = shares;
  boost_seconds = pos 60;
  start_time_seconds = pos 0;
  boost_action_payment_info = 30;
}

abbrev pub manager : ReceiptManager
manager = record {
  bump = 255;
  stake_pool = 60;
  authority = 61;
  required_stake_seconds = pos 10;
  stake_seconds_to_use = pos 10;
  claimed_receipts_counter = pos 0;
  requires_authorization = false;
  payment_amount = pos 5;
  payment_mint = 33;
  payment_shares = shares;
  claim_action_payment_info = 30;
  name = "receipts";
  max_claimed_receipts = none;
}

abbrev pub distributor : IdlAccountData AccountType.reward_distributor
distributor = record {
  timestamp = 0;
  pubkey = 50;
  parsed = record {
    bump = 255;
    stake_pool = 60;
    kind = 1;
    authority = 61;
    identifier = pos 0;
    reward_mint = 62;
    reward_amount = pos 3;
    reward_duration_seconds = pos 10;
    rewards_issued = pos 0;
    default_multiplier = pos 2;
    multiplier_decimals = 0;
    claim_rewards_payment_info = 63;
    max_reward_seconds_received = some (pos 1000);
  };
}

-- The first byte of an account tells what it holds.
abbrev decode : AccountInfo → Parsed
decode a = kind a.bytes
  where
    kind : List ℕ → Parsed
    kind [] = unknown
    kind (b ∷ bs) =
        if b == 1
        then Parsed.stake_pool pool
        else if b == 2
        then Parsed.receipt_manager manager
        else if b == 3
        then Parsed.stake_booster booster
        else if b == 4
        then Parsed.reward_distributor distributor.parsed
        else if b == 5
        then Parsed.payment_info payment
        else unknown

abbrev pub packages : Packages
packages = record {
  public_key = λ s. 77;
  default_key = 0;
  system_program_id = 1;
  token_program_id = 2;
  sysvar_instructions_pubkey = 3;
  token_auth_rules_id = 4;
  creator_standard_program_id = 5;
  utf8_encode = λ s. count s ∷ [];
  to_buffer = λ k. k ∷ [];
  to_array_like_le_8 = λ n. pos_part n ∷ [];
  find_program_address_sync = λ seeds k. (hash seeds, 255);
  get_associated_token_address_sync = λ mint owner off. 1000 * mint + owner;
  find_ata = λ mint owner off. 1000 * mint + owner;
  find_mint_manager_id = λ mint. 5000 + mint;
  find_token_record_id = λ mint account. 6000 + mint;
  metadata_from_account_info =
      λ a. ok (record { creators = none; collection = none; programmable_config = none });
  mint_manager_from_account_info = λ a. ok (record { rule_set = 8 });
  decode_idl_account = λ T a idl. throw (package_error "Invalid account discriminator");
  decode_idl_account_unknown = λ a idl. ok unknown;
  try_decode_idl_account = λ T a idl. none;
  try_decode_idl_account_unknown = λ a idl. decode a;
}

div_ℤ : ℤ → ℤ → Result ℤ
div_ℤ a (pos zero) = throw (package_error "Assertion failed")
div_ℤ a (pos (suc n)) = ok (pos (pos_part a / suc n))
div_ℤ a b = throw (package_error "not used")

mod_ℤ : ℤ → ℤ → Result ℤ
mod_ℤ a (pos zero) = throw (package_error "Assertion failed")
mod_ℤ a (pos (suc n)) = ok (pos (pos_part a % suc n))
mod_ℤ a b = throw (package_error "not used")

abbrev pub numbers : BigNumber
unfolding div_ℤ mod_ℤ
numbers = record {
  add = λ a b. a +ℤ b;
  sub = λ a b. a -ℤ b;
  mul = λ a b. a *ℤ b;
  div = div_ℤ;
  remainder = mod_ℤ;
  pow = λ a b. pos (pos_part a ^ pos_part b);
  gt = λ a b. ltb_ℤ b a;
  minimum = λ a b. if ltb_ℤ a b then a else b;
  number = λ a. a;
}

div_lem : (a b : ℕ) → 0 < b → div_ℤ (pos a) (pos b) ≡ ok (pos (a / b))
unfolding div_ℤ
div_lem a zero h = absurd (omega arith)
div_lem a (suc b) h = refl

mod_lem : (a b : ℕ) → 0 < b → mod_ℤ (pos a) (pos b) ≡ ok (pos (a % b))
unfolding mod_ℤ
mod_lem a zero h = absurd (omega arith)
mod_lem a (suc b) h = refl

pub numbers_documented : IsDocumented numbers
unfolding numbers
numbers_documented = record {
  add_lem = λ a b. refl;
  sub_lem = λ a b. refl;
  mul_lem = λ a b. refl;
  div_lem = div_lem;
  remainder_lem = mod_lem;
  pow_lem = λ a b. refl;
  gt_lem = λ a b. refl;
  minimum_lem = λ a b. refl;
  number_lem = λ a h. refl;
}

-- A chain with a stake pool, a receipt manager, a booster, a reward distributor, a payment info, and
-- an account of another program.
abbrev pub chain : PublicKey → Option AccountInfo
chain k =
    if k == find_stake_pool_id packages "pool"
    then some (record { bytes = 1 ∷ []; owner = 77 })
    else if k == 90
    then some (record { bytes = 2 ∷ []; owner = 77 })
    else if k == find_stake_booster_id packages (find_stake_pool_id packages "pool") none
    then some (record { bytes = 3 ∷ []; owner = 77 })
    else if k == 50
    then some (record { bytes = 4 ∷ []; owner = 77 })
    else if k == 30
    then some (record { bytes = 5 ∷ []; owner = 77 })
    else if k == 20
    then some (record { bytes = 7 ∷ []; owner = 1 })
    else none

abbrev pub fetched : (T : AccountType) → PublicKey → Idl → Result (IdlAccountData T)
fetched payment_info k idl = ok (record { timestamp = 1700; pubkey = k; parsed = payment })
fetched _ k idl = throw (package_error "Account does not exist")

abbrev pub connection : Connection
connection = record {
  now = 1700;
  get_batched_multiple_accounts = λ ids. map chain ids;
  fetch_idl_account = fetched;
  fetch_idl_account_nullable = λ T k idl. ok none;
  get_program_idl_accounts = λ T k idl. ok [];
  try_metadata_from_account_address = λ k. none;
  get_mint_supply = λ k. ok 5;
  get_account_amount = λ k. ok 100;
}

abbrev pub host : Host
host = record {
  default_key = 0;
  system_program_id = 1;
  token_program_id = 2;
  token_account = λ k. some (record { owner = k % 1000; mint = k / 1000 });
  from_str = λ s. 30;
  payment_info = λ k. some payment;
}

pub host_agrees : Agrees packages host
host_agrees = record { default_key = refl; system = refl; token = refl }

abbrev pub entry : IdlAccountData AccountType.stake_entry
entry = record {
  timestamp = 0;
  pubkey = 70;
  parsed = record {
    bump = 255;
    kind = 0;
    pool = 60;
    amount = pos 1;
    stake_mint = 71;
    last_staker = 72;
    last_staked_at = pos 100;
    last_updated_at = pos 100;
    total_stake_seconds = pos 5;
    used_stake_seconds = pos 0;
    cooldown_start_seconds = none;
    multiplier_stake_seconds = none;
    multiplier_basis_points = none;
  };
}

abbrev pub reward_entry : IdlAccountData AccountType.reward_entry
reward_entry = record {
  timestamp = 0;
  pubkey = 80;
  parsed = record {
    bump = 255;
    stake_entry = 70;
    reward_distributor = 50;
    reward_seconds_received = pos 20;
    multiplier = pos 4;
  };
}
