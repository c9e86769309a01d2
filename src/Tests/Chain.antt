-- ===== src/Tests/Chain.antt =====
-- A concrete chain for the tests of the program: a new pool, a mint, and tokens that are locked or
-- not.
use discount_program.Common.{
  ◌+◌, ◌≡◌, ◌≢◌, refl, sym, ap, ◌∙◌, Bool, true, false, none, some, [], ◌∷◌, ◌==◌, ==_refl,
  if◌then◌else◌, arith,
}
use discount_program.Common.Int.{pos}
use discount_program.Data.{PublicKey, PaymentInfo, StakePool, StakeEntry, UserEscrow, AccountMeta}
use discount_program.Program.Pools.{PoolHost, InitPoolIx, pool_with}
use discount_program.Program.Entries.{EntryHost, InitEntry, zeroed}
use discount_program.Program.Pnft.{PnftAccounts, TokenMetadata}
use discount_program.Program.Ledger.{Ledger, IsDocumented}
use discount_program.Program.Payment.Accepted.{==-false}

abbrev free_payment : PaymentInfo
free_payment = record {
  bump = 255;
  authority = 61;
  identifier = "free";
  payment_amount = pos 0;
  payment_mint = 0;
  payment_shares = [];
}

abbrev pub meta : PublicKey → AccountMeta
meta key = record { pubkey = key; is_signer = false; is_writable = false }

abbrev pub program_host : EntryHost
program_host = record {
  payments = record {
    default_key = 0;
    system_program_id = 1;
    token_program_id = 2;
    token_account = λ k. none;
    from_str = λ s. 30;
    payment_info = λ k. some free_payment;
  };
  mints = record {
    metadata_program = 9;
    metadata_address = λ mint. 500 + mint;
    deserialize = λ bytes. none;
    authorization_record = λ k. none;
  };
  find_stake_entry = λ pool mint seed. (1000 + mint, 254);
  create_stake_entry = λ pool mint seed bump. if bump == 254 then some (1000 + mint) else none;
  find_user_escrow = λ user. 2000 + user;
  in_use = λ k. false;
  token_metadata_id = 11;
  sysvar_instructions_id = 3;
  auth_rules_id = 4;
}

-- The tokens of the tests: which mints are locked.
abbrev pub Tokens : Type 0
Tokens = PublicKey → Bool

abbrev set : Tokens → PublicKey → Bool → Tokens
set t mint b m = if m == mint then b else t m

abbrev pub metadata_program : TokenMetadata Tokens
metadata_program = record {
  delegate = λ a t. if t a.stake_mint then none else some t;
  lock = λ a t. some (set t a.stake_mint true);
  unlock = λ a t. if t a.stake_mint then some t else none;
  revoke = λ args a t. some (set t a.stake_mint false);
  delegate_role = λ k t. some none;
  migration = 6;
}

abbrev pub held : Tokens → PublicKey → Bool
held t m = t m

some-injective : (a b : Tokens) → some a ≡ some b → a ≡ b
some-injective a b h = ap (λ o. elim o [ none ↦ a | some c ↦ c ]) h

passed : (b : Bool) (t t' : Tokens) → (if b then some t else none) ≡ some t' → (b ≡ true) × (t ≡ t')
passed true t t' h = (refl, some-injective t t' h)
passed false t t' h = absurd (ground arith)

refused :
    (b : Bool) (t t' : Tokens) → (if b then none else some t) ≡ some t' → (b ≡ false) × (t ≡ t')
refused true t t' h = absurd (ground arith)
refused false t t' h = (refl, some-injective t t' h)

changed :
    (t t' t'' : Tokens) (mint : PublicKey) (b : Bool)
    → t ≡ t'
    → some (set t' mint b) ≡ some t''
    → (t'' mint ≡ b) × ((m : PublicKey) → m ≢ mint → t'' m ≡ t m)
changed t t' t'' mint b same now =
    let is = sym (some-injective (set t' mint b) t'' now) in
    (
      ap (λ u. u mint) is ∙ ap (λ c. if c then b else t' mint) (==_refl mint),
      λ m other.
          ap (λ u. u m) is
          ∙ ap (λ c. if c then b else t' m) (==-false m mint other)
          ∙ ap (λ u. u m) (sym same),
    )

pub metadata_documented : IsDocumented metadata_program held
metadata_documented = record {
  locks = λ a t t' t'' first second.
      (let (free, same) = refused (t a.stake_mint) t t' first in
        let (locked, others) = changed t t' t'' a.stake_mint true same second in
        (free, locked, others));
  unlocks = λ a args t t' t'' first second.
      (let (locked, same) = passed (t a.stake_mint) t t' first in
        let (free, others) = changed t t' t'' a.stake_mint false same second in
        (locked, free, others));
}

abbrev pub pools : PoolHost
pools = record {
  from_str = λ s. 5;
  find_stake_pool = λ s. (60, 255);
  find_discount = λ s. (45, 255);
  discount = λ k. some (record { discount_str = "discount"; authority = 7; identifier = "mine" });
  in_use = λ k. false;
  transfer = λ payer to lamports. some 0;
}

abbrev pub pool_ix : InitPoolIx
pool_ix = record {
  settings = record {
    allowed_collections = [];
    allowed_creators = [];
    requires_authorization = false;
    authority = 61;
    reset_on_unstake = false;
    cooldown_seconds = some 100;
    min_stake_seconds = some 10;
    end_date = none;
    stake_payment_info = 30;
    unstake_payment_info = 30;
  };
  identifier = "pool";
}

abbrev pub new_pool : StakePool
new_pool = pool_with pool_ix.settings 255 0 "pool"

abbrev pub opened : Ledger Tokens
opened = record { pool_key = 60; pool = new_pool; entries = []; tokens = λ m. false; clock = 1000 }

abbrev pub init_accounts : InitEntry
init_accounts = record {
  stake_entry = 1071;
  stake_pool = 60;
  stake_mint = 71;
  supply = 1;
  stake_mint_metadata = 571;
  metadata_info = record { bytes = []; owner = 9 };
  user = 7;
  remaining_accounts = [];
}

abbrev pub pnft_accounts : PnftAccounts
pnft_accounts = record {
  stake_pool = 60;
  stake_entry = 1071;
  stake_mint = 71;
  supply = 1;
  stake_mint_metadata = 571;
  metadata_info = record { bytes = []; owner = 9 };
  stake_mint_edition = 12;
  stake_token_record_account = 13;
  authorization_rules = 11;
  user = 7;
  user_escrow = 2007;
  user_stake_mint_token_account = 14;
  token_amount = 1;
  token_mint = 71;
  token_owner = 7;
  token_metadata_program = 11;
  sysvar_instructions = 3;
  authorization_rules_program = 4;
  remaining_accounts = meta 30 ∷ [];
}

abbrev pub escrow : UserEscrow
escrow = record { bump = 253; user = 7 }

-- The entry when it is new, and when it is staked at 1000.
abbrev pub new_entry : StakeEntry
new_entry = record (zeroed program_host) { bump = 254; pool = 60; stake_mint = 71 }

abbrev pub staked_entry : StakeEntry
staked_entry = record new_entry {
  amount = pos 1;
  last_staker = 7;
  last_staked_at = pos 1000;
  last_updated_at = pos 1000;
}

abbrev pub staked_pool : StakePool
staked_pool = record new_pool { total_staked = 1 }

abbrev pub locked_tokens : Tokens
locked_tokens = set (λ m. false) 71 true

-- The ledger after the stake, 50 seconds later.
abbrev pub staked_ledger : Ledger Tokens
staked_ledger = record {
  pool_key = 60;
  pool = staked_pool;
  entries = staked_entry ∷ [];
  tokens = locked_tokens;
  clock = 1050;
}
