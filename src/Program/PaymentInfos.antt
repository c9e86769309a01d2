-- ===== src/Program/PaymentInfos.antt =====
-- The handlers on payment infos, and `assert_payment_info`: programs/rewards-center/src/payment.
-- The size of an account (`resize_account`) is not modelled.
pub mod Shares
use discount_program.Common.{
  ℕ, ◌+◌, ◌%◌, ◌^◌, String, Bool, true, false, not, ◌||◌, List, [], ◌∷◌, ◌==◌, if◌then◌else◌,
}
use discount_program.Common.Int.{ℤ}
use discount_program.Data.{PublicKey, PaymentShare, PaymentInfo}
use discount_program.Payment.{basis_points_divisor}
use discount_program.Program.Outcome.{
  Outcome, done, err, ◌>>=◌, ◌>>◌, invalid_payment_shares, invalid_payment_info, invalid_authority,
  constraint_raw, constraint_close,
}
use discount_program.Program.Payment.{ensure, init_account}

pub record UpdatePaymentInfoIx : Type 0 where
  pub authority : PublicKey
  pub payment_amount : ℤ
  pub payment_mint : PublicKey
  pub payment_shares : List PaymentShare

-- The fields that `UpdatePaymentInfoIx` has too, and the identifier.
pub record InitPaymentInfoIx : Type 0 where
  pub settings : UpdatePaymentInfoIx
  pub identifier : String

-- What the handlers read of their libraries and of the chain: `find_program_address`, the accounts
-- in use, and the key of a text.
pub record InfoHost : Type 0 where
  pub find_payment_info : String → PublicKey × ℕ
  pub in_use : PublicKey → Bool
  pub from_str : String → PublicKey

-- The `sum` of `u16`s, which wraps (the release profile of Cargo.toml has no overflow checks).
unfoldable pub share_total : List PaymentShare → ℕ
share_total [] = 0
share_total (s ∷ shares) = (s.basis_points + share_total shares) % 2 ^ 16

unfoldable pub check_shares : List PaymentShare → Outcome (Unit {0})
check_shares shares =
    ensure (share_total shares == basis_points_divisor) (err invalid_payment_shares)

abbrev pub info_with : UpdatePaymentInfoIx → (bump : ℕ) → (identifier : String) → PaymentInfo
info_with ix bump identifier = record {
  bump = bump;
  authority = ix.authority;
  identifier = identifier;
  payment_amount = ix.payment_amount;
  payment_mint = ix.payment_mint;
  payment_shares = ix.payment_shares;
}

unfoldable pub init_payment_info :
    InfoHost → (payment_info : PublicKey) → InitPaymentInfoIx → Outcome PaymentInfo
init_payment_info host payment_info ix = do
  let found = host.find_payment_info ix.identifier
  init_account (host.in_use payment_info) payment_info found.0
  check_shares ix.settings.payment_shares
  done (info_with ix.settings found.1 ix.identifier)

unfoldable pub update_payment_info :
    (authority : PublicKey) → UpdatePaymentInfoIx → PaymentInfo → Outcome PaymentInfo
update_payment_info authority ix info = do
  ensure (info.authority == authority) (err constraint_raw)
  check_shares ix.payment_shares
  done (info_with ix info.bump info.identifier)

-- The account is closed to itself (`close = payment_info`), which Anchor's constraint refuses.
unfoldable pub close_payment_info :
    (payment_info authority : PublicKey) → PaymentInfo → Outcome PublicKey
close_payment_info payment_info authority info = do
  let receiver = payment_info
  ensure (not (payment_info == receiver)) (err constraint_close)
  ensure (info.authority == authority) (err invalid_authority)
  done receiver

-- The actions with a payment.
pub data Action : Type 0 where
  stake unstake claim_rewards claim_reward_receipt boost_stake_entry : Action

-- The payment infos that a pool may use for an action: one list for all. The two cases of a pool of
-- its own have the same list as the others.
abbrev pub allowed_payment_infos : InfoHost → (stake_pool : PublicKey) → Action → List PublicKey
allowed_payment_infos host stake_pool action =
    let own = host.from_str "3w1HMpFgYcHgUYcxKRfLf3Q2rAu3M5VqgzzwTDWRV3fw" ∷ [] in
    let others = host.from_str "3w1HMpFgYcHgUYcxKRfLf3Q2rAu3M5VqgzzwTDWRV3fw" ∷ [] in
    if stake_pool == host.from_str "R77NoQVhECokJjymq8AwfNTmvjodRTDv4sfcxkyWMop"
    then elim action [ stake ↦ own | unstake ↦ own | _ ↦ others ]
    else others

abbrev contains : PublicKey → List PublicKey → Bool
contains key [] = false
contains key (k ∷ keys) = k == key || contains key keys

unfoldable pub assert_payment_info :
    InfoHost → (stake_pool : PublicKey) → Action → (payment_info : PublicKey) → Outcome (Unit {0})
assert_payment_info host stake_pool action payment_info =
    ensure (contains payment_info (allowed_payment_infos host stake_pool action))
      (err invalid_payment_info)
