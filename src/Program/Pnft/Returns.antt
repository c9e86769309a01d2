-- ===== src/Program/Pnft/Returns.antt =====
-- When unstakePnft returns.
use discount_program.Common.{
  ℕ, zero, suc, ◌-◌, ◌*◌, ◌≤◌, ◌<◌, ◌^◌, ◌≡◌, ◌≢◌, inl, inr, refl, true, false, Option, some, none,
  List, [], arith, ltb, Option-cases,
}
use discount_program.Common.Int.{ℤ, pos, pos_part}
use discount_program.Data.{StakePool, StakeEntry, UserEscrow, AccountMeta}
use discount_program.Program.Outcome.{done, checked_sub}
use discount_program.Program.Payment.{Transfer, handle_payment_info}
use discount_program.Program.Staking.{
  to_u128, unwrap_or, saturating_add, multiplied_seconds, increment_total_stake_seconds,
}
use discount_program.Program.Entries.{EntryHost}
use discount_program.Program.Pnft.{
  PnftAccounts, PnftResult, TokenMetadata, check_accounts, escrow_seeds, check_min_stake,
  starts_cooldown, leave, finish_unstake, unstake_pnft, revoke_args,
}
use discount_program.Program.Pnft.Changes.{Left, leave-done, finish_unstake-done}

-- What the account of an entry must hold for an update not to panic.
pub record IsCountable (clock : ℕ) (e : StakeEntry) : Type 0 where
  pub in_range : clock < 2 ^ 63
  pub updated : e.last_updated_at ≡ pos (pos_part e.last_updated_at)
  pub cooling :
      (t : ℤ) → e.cooldown_start_seconds ≡ some t → (t ≡ pos (pos_part t)) × (pos_part t ≤ clock)
  pub amount : pos_part e.amount ≤ 1
  pub points : e.multiplier_basis_points ≡ none

small_product : (c u a clock : ℕ) → c ≤ clock → clock < 2 ^ 63 → a ≤ 1 → (c - u) * a < 2 ^ 128
small_product c u zero clock le small one = omega arith
small_product c u (suc zero) clock le small one = omega arith
small_product c u (suc (suc a)) clock le small one = absurd (omega arith)

ltb_lem : (x w : ℕ) → x < 2 ^ w → ltb x (2 ^ w) ≡ true
ltb_lem x w small = ground arith

module _ (clock : ℕ) (e : StakeEntry) (h : IsCountable clock e) where
  current_time :
      (c : ℕ) × (to_u128 (unwrap_or e.cooldown_start_seconds (pos clock)) ≡ done c) × (c ≤ clock)
  current_time = elim (Option-cases e.cooldown_start_seconds) [
    | inl unset ↦ (clock, rw unset refl, omega arith)
    | inr (t, set) ↦ (pos_part t, rw (set, (h.cooling t set).0) refl, (h.cooling t set).1)
  ]

  updated_time : to_u128 e.last_updated_at ≡ done (pos_part e.last_updated_at)
  updated_time = rw h.updated refl

  not_multiplied :
      (increased : ℕ) → multiplied_seconds e increased ≡ done e.multiplier_stake_seconds
  unfolding multiplied_seconds
  not_multiplied increased = rw h.points refl

  pub increment-Returns :
      (e' : StakeEntry) × (increment_total_stake_seconds (pos clock) e ≡ done e')
  unfolding increment_total_stake_seconds
  increment-Returns =
      let (c, current, le) = current_time in
      let increased : ℕ = (c - pos_part e.last_updated_at) * pos_part e.amount in
      let small : increased < 2 ^ 128 =
        small_product c (pos_part e.last_updated_at) (pos_part e.amount) clock le h.in_range
          h.amount in
      (
        record e {
          total_stake_seconds = pos (saturating_add (pos_part e.total_stake_seconds) increased);
          last_updated_at = pos clock;
        },
        rw (current, updated_time, ltb_lem increased 128 small, not_multiplied increased) refl,
      )

module _ {Tokens : Type 0} (host : EntryHost) (meta : TokenMetadata Tokens) (clock : ℕ)
    (a : PnftAccounts) (pool : StakePool) (e : StakeEntry) (escrow : UserEscrow)
    (tokens : Tokens) where
  -- The accounts are valid, and the payment and the two calls of the token metadata program are
  -- made.
  pub record IsAccepted : Type 0 where
    pub accounts : check_accounts host a e ≡ done tt
    pub payments : List Transfer
    pub left_accounts : List AccountMeta
    pub paid :
        handle_payment_info host.payments a.remaining_accounts ≡ done (payments, left_accounts)
    pub unlocked : Tokens
    pub unlocks : meta.unlock a tokens ≡ some unlocked
    pub role : Option ℕ
    pub reads : meta.delegate_role a.stake_token_record_account unlocked ≡ some role
    pub revoked : Tokens
    pub revokes : meta.revoke (revoke_args meta role) a unlocked ≡ some revoked

  pub escrow_accepted :
      check_accounts host a e ≡ done tt → escrow_seeds host a.user a.user_escrow ≡ done tt
  unfolding escrow_seeds check_accounts
  escrow_accepted h = ground arith

  leave-Returns :
      IsCountable clock e
      → pool.total_staked ≢ 0
      → (r : StakePool × StakeEntry) × (leave host (pos clock) pool e ≡ done r)
  unfolding leave
  leave-Returns h some_staked =
      let (e', counted) = increment-Returns clock e h in
      let enough : checked_sub pool.total_staked 1 ≡ done (pool.total_staked - 1) = ground arith in
      rw (counted, enough) (_, refl)

  pub finish_unstake-Returns :
      IsAccepted
      → IsCountable clock e
      → pool.total_staked ≢ 0
      → (r : PnftResult Tokens) × (finish_unstake host meta (pos clock) a pool e escrow tokens
          ≡ done r)
  unfolding finish_unstake
  finish_unstake-Returns h countable some_staked =
      let ((pool', e'), left) = leave-Returns countable some_staked in
      rw (h.paid, left, h.unlocks, h.reads, h.revokes) (_, refl)

  -- The entry starts its cooldown.
  pub unstake_pnft-starts :
      IsAccepted
      → check_min_stake (pos clock) pool e ≡ done tt
      → starts_cooldown (pos clock) pool e ≡ done true
      → unstake_pnft host meta (pos clock) a pool e escrow tokens
        ≡ done (record {
          pool = pool;
          entry = record e { cooldown_start_seconds = some (pos clock) };
          escrow = record escrow { user = a.user };
          tokens = tokens;
          payments = [];
        })
  unfolding unstake_pnft
  unstake_pnft-starts h min starts = rw (h.accounts, escrow_accepted h.accounts, min, starts) refl

  -- For valid accounts, a payment and calls of the token metadata program that are made
  -- (IsAccepted), an entry of an amount of at most 1 that can be counted (IsCountable), a pool that
  -- counts some stake, after the minimum time and with no cooldown to start, unstakePnft returns:
  -- total_staked is one less, the entry holds 0, has no staker and no cooldown, and was updated
  -- now. It does not matter whether the entry was staked.
  pub unstake_pnft-Returns :
      IsAccepted
      → IsCountable clock e
      → pool.total_staked ≢ 0
      → check_min_stake (pos clock) pool e ≡ done tt
      → starts_cooldown (pos clock) pool e ≡ done false
      → (r : PnftResult Tokens) × (unstake_pnft host meta (pos clock) a pool e escrow tokens
          ≡ done r)
        × Left (pos clock) host.payments.default_key pool r.pool e r.entry
  unfolding unstake_pnft
  unstake_pnft-Returns h countable some_staked min starts =
      let (r, finished) = finish_unstake-Returns h countable some_staked in
      (
        r,
        rw (h.accounts, escrow_accepted h.accounts, min, starts) finished,
        leave-done host (pos clock) pool e (r.pool, r.entry)
            (finish_unstake-done host meta (pos clock) a pool e escrow tokens r finished).changes,
      )
