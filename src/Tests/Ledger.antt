-- ===== src/Tests/Ledger.antt =====
-- The theorems on ledgers at a pool with one entry.
use discount_program.Common.{
  ◌≡◌, ◌↔◌, refl, false, none, some, [], ◌∷◌, All, arith, ◌==◌, if◌then◌else◌,
}
use discount_program.Common.Int.{pos, ◌-ℤ◌}
use discount_program.Data.{StakePool, StakeEntry}
use discount_program.Program.Outcome.{done, err, cooldown_second_remaining}
use discount_program.Program.Payment.{handle_payment_info, check_payer_account, handle_payment}
use discount_program.Program.Authorization.{mint_is_allowed}
use discount_program.Program.Staking.{update_total_stake_seconds}
use discount_program.Program.Pools.{init_pool, pool_fee, close_stake_pool}
use discount_program.Program.Entries.{init_entry, stake_seed}
use discount_program.Program.Pnft.{
  PnftResult, stake_pnft, unstake_pnft, check_accounts, escrow_seeds, has_ended, enter, catch_up,
  finish_unstake, check_min_stake, starts_cooldown, as_u32,
}
use discount_program.Program.Ledger.{Reach, init, stake, wait, here, next}
use discount_program.Program.Ledger.Books.{IsWellFormed}
use discount_program.Program.Ledger.Opened.{IsOpened, reachable-IsWellFormed}
use discount_program.Program.Ledger.Closing.{IsUnstaked, closable_iff_IsUnstaked}
use discount_program.Program.Ledger.Ways.{Leaving}
use discount_program.Program.Ledger.Leaving.{staked-Leaves}
use discount_program.Program.Pnft.Changes.{Left}
use discount_program.Program.Pnft.Returns.{IsAccepted, IsCountable, unstake_pnft-Returns}
use discount_program.Program.Pnft.Cooldown.{early_cooldown_refuses}
use discount_program.Tests.Chain.{
  meta, program_host, Tokens, metadata_program, held, metadata_documented, pools, pool_ix, new_pool,
  opened, init_accounts, pnft_accounts, escrow, new_entry, staked_entry, staked_pool, locked_tokens,
  staked_ledger,
}

opened-IsOpened : IsOpened pools held opened
unfolding init_pool pool_fee
opened-IsOpened = record {
  owner = 5;
  payer = 7;
  ix = pool_ix;
  remaining = meta 45 ∷ [];
  fee = record { to = 5; amount = 1000000000 };
  made = refl;
  no_entries = refl;
  nothing_held = λ m. refl;
}

made : init_entry program_host init_accounts new_pool ≡ done new_entry
unfolding init_entry stake_seed mint_is_allowed
made = refl

staked :
    stake_pnft program_host metadata_program
      (pos 1000)
      pnft_accounts
      new_pool
      new_entry
      escrow
      (λ m. false)
    ≡ done (record {
      pool = staked_pool;
      entry = staked_entry;
      escrow = escrow;
      tokens = locked_tokens;
      payments = [];
    })
unfolding stake_pnft check_accounts escrow_seeds has_ended enter catch_up stake_seed mint_is_allowed
    handle_payment_info handle_payment check_payer_account
staked = refl

reached : Reach program_host metadata_program held opened staked_ledger
reached =
    next
      (next (next here (init opened init_accounts new_entry refl (omega arith) refl made)) (
        stake (record opened { entries = new_entry ∷ [] }) pnft_accounts new_entry escrow _ refl
          (λ same. absurd (omega arith)) refl staked))
      (wait (record staked_ledger { clock = 1000 }) 1050 (omega arith))

reachable-IsWellFormed_example : IsWellFormed program_host held staked_ledger
reachable-IsWellFormed_example =
    reachable-IsWellFormed program_host pools metadata_program held metadata_documented opened
      staked_ledger opened-IsOpened reached

closable_iff_IsUnstaked_example :
    (close_stake_pool 61 staked_pool ≡ done 61)
    ↔ ((staked_pool.authority ≡ 61) × All (IsUnstaked 0) (staked_entry ∷ []))
closable_iff_IsUnstaked_example =
    closable_iff_IsUnstaked program_host pools metadata_program held metadata_documented opened
      staked_ledger 61 opened-IsOpened reached

accepted :
    IsAccepted program_host metadata_program 1050 pnft_accounts staked_pool staked_entry escrow
      locked_tokens
unfolding check_accounts stake_seed handle_payment_info handle_payment check_payer_account
accepted = record {
  accounts = refl;
  payments = [];
  left_accounts = [];
  paid = refl;
  unlocked = locked_tokens;
  unlocks = refl;
  role = none;
  reads = refl;
  revoked = λ m. if m == 71 then false else locked_tokens m;
  revokes = refl;
}

staked-Leaves_example :
    Leaving program_host metadata_program held pnft_accounts escrow staked_ledger staked_entry
staked-Leaves_example =
    staked-Leaves program_host metadata_program held pnft_accounts escrow staked_ledger staked_entry
      (reachable-IsWellFormed program_host pools metadata_program held metadata_documented opened
        staked_ledger opened-IsOpened reached)
      refl refl refl refl accepted (omega arith) (omega arith) (omega arith)

-- A pool without a cooldown, in which another entry is staked.
abbrev other_pool : StakePool
other_pool = record staked_pool { cooldown_seconds = none }

not_staked :
    IsAccepted program_host metadata_program 1050 pnft_accounts other_pool new_entry escrow
      locked_tokens
unfolding check_accounts stake_seed handle_payment_info handle_payment check_payer_account
not_staked = record {
  accounts = refl;
  payments = [];
  left_accounts = [];
  paid = refl;
  unlocked = locked_tokens;
  unlocks = refl;
  role = none;
  reads = refl;
  revoked = λ m. if m == 71 then false else locked_tokens m;
  revokes = refl;
}

countable : IsCountable 1050 new_entry
countable = record {
  in_range = omega arith;
  updated = refl;
  cooling = λ t set. absurd (ground arith);
  amount = omega arith;
  points = refl;
}

long_enough : check_min_stake (pos 1050) other_pool new_entry ≡ done tt
unfolding check_min_stake as_u32 ◌-ℤ◌
long_enough = refl

no_wait : starts_cooldown (pos 1050) other_pool new_entry ≡ done false
unfolding starts_cooldown
no_wait = refl

unstake_pnft-Returns_example :
    (r : PnftResult Tokens) × (unstake_pnft program_host metadata_program
        (pos 1050)
        pnft_accounts
        other_pool
        new_entry
        escrow
        locked_tokens
      ≡ done r)
    × Left (pos 1050) 0 other_pool r.pool new_entry r.entry
unstake_pnft-Returns_example =
    unstake_pnft-Returns program_host metadata_program 1050 pnft_accounts other_pool new_entry
      escrow locked_tokens not_staked countable (λ none_. absurd (omega arith)) long_enough no_wait

-- The cooldown starts at 1000, the stake is at 1100.
abbrev cooling_entry : StakeEntry
cooling_entry = record new_entry { cooldown_start_seconds = some (pos 1000) }

abbrev early_entry : StakeEntry
early_entry = record staked_entry {
  cooldown_start_seconds = some (pos 1000);
  last_staked_at = pos 1100;
  last_updated_at = pos 1100;
}

abbrev cooling_result : PnftResult Tokens
cooling_result = record {
  pool = new_pool;
  entry = cooling_entry;
  escrow = escrow;
  tokens = λ m. false;
  payments = [];
}

abbrev early_result : PnftResult Tokens
early_result = record {
  pool = staked_pool;
  entry = early_entry;
  escrow = escrow;
  tokens = locked_tokens;
  payments = [];
}

cooled_early :
    unstake_pnft program_host metadata_program
      (pos 1000)
      pnft_accounts
      new_pool
      new_entry
      escrow
      (λ m. false)
    ≡ done cooling_result
unfolding unstake_pnft finish_unstake check_accounts escrow_seeds check_min_stake starts_cooldown
    as_u32 stake_seed ◌-ℤ◌
cooled_early = refl

staked_cooling :
    stake_pnft program_host metadata_program
      (pos 1100)
      pnft_accounts
      new_pool
      cooling_entry
      escrow
      (λ m. false)
    ≡ done early_result
unfolding stake_pnft check_accounts escrow_seeds has_ended enter catch_up stake_seed mint_is_allowed
    handle_payment_info handle_payment check_payer_account
staked_cooling = refl

early_cooldown_refuses_example :
    (early_entry.cooldown_start_seconds ≡ some (pos 1000))
    × (update_total_stake_seconds program_host.payments (pos 1200) early_entry
        ≡ err cooldown_second_remaining)
early_cooldown_refuses_example =
    early_cooldown_refuses program_host metadata_program (pos 1000) (pos 1100) (pos 1200)
      pnft_accounts pnft_accounts new_pool new_pool new_entry escrow escrow (λ m. false)
      (λ m. false) cooling_result early_result refl refl (omega arith) cooled_early
      (λ same. absurd (omega arith)) staked_cooling
