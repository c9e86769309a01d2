-- ===== src/Tests/Claims.antt =====
-- Claims: the program's payout beside the SDK's preview.
use discount_program.Common.{false, ◌≡◌, ◌+◌, ◌≤◌, refl, some, List, [], ◌++◌, ok, arith}
use discount_program.Common.Int.{ℤ, pos, pos_part}
use discount_program.Data.{AccountMeta, StakeEntry, RewardEntry, RewardDistributor}
use discount_program.Payment.{with_remaining_accounts_for_payment_info_sync}
use discount_program.Rewards.Pending.{staked_seconds, calculate_pending_rewards}
use discount_program.Program.Outcome.{done}
use discount_program.Program.Payment.{handle_payment_info}
use discount_program.Program.Payment.Info.{info_dues, handle_payment_info-accepts}
use discount_program.Program.Staking.{increment_total_stake_seconds, update_total_stake_seconds}
use discount_program.Program.Claims.{Claim, claim_rewards}
use discount_program.Program.Claims.Payout.{IsClaimable, IsClaim, claim_rewards-Returns}
use discount_program.Program.RewardEntries.{RewardHost, init_reward_entry}
use discount_program.Program.Claims.Accounts.{ClaimAccounts, check_claim}
use discount_program.Program.Claims.Foreign.{PaidTwice, foreign_entry_paid}
use discount_program.Program.Claims.Rounding.{whole_claim-Books, short_claim_unbooked}
use discount_program.Program.Preview.{IsUpdatable, staked_seconds-surplus, preview_claimed}
use discount_program.Tests.World.{
  packages, host, host_agrees, numbers, numbers_documented, distributor, entry, reward_entry,
  payment,
}
use discount_program.Tests.Payments.{shares-IsPayable}
use discount_program.Tests.Rewards.{ordinary}

abbrev accounts : List AccountMeta
accounts = (with_remaining_accounts_for_payment_info_sync packages [] 7 30 payment).1 ++ []

handle_payment_info-accepts_example :
    handle_payment_info host accounts ≡ done (info_dues packages 100 payment, [])
handle_payment_info-accepts_example =
    handle_payment_info-accepts packages host host_agrees [] 7 30 100 payment [] refl refl refl
      (λ something. shares-IsPayable)

reward_entry-IsClaimable : IsClaimable host distributor.parsed reward_entry.parsed 85 1000 accounts
reward_entry-IsClaimable = record {
  payable = record {
    some_time = omega arith;
    some_reward = omega arith;
    scale = omega arith;
    product = omega arith;
    reward_fits = omega arith;
    vault_fits = omega arith;
    scaled = omega arith;
    since_fits = omega arith;
  };
  issued = omega arith;
  received = omega arith;
  paid = (
    info_dues packages 100 payment,
    [],
    handle_payment_info-accepts packages host host_agrees [] 7 30 100 payment [] refl refl refl
        (λ something. shares-IsPayable),
  );
}

abbrev updated : StakeEntry
updated = record entry.parsed { total_stake_seconds = pos 105; last_updated_at = pos 200 }

claim_rewards-Returns_example :
    (c : Claim) × (claim_rewards host distributor.parsed reward_entry.parsed updated 1000 accounts
      ≡ done c)
    × IsClaim distributor.parsed reward_entry.parsed updated 1000 c
claim_rewards-Returns_example =
    claim_rewards-Returns host distributor.parsed reward_entry.parsed updated 1000 accounts
      reward_entry-IsClaimable

whole_claim-Books_example :
    (c : Claim) × (claim_rewards host distributor.parsed reward_entry.parsed updated 1000 accounts
      ≡ done c)
    × (c.sent ≡ 96)
    × (pos_part c.reward_entry.reward_seconds_received ≡ 100)
whole_claim-Books_example =
    whole_claim-Books host distributor.parsed reward_entry.parsed updated 1000 accounts
      reward_entry-IsClaimable (omega arith) (omega arith) refl

-- A reward of 1 with a multiplier of 1.5, and 9 periods that are not paid.
abbrev uneven_distributor : RewardDistributor
uneven_distributor = record distributor.parsed { reward_amount = pos 1; multiplier_decimals = 1 }

abbrev uneven_entry : RewardEntry
uneven_entry = record reward_entry.parsed { multiplier = pos 15 }

abbrev staked_longer : StakeEntry
staked_longer = record entry.parsed { total_stake_seconds = pos 110; last_updated_at = pos 200 }

uneven-IsClaimable : IsClaimable host uneven_distributor uneven_entry 90 1000 accounts
uneven-IsClaimable = record {
  payable = record {
    some_time = omega arith;
    some_reward = omega arith;
    scale = omega arith;
    product = omega arith;
    reward_fits = omega arith;
    vault_fits = omega arith;
    scaled = omega arith;
    since_fits = omega arith;
  };
  issued = omega arith;
  received = omega arith;
  paid = reward_entry-IsClaimable.paid;
}

short_claim_unbooked_example :
    (c : Claim) × (claim_rewards host uneven_distributor uneven_entry staked_longer 1000 accounts
      ≡ done c)
    × (c.sent ≡ 13)
    × (pos_part c.reward_entry.reward_seconds_received + 10 ≤ 110)
short_claim_unbooked_example =
    short_claim_unbooked host uneven_distributor uneven_entry staked_longer 1000 accounts
      uneven-IsClaimable (omega arith) (omega arith) (λ e. omega arith)

-- Two distributors of one pool, each with a new entry for the staked token.
abbrev rewards : RewardHost
rewards = record { find_reward_entry = λ d e. (d + e, 254); in_use = λ k. false }

abbrev other_distributor : RewardDistributor
other_distributor = record distributor.parsed { identifier = pos 1; default_multiplier = pos 4 }

abbrev fresh_entry : RewardEntry
fresh_entry = record reward_entry.parsed { reward_seconds_received = pos 0 }

abbrev other_entry : RewardEntry
other_entry = record fresh_entry { bump = 254; reward_distributor = 51 }

abbrev claim_accounts : ClaimAccounts
claim_accounts = record {
  reward_distributor = 50;
  stake_entry = 70;
  stake_pool = 60;
  reward_mint = 62;
  user_token_owner = 72;
  user_token_mint = 62;
  distributor_token_mint = 62;
  distributor_token_owner = 50;
  distributor_token_amount = 1000;
  user = 72;
  remaining_accounts = accounts;
}

other_made : init_reward_entry rewards 121 70 51 updated other_distributor ≡ done other_entry
unfolding init_reward_entry
other_made = refl

claim_valid : check_claim claim_accounts distributor.parsed fresh_entry updated ≡ done tt
unfolding check_claim
claim_valid = refl

fresh-IsClaimable : IsClaimable host distributor.parsed fresh_entry 105 1000 accounts
fresh-IsClaimable = record {
  payable = record {
    some_time = omega arith;
    some_reward = omega arith;
    scale = omega arith;
    product = omega arith;
    reward_fits = omega arith;
    vault_fits = omega arith;
    scaled = omega arith;
    since_fits = omega arith;
  };
  issued = omega arith;
  received = omega arith;
  paid = reward_entry-IsClaimable.paid;
}

foreign_entry_paid_example :
    PaidTwice host claim_accounts distributor.parsed fresh_entry updated other_entry
foreign_entry_paid_example =
    foreign_entry_paid host rewards claim_accounts distributor.parsed other_distributor fresh_entry
      other_entry updated updated 121 51 other_made refl refl claim_valid fresh-IsClaimable
      (omega arith)

entry-IsUpdatable : IsUpdatable entry.parsed 200
entry-IsUpdatable = record {
  no_cooldown = refl;
  updated = refl;
  fits = omega arith;
  points_fit = λ points set. cc;
}

preview_claimed_example :
    (e' : StakeEntry) × (c : Claim) × (next : ℤ) × (update_total_stake_seconds host
        (pos 200)
        entry.parsed
      ≡ done e')
    × (claim_rewards host distributor.parsed reward_entry.parsed e' 1000 accounts ≡ done c)
    × (calculate_pending_rewards numbers distributor entry (some reward_entry) (pos 1000) (pos 200)
        ≡ ok (pos c.sent, next))
preview_claimed_example =
    preview_claimed numbers numbers_documented host distributor entry reward_entry 200 1000 accounts
      ordinary refl entry-IsUpdatable refl (omega arith) reward_entry-IsClaimable

-- The entry after an update at 150.
abbrev later : StakeEntry
later = record entry.parsed { total_stake_seconds = pos 55; last_updated_at = pos 150 }

staked_seconds-surplus_example :
    (e' : StakeEntry) × (increment_total_stake_seconds (pos 200) later ≡ done e')
    × (staked_seconds numbers later (pos 200) ≡ pos (pos_part e'.total_stake_seconds + 50))
staked_seconds-surplus_example =
    staked_seconds-surplus numbers numbers_documented distributor.parsed later 200 (omega arith)
      ordinary.distributor (record { staked_at = refl; amount = refl; total = refl; cooldown = tt })
      (record {
        no_cooldown = refl;
        updated = refl;
        fits = omega arith;
        points_fit = λ points set. cc;
      })
      (omega arith) (omega arith)
