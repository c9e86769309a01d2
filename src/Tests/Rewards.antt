-- ===== src/Tests/Rewards.antt =====
-- Previews of rewards.
use discount_program.Common.{◌≡◌, refl, some, [], ◌∷◌, ok, Returns, Ensures, arith}
use discount_program.Common.Int.{pos}
use discount_program.Rewards.Pending.{calculate_pending_rewards}
use discount_program.Rewards.Pool.{get_reward_map, find_reward_entry}
use discount_program.Rewards.Bounds.{IsOrdinary, IsCapped, calculate_closed, calculate-le-remaining}
use discount_program.Rewards.Totals.{IsRewardMap, get_reward_map-Returns}
use discount_program.Tests.World.{numbers, numbers_documented, distributor, entry, reward_entry}

pub ordinary : IsOrdinary distributor.parsed entry.parsed (some reward_entry.parsed) 200
ordinary = record {
  in_range = omega arith;
  distributor = record {
    duration = refl;
    amount = refl;
    multiplier = refl;
    most = refl;
    decimals = omega arith;
  };
  entry = record { staked_at = refl; amount = refl; total = refl; cooldown = tt };
  reward_entry = record { received = refl; multiplier = refl };
  later = omega arith;
  some_time = omega arith;
  due = omega arith;
}

-- 105 seconds, 20 of them paid for: 8 periods of 3 at four times the rate, and 5 seconds to go.
calculate_closed_example :
    calculate_pending_rewards numbers distributor entry (some reward_entry) (pos 1000) (pos 200)
    ≡ ok (pos 96, pos 5)
calculate_closed_example =
    calculate_closed numbers numbers_documented distributor entry (some reward_entry) 1000 200
      ordinary refl

calculate-le-remaining_example :
    Ensures
      (IsCapped (pos 50))
      (calculate_pending_rewards numbers distributor entry (some reward_entry) (pos 50) (pos 200))
calculate-le-remaining_example =
    calculate-le-remaining numbers numbers_documented distributor entry (some reward_entry) (pos 50)
      (pos 200) (omega arith)

get_reward_map-Returns_example :
    Returns
      (IsRewardMap numbers numbers_documented (reward_entry ∷ []) distributor 50 200 (entry ∷ []))
      (get_reward_map numbers (entry ∷ []) (reward_entry ∷ []) distributor (pos 50) (pos 200))
unfolding find_reward_entry
get_reward_map-Returns_example =
    get_reward_map-Returns numbers numbers_documented (reward_entry ∷ []) distributor 50 200
      (entry ∷ []) ((λ same. ordinary), tt)
