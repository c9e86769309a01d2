-- ===== src/Program/Claims/Foreign.antt =====
-- A claim with the reward entry of another distributor.
use discount_program.Common.{
  ℕ, ◌+◌, ◌-◌, ◌*◌, ◌/◌, ◌^◌, ◌≤◌, ◌<◌, ◌≡◌, sym, ap, ◌∙◌, subst, ◌==◌, arith,
}
use discount_program.Common.Int.{ℤ, pos, pos_part}
use discount_program.Data.{PublicKey, StakeEntry, RewardEntry, RewardDistributor}
use discount_program.Program.Outcome.{done, err, constraint_raw}
use discount_program.Program.Outcome.Done.{check-done, done-injective}
use discount_program.Program.RewardEntries.{RewardHost, init_reward_entry}
use discount_program.Program.Payment.{Host, ensure, init_account}
use discount_program.Program.Claims.{Claim}
use discount_program.Program.Claims.Accounts.{ClaimAccounts, check_claim, claim_instruction}
use discount_program.Program.Claims.Payout.{unpaid, IsClaimable, IsClaim, claim_rewards-Returns}
use discount_program.Program.Claims.Rounding.{worth}

claim_instruction-Returns :
    (host : Host) (a : ClaimAccounts) (d : RewardDistributor) (r : RewardEntry) (e : StakeEntry)
    → check_claim a d r e ≡ done tt
    → IsClaimable host d r (unpaid d r e) a.distributor_token_amount a.remaining_accounts
    → (c : Claim) × (claim_instruction host a d r e ≡ done c)
      × IsClaim d r e a.distributor_token_amount c
unfolding claim_instruction
claim_instruction-Returns host a d r e valid h =
    let (c, claimed, is) =
      claim_rewards-Returns host d r e a.distributor_token_amount a.remaining_accounts h in
    (c, rw valid claimed, is)

-- The reward of the unpaid periods.
abbrev pub full_reward : RewardDistributor → RewardEntry → StakeEntry → ℕ
full_reward d r e = worth d r e / 10 ^ d.multiplier_decimals

-- The accounts after a claim, and the same entry of another distributor.
abbrev pub left_accounts : ClaimAccounts → Claim → ClaimAccounts
left_accounts a c = record a { distributor_token_amount = a.distributor_token_amount - c.sent }

abbrev pub entry_of : (other : PublicKey) (bump : ℕ) → RewardEntry → RewardEntry
entry_of other bump r = record r { bump = bump; reward_distributor = other }

module _ (host : Host) (a : ClaimAccounts) (d : RewardDistributor) (r : RewardEntry)
    (e : StakeEntry) where
  -- Two claims, the second with another entry.
  abbrev pub PaidTwice : RewardEntry → Type 0
  PaidTwice r' =
      (c : Claim) × (claim_instruction host a d r e ≡ done c)
      × (c.sent ≡ full_reward d r e)
      × (c' : Claim) × (claim_instruction host (left_accounts a c) c.distributor r' e ≡ done c')
      × (c'.sent ≡ full_reward d r e)
      × (pos_part c'.distributor.rewards_issued ≡ pos_part d.rewards_issued + 2 * full_reward d r e)

module _ (host : Host) (a : ClaimAccounts) (d : RewardDistributor) (r : RewardEntry)
    (e : StakeEntry) (other : PublicKey) (bump : ℕ) where
  check_claim-other :
      (issued : ℤ) (c : Claim)
      → check_claim a d r e ≡ done tt
      → check_claim
          (left_accounts a c)
          (record d { rewards_issued = issued })
          (entry_of other bump r)
          e
        ≡ done tt
  unfolding check_claim
  check_claim-other issued c valid = valid

  other-IsClaimable :
      (issued : ℤ) (sent : ℕ)
      → sent ≤ a.distributor_token_amount
      → pos_part issued ≡ pos_part d.rewards_issued + sent
      → IsClaimable host d r (unpaid d r e) a.distributor_token_amount a.remaining_accounts
      → IsClaimable host
          (record d { rewards_issued = issued })
          (entry_of other bump r)
          (unpaid d r e)
          (a.distributor_token_amount - sent)
          a.remaining_accounts
  other-IsClaimable issued sent le is h = record {
    payable = record {
      some_time = h.payable.some_time;
      some_reward = h.payable.some_reward;
      scale = h.payable.scale;
      product = h.payable.product;
      reward_fits = h.payable.reward_fits;
      vault_fits = omega (arith, h.payable.vault_fits);
      scaled = less_scaled _ _ sent (h.payable.scaled);
      since_fits = h.payable.since_fits;
    };
    issued = omega (arith, h.issued);
    received = h.received;
    paid = h.paid;
  }
    where
      less_scaled : (v k sent : ℕ) → v * k < 2 ^ 128 → (v - sent) * k < 2 ^ 128
      less_scaled v k sent small = grind arith

  PaysAgain : Claim → RewardDistributor → Type 0
  PaysAgain c d' =
      (c' : Claim) × (claim_instruction host (left_accounts a c) d' (entry_of other bump r) e
        ≡ done c')
      × (c'.sent ≡ full_reward d r e)
      × (pos_part c'.distributor.rewards_issued ≡ pos_part d.rewards_issued + 2 * full_reward d r e)

  entry_of-PaidTwice :
      check_claim a d r e ≡ done tt
      → IsClaimable host d r (unpaid d r e) a.distributor_token_amount a.remaining_accounts
      → 2 * full_reward d r e ≤ a.distributor_token_amount
      → PaidTwice host a d r e (entry_of other bump r)
  unfolding PaysAgain
  entry_of-PaidTwice valid h enough =
      let (c, claimed, is) = claim_instruction-Returns host a d r e valid h in
      let sent : c.sent ≡ full_reward d r e = is.sent ∙ (omega arith) in
      let issued = c.distributor.rewards_issued in
      let (c', again, is') =
        claim_instruction-Returns host (left_accounts a c) (record d { rewards_issued = issued })
          (entry_of other bump r) e (check_claim-other issued c valid)
          (other-IsClaimable issued c.sent (omega (arith, sent)) is.issued h) in
      let sent' : c'.sent ≡ full_reward d r e = is'.sent ∙ (omega (arith, sent)) in
      let (c₂, again₂, sent₂, issued₂) =
        subst (PaysAgain c) (sym is.settings)
          (c', again, sent', omega (arith, is'.issued, is.issued, sent, sent')) in
      (c, claimed, sent, c₂, again₂, sent₂, issued₂)

-- The entry that initRewardEntry makes.
init_reward_entry-done :
    (rewards : RewardHost) (key stake_entry other : PublicKey) (e : StakeEntry)
    (d : RewardDistributor) (r : RewardEntry)
    → init_reward_entry rewards key stake_entry other e d ≡ done r
    → record {
      bump = (rewards.find_reward_entry other stake_entry).1;
      stake_entry = stake_entry;
      reward_distributor = other;
      reward_seconds_received = pos 0;
      multiplier = d.default_multiplier;
    }
      ≡ r
unfolding init_reward_entry
init_reward_entry-done rewards key stake_entry other e d r made =
    let address : PublicKey = (rewards.find_reward_entry other stake_entry).0 in
    done-injective _ r (
      check-done (ensure (d.stake_pool == e.pool) (err constraint_raw)) _ r
        (check-done (init_account (rewards.in_use key) key address) _ r made))

check_claim-entry :
    (a : ClaimAccounts) (d : RewardDistributor) (r : RewardEntry) (e : StakeEntry)
    → check_claim a d r e ≡ done tt
    → a.stake_entry ≡ r.stake_entry
unfolding check_claim
check_claim-entry a d r e valid = ground (arith, valid)

-- The account constraints of claimRewards do not ask for a reward entry of the distributor. Where a
-- stake entry has a fresh reward entry of a distributor, and initRewardEntry has made one for it at
-- another distributor whose default multiplier is the multiplier of the first, and where a claim
-- from the distributor is valid and goes through (IsClaimable) and its vault holds the reward
-- twice, a claim with the one entry and then one with the other both succeed, each sends the whole
-- reward, and the rewards issued grow by twice the reward.
pub foreign_entry_paid :
    (host : Host) (rewards : RewardHost) (a : ClaimAccounts) (d other_d : RewardDistributor)
    (r r' : RewardEntry) (e e₀ : StakeEntry) (key other : PublicKey)
    → init_reward_entry rewards key a.stake_entry other e₀ other_d ≡ done r'
    → other_d.default_multiplier ≡ r.multiplier
    → r.reward_seconds_received ≡ pos 0
    → check_claim a d r e ≡ done tt
    → IsClaimable host d r (unpaid d r e) a.distributor_token_amount a.remaining_accounts
    → 2 * full_reward d r e ≤ a.distributor_token_amount
    → PaidTwice host a d r e r'
foreign_entry_paid host rewards a d other_d r r' e e₀ key other made same fresh valid h enough =
    let bump : ℕ = (rewards.find_reward_entry other a.stake_entry).1 in
    let made_of : RewardEntry → PublicKey → ℤ → ℤ → RewardEntry = λ x k t m. record x {
      bump = bump;
      reward_distributor = other;
      stake_entry = k;
      reward_seconds_received = t;
      multiplier = m;
    } in
    let is : entry_of other bump r ≡ r' =
      ap (λ k. made_of r k r.reward_seconds_received r.multiplier)
        (sym (check_claim-entry a d r e valid))
      ∙ ap (λ t. made_of r a.stake_entry t r.multiplier) fresh
      ∙ ap (λ m. made_of r a.stake_entry (pos 0) m) (sym same)
      ∙ init_reward_entry-done rewards key a.stake_entry other e₀ other_d r' made in
    subst (PaidTwice host a d r e) is (entry_of-PaidTwice host a d r e other bump valid h enough)
