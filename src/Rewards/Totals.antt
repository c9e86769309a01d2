-- ===== src/Rewards/Totals.antt =====
-- `getRewardMap` of sdk/rewardDistribution.ts: every entry of the map, and the total.
use discount_program.Common.{
  ℕ, ◌≡◌, ◌==◌, Option, none, some, List, [], ◌∷◌, ok, throw, Returns, Returns-bind, Returns-inv,
  Returns-mono, All, refl, arith, if◌then◌else◌, foldl, sym, ap, ◌∙◌,
}
use discount_program.Common.Int.{ℤ, pos, ◌+ℤ◌, ◌≤ℤ◌, ltb_ℤ, +ℤ_parts, eq_of_parts}
use discount_program.Common.Table.{Table, insert, lookup, or_else, values, lookup-insert}
use discount_program.Data.{PublicKey}
use discount_program.Packages.{BigNumber, IsDocumented}
use discount_program.Rewards.Pending.{
  StakeEntryData, RewardEntryData, RewardDistributorData, calculate_pending_rewards,
}
use discount_program.Rewards.Pool.{
  Preview, RewardMap, find_reward_entry, reward_map_from, get_reward_map, sum_claimable,
}
use discount_program.Rewards.ClosedForm.{parsed_entry}
use discount_program.Rewards.Bounds.{IsOrdinary, IsCapped, calculate-Returns}

-- The entry belongs to another pool, or is in an ordinary state.
abbrev pub IsPreviewable :
    List RewardEntryData → RewardDistributorData → ℕ → StakeEntryData → Type 0
IsPreviewable rs d now e =
    e.parsed.pool ≡ d.parsed.stake_pool
    → IsOrdinary d.parsed e.parsed (parsed_entry (find_reward_entry rs e.pubkey)) now

abbrev pub IsWithin : ℤ → PublicKey × Preview → Type 0
IsWithin remaining v = v.1.claimable_rewards ≤ℤ remaining

-- The preview of the last of the entries that has the id.
abbrev pub last_preview :
    BigNumber
    → List RewardEntryData
    → RewardDistributorData
    → (remaining now : ℤ) → PublicKey
    → List StakeEntryData
    → Option Preview
last_preview n rs d remaining now k [] = none
last_preview n rs d remaining now k (e ∷ es) = or_else (last_preview n rs d remaining now k es) (
    if e.pubkey == k
    then elim (calculate_pending_rewards n d e (find_reward_entry rs e.pubkey) remaining now) [
      | ok x ↦ some (record { claimable_rewards = x.0; next_rewards_in = x.1 })
      | throw _ ↦ none
    ]
    else none)

-- The sum of the previews.
abbrev pub claimable_sum : List Preview → ℤ
claimable_sum [] = pos 0
claimable_sum (v ∷ vs) = v.claimable_rewards +ℤ claimable_sum vs

+ℤ_zero : (a : ℤ) → a +ℤ pos 0 ≡ a
+ℤ_zero a = eq_of_parts _ _ (omega (arith, +ℤ_parts a (pos 0)))

+ℤ_assoc : (a b c : ℤ) → a +ℤ b +ℤ c ≡ a +ℤ (b +ℤ c)
+ℤ_assoc a b c =
    eq_of_parts _ _
      (omega (arith, +ℤ_parts (a +ℤ b) c, +ℤ_parts a b, +ℤ_parts a (b +ℤ c), +ℤ_parts b c))

zero-+ℤ : (a : ℤ) → pos 0 +ℤ a ≡ a
zero-+ℤ a = eq_of_parts _ _ (omega (arith, +ℤ_parts (pos 0) a))

module _ (n : BigNumber) (doc : IsDocumented n) where
  fold-claimable_sum :
      (vs : List Preview) (acc : ℤ)
      → foldl (λ a v. n.add a v.claimable_rewards) acc vs ≡ acc +ℤ claimable_sum vs
  fold-claimable_sum [] acc = sym (+ℤ_zero acc)
  fold-claimable_sum (v ∷ vs) acc =
      fold-claimable_sum vs (n.add acc v.claimable_rewards)
      ∙ ap (λ a. a +ℤ claimable_sum vs) (doc.add_lem acc v.claimable_rewards)
      ∙ +ℤ_assoc acc v.claimable_rewards (claimable_sum vs)

  sum_claimable_lem : (vs : List Preview) → sum_claimable n vs ≡ claimable_sum vs
  unfolding sum_claimable
  sum_claimable_lem vs =
      fold-claimable_sum vs (n.number (pos 0))
      ∙ ap (λ a. a +ℤ claimable_sum vs) (doc.number_lem 0 (omega arith))
      ∙ zero-+ℤ (claimable_sum vs)

insert-IsWithin :
    (remaining : ℤ) (k : PublicKey) (v : Preview) (t : Table Preview)
    → v.claimable_rewards ≤ℤ remaining
    → All (IsWithin remaining) t
    → All (IsWithin remaining) (insert k v t)
insert-IsWithin remaining k v [] p h = (p, tt)
insert-IsWithin remaining k v (x ∷ t) p h = ground (arith, insert-IsWithin remaining k v t p h.1)

module _ (n : BigNumber) (doc : IsDocumented n) (rs : List RewardEntryData)
    (d : RewardDistributorData) (remaining now : ℕ) where
  -- What the loop makes of a map, for each id.
  abbrev IsExtended : Table Preview → List StakeEntryData → Table Preview → Type 0
  IsExtended acc es m =
      All (IsWithin (pos remaining)) m
      × ((k : PublicKey)
          → lookup k m
            ≡ or_else (last_preview n rs d (pos remaining) (pos now) k es) (lookup k acc))

  reward_map_from-Returns :
      (es : List StakeEntryData) (acc : Table Preview)
      → All (IsPreviewable rs d now) es
      → All (IsWithin (pos remaining)) acc
      → Returns (IsExtended acc es) (reward_map_from n rs d (pos remaining) (pos now) acc es)
  unfolding reward_map_from
  reward_map_from-Returns [] acc h w = (w, λ k. refl)
  reward_map_from-Returns (e ∷ es) acc (h, hs) w =
      let (x, eq, le) =
        Returns-inv (IsCapped (pos remaining)) _
          (calculate-Returns n doc d e (find_reward_entry rs e.pubkey) remaining now h) in
      let v : Preview = record { claimable_rewards = x.0; next_rewards_in = x.1 } in
      let later =
        reward_map_from-Returns es (insert e.pubkey v acc) hs
          (insert-IsWithin (pos remaining) e.pubkey v acc le w) in
      rw eq (
        Returns-mono (IsExtended (insert e.pubkey v acc) es) (IsExtended acc (e ∷ es)) _
          (λ m (within, found).
            (within, λ k. ground (arith, eq, found k, lookup-insert e.pubkey k v acc)))
          later)

  -- What `getRewardMap` promises of its result: no entry of the map, and not the total, is above
  -- what remains; the total is the sum of the map's values, or what remains if that is less; and
  -- an id has the preview of the last stake entry with that id.
  abbrev pub IsRewardMap : List StakeEntryData → RewardMap → Type 0
  IsRewardMap es m =
      All (IsWithin (pos remaining)) m.reward_map
      × (m.claimable_rewards ≤ℤ pos remaining)
      × (m.claimable_rewards ≡ (
          let total = claimable_sum (values m.reward_map) in
          if ltb_ℤ (pos remaining) total then pos remaining else total))
      × ((k : PublicKey)
          → lookup k m.reward_map ≡ last_preview n rs d (pos remaining) (pos now) k es)

  -- Where every stake entry belongs to another pool or is in an ordinary state, getRewardMap
  -- returns (bn.js as documented): its map holds under an id the preview of the last entry with
  -- that id, and nothing under another id; no preview and not the total is above what remains; and
  -- the total is the sum of the previews in the map, or what remains if that is less.
  pub get_reward_map-Returns :
      (es : List StakeEntryData)
      → All (IsPreviewable rs d now) es
      → Returns (IsRewardMap es) (get_reward_map n es rs d (pos remaining) (pos now))
  unfolding get_reward_map
  get_reward_map-Returns es h =
      Returns-bind (IsExtended [] es) (IsRewardMap es) _ _ (reward_map_from-Returns es [] h tt)
        (λ m (within, found). (
          within,
          ground (arith, doc.gt_lem (sum_claimable n (values m)) (pos remaining)),
          ground (
            arith,
            sum_claimable_lem n doc (values m),
            doc.gt_lem (sum_claimable n (values m)) (pos remaining),
          ),
          λ k. ground (arith, found k),
        ))
