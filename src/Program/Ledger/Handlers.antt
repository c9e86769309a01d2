-- ===== src/Program/Ledger/Handlers.antt =====
-- What each handler leaves of an entry, and that the entry stays sound.
use discount_program.Common.{ℕ, ◌+◌, ◌≡◌, ◌≢◌, ◌⊎◌, inl, inr, refl, sym, ap, ◌∙◌, some, none, arith}
use discount_program.Common.Int.{ℤ, pos, pos_part}
use discount_program.Data.{PublicKey, StakePool, StakeEntry}
use discount_program.Program.Outcome.{done}
use discount_program.Program.Staking.{increment_total_stake_seconds, update_total_stake_seconds}
use discount_program.Program.Entries.{
  EntryHost, InitEntry, init_entry, reset_stake_entry, close_stake_entry, check_authority,
}
use discount_program.Program.Pools.{UpdatePoolIx, update_pool}
use discount_program.Program.Pnft.Changes.{Updated, Entered, Left}
use discount_program.Program.Ledger.Books.{IsPast, IsSound}

-- An entry after a reset.
pub record Restarted (now : ℤ) (e e' : StakeEntry) : Type 0 where
  pub amount : e'.amount ≡ e.amount
  pub stake_mint : e'.stake_mint ≡ e.stake_mint
  pub last_staker : e'.last_staker ≡ e.last_staker
  pub last_staked_at : e'.last_staked_at ≡ now
  pub last_updated_at : e'.last_updated_at ≡ now
  pub cooldown : e'.cooldown_start_seconds ≡ none
  pub points : e'.multiplier_basis_points ≡ e.multiplier_basis_points

module _ (default_key : PublicKey) (clock : ℕ) (e e' : StakeEntry) where
  kept-IsPast :
      IsPast clock e.cooldown_start_seconds
      → ((pos_part e.amount ≡ 0) × (e'.cooldown_start_seconds ≡ e.cooldown_start_seconds))
        ⊎ (e'.cooldown_start_seconds ≡ none)
      → IsPast clock e'.cooldown_start_seconds
  kept-IsPast past (inl (_, same)) = rw same past
  kept-IsPast past (inr unset) = rw unset tt

  pub Entered-IsSound :
      (user : PublicKey) (p p' : StakePool)
      → user ≢ default_key
      → pos_part e.amount ≡ 0
      → IsSound default_key clock e
      → Entered (pos clock) user p p' e e'
      → IsSound default_key clock e'
  Entered-IsSound user p p' signer empty s h = record {
    staked = inr (h.amount ∙ ap (λ n. pos (n + 1)) empty, λ is. signer (sym h.last_staker ∙ is));
    staked_at = rw h.last_staked_at refl;
    updated_at = rw h.last_updated_at refl;
    ordered = rw (h.last_staked_at, h.last_updated_at) (omega arith);
    past = rw h.last_updated_at (omega arith);
    cooling = kept-IsPast s.cooling h.cooldown;
    points = h.points ∙ s.points;
  }

  pub Left-IsSound :
      (p p' : StakePool)
      → IsSound default_key clock e
      → Left (pos clock) default_key p p' e e'
      → IsSound default_key clock e'
  Left-IsSound p p' s h = record {
    staked = inl (h.amount, h.last_staker);
    staked_at = rw h.last_staked_at s.staked_at;
    updated_at = rw h.last_updated_at refl;
    ordered = rw (h.last_staked_at, h.last_updated_at) (omega (arith, s.ordered, s.past));
    past = rw h.last_updated_at (omega arith);
    cooling = rw h.cooldown tt;
    points = h.points ∙ s.points;
  }

  pub cooling-IsSound :
      IsSound default_key clock e
      → IsSound default_key clock (record e { cooldown_start_seconds = some (pos clock) })
  cooling-IsSound s = record {
    staked = s.staked;
    staked_at = s.staked_at;
    updated_at = s.updated_at;
    ordered = s.ordered;
    past = s.past;
    cooling = (refl, omega arith);
    points = s.points;
  }

  pub Updated-IsSound :
      IsSound default_key clock e → Updated (pos clock) e e' → IsSound default_key clock e'
  Updated-IsSound s h = record {
    staked = rw (h.amount, h.last_staker) s.staked;
    staked_at = rw h.last_staked_at s.staked_at;
    updated_at = rw h.last_updated_at refl;
    ordered = rw (h.last_staked_at, h.last_updated_at) (omega (arith, s.ordered, s.past));
    past = rw h.last_updated_at (omega arith);
    cooling = rw h.cooldown s.cooling;
    points = h.points ∙ s.points;
  }

  pub Restarted-IsSound :
      IsSound default_key clock e → Restarted (pos clock) e e' → IsSound default_key clock e'
  Restarted-IsSound s h = record {
    staked = rw (h.amount, h.last_staker) s.staked;
    staked_at = rw h.last_staked_at refl;
    updated_at = rw h.last_updated_at refl;
    ordered = rw (h.last_staked_at, h.last_updated_at) (omega arith);
    past = rw h.last_updated_at (omega arith);
    cooling = rw h.cooldown tt;
    points = h.points ∙ s.points;
  }

pub reset-Restarted :
    (now : ℤ) (stake_pool authority : PublicKey) (p : StakePool) (e e' : StakeEntry)
    → reset_stake_entry now stake_pool authority p e ≡ done e'
    → Restarted now e e'
unfolding reset_stake_entry check_authority
reset-Restarted now stake_pool authority p e e' h = ground arith

pub update-Updated :
    (host : EntryHost) (now : ℤ) (e e' : StakeEntry)
    → update_total_stake_seconds host.payments now e ≡ done e'
    → increment_total_stake_seconds now e ≡ done e'
unfolding update_total_stake_seconds
update-Updated host now e e' h = ground arith

pub closed-empty :
    (host : EntryHost) (stake_pool authority : PublicKey) (p : StakePool) (e : StakeEntry)
    → close_stake_entry host.payments stake_pool authority p e ≡ done authority
    → e.last_staker ≡ host.payments.default_key
unfolding close_stake_entry check_authority
closed-empty host stake_pool authority p e h = ground arith

-- A new entry.
pub record IsNew (host : EntryHost) (a : InitEntry) (e : StakeEntry) : Type 0 where
  pub stake_mint : e.stake_mint ≡ a.stake_mint
  pub amount : e.amount ≡ pos 0
  pub last_staker : e.last_staker ≡ host.payments.default_key
  pub last_staked_at : e.last_staked_at ≡ pos 0
  pub last_updated_at : e.last_updated_at ≡ pos 0
  pub cooldown : e.cooldown_start_seconds ≡ none
  pub points : e.multiplier_basis_points ≡ none

pub IsNew-IsSound :
    (host : EntryHost) (a : InitEntry) (clock : ℕ) (e : StakeEntry)
    → IsNew host a e
    → IsSound host.payments.default_key clock e
IsNew-IsSound host a clock e h = record {
  staked = inl (h.amount, h.last_staker);
  staked_at = rw h.last_staked_at refl;
  updated_at = rw h.last_updated_at refl;
  ordered = rw (h.last_staked_at, h.last_updated_at) (omega arith);
  past = rw h.last_updated_at (omega arith);
  cooling = rw h.cooldown tt;
  points = h.points;
}

pub init_entry-IsNew :
    (host : EntryHost) (a : InitEntry) (p : StakePool) (e : StakeEntry)
    → init_entry host a p ≡ done e
    → IsNew host a e
unfolding init_entry
init_entry-IsNew host a p e h = ground arith

pub kept_total :
    (authority : PublicKey) (ix : UpdatePoolIx) (p p' : StakePool)
    → update_pool authority ix p ≡ done p'
    → p'.total_staked ≡ p.total_staked
unfolding update_pool
kept_total authority ix p p' h = ground arith
