-- ===== src/Staking/Solvency.antt =====
-- What the staking pallet owes of the stable token, and the account that it keeps it in.
pub mod Payments
pub mod Stakes
pub mod Invariant
pub mod Backing
pub mod Natives
pub mod Matching
pub mod Withdrawing
pub mod History
use can_bus.Base.{
  ℕ, ◌+◌, ◌≤◌, ◌<◌, ◌^◌, ◌≡◌, ◌≢◌, Option, none, some, Covers, Covers-shift, Covers-le, arith,
}
use can_bus.Staking.State.{Config, Storage}
use can_bus.Staking.Pending.Solve.{staked}
use can_bus.Staking.Calls.{S}

-- The stakes of a pool, those that wait for it, and its unclaimed rewards.
abbrev pub owed : {W : Type 0} → ℕ → Storage W → ℕ
owed p s = staked p s + s.pending_amount p + s.pool_reward p

module _ (c : Config) where
  open c use {tokens, stable_token_beneficiary}

  abbrev pub balance_of : Option ℕ → tokens.World → ℕ
  balance_of none w = 0
  balance_of (some asset) w = tokens.balance (some asset) stable_token_beneficiary w

  -- The stable tokens that the pallet holds.
  abbrev pub pot : S c → ℕ
  pot s = balance_of s.aiusd_asset_id s.world

  -- The pallet holds what it owes to all pools together.
  pub record IsSolvent (s : S c) : Type 0 where
    pub covered : Covers (λ p. owed p s) (pot s)
    pub bounded : (p : ℕ) → s.pool_reward p < 2 ^ 128

  -- What is owed to one pool changes by what comes in and goes out.
  pub record Shifts (p out gain : ℕ) (s s' : S c) : Type 0 where
    pub here : owed p s' + out ≤ owed p s + gain
    pub others : (q : ℕ) → q ≢ p → owed q s' ≤ owed q s
    pub held : pot s + gain ≤ pot s' + out
    pub small : (q : ℕ) → s.pool_reward q < 2 ^ 128 → s'.pool_reward q < 2 ^ 128

  pub Shifts-IsSolvent :
      (p out gain : ℕ) {s s' : S c} → Shifts p out gain s s' → IsSolvent s → IsSolvent s'
  Shifts-IsSolvent p out gain {s = s} {s' = s'} d v = record {
    covered =
        Covers-shift (λ q. owed q s) (λ q. owed q s') p out gain d.here d.others (pot s) (pot s')
          d.held v.covered;
    bounded = λ q. d.small q (v.bounded q);
  }

  -- Nothing more is owed, and nothing is lost.
  pub record Rests (s s' : S c) : Type 0 where
    pub owes : (q : ℕ) → owed q s' ≤ owed q s
    pub held : pot s ≤ pot s'
    pub small : (q : ℕ) → s.pool_reward q < 2 ^ 128 → s'.pool_reward q < 2 ^ 128

  pub Rests-IsSolvent : {s s' : S c} → Rests s s' → IsSolvent s → IsSolvent s'
  Rests-IsSolvent {s} {s'} d v = record {
    covered = Covers-le (λ q. owed q s) (λ q. owed q s') (pot s) (pot s') d.owes d.held v.covered;
    bounded = λ q. d.small q (v.bounded q);
  }
