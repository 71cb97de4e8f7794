-- ===== src/Staking/Claim/Amounts.antt =====
-- Claims move effective times and rewards, and no stake.
use can_bus.Base.{ℕ, ◌≤◌, ◌≡◌, arith}
use can_bus.Frame.Call.{ok}
use can_bus.Staking.Info.{claim, weight, weight_force, claim_based_on_weight}
use can_bus.Staking.State.{Config}
use can_bus.Staking.Pending.Solve.{staked}
use can_bus.Staking.Claim.{
  S, native_claim_with, do_native_claim, stable_claim_with, do_stable_claim, withdraw_with,
  do_withdraw,
}

module _ (c : Config) where
  open c use {tokens, perquintill}

  -- What leaves the stakes of the pools alone, or lowers them.
  pub record Keeps (s s' : S c) : Type 0 where
    pub setting : s'.pool_setting ≡ s.pool_setting
    pub queue : s'.pending_setup ≡ s.pending_setup
    pub pending : s'.pending_amount ≡ s.pending_amount
    pub pool : (p : ℕ) → staked p s' ≤ staked p s

  pub do_native_claim-Keeps :
      (who until_time : ℕ) (s s' : S c)
      → do_native_claim c who until_time s ≡ (ok tt, s')
      → Keeps s s'
  unfolding do_native_claim native_claim_with
  do_native_claim-Keeps who until_time s s' h = record {
    setting = ground arith;
    queue = ground arith;
    pending = ground arith;
    pool = λ p. ground arith;
  }

  pub do_stable_claim-Keeps :
      (who p until_time : ℕ) (s s' : S c)
      → do_stable_claim c who p until_time s ≡ (ok tt, s')
      → Keeps s s'
  unfolding do_stable_claim stable_claim_with claim weight weight_force claim_based_on_weight
  do_stable_claim-Keeps who p until_time s s' h = record {
    setting = ground arith;
    queue = ground arith;
    pending = ground arith;
    pool = λ p. ground arith;
  }

  pub do_withdraw-Keeps :
      (who p : ℕ) (s s' : S c) → do_withdraw c who p s ≡ (ok tt, s') → Keeps s s'
  unfolding do_withdraw withdraw_with
  do_withdraw-Keeps who p s s' h = record {
    setting = ground arith;
    queue = ground arith;
    pending = ground arith;
    pool = λ p. ground arith;
  }
