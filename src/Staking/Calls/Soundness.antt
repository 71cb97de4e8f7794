-- ===== src/Staking/Calls/Soundness.antt =====
-- When the staking storage is sound, and that a call that keeps the stakes keeps it so.
use can_bus.Base.{ℕ, ◌+◌, ◌≤◌, ◌≡◌, none, some, arith}
use can_bus.Staking.Info.{PoolSetting}
use can_bus.Staking.State.{Config}
use can_bus.Staking.Pending.Queue.{IsSorted, queued}
use can_bus.Staking.Pending.Solve.{staked}
use can_bus.Staking.Claim.Amounts.{Keeps}
use can_bus.Staking.Calls.{S}

module _ (c : Config) where
  open c use {tokens}

  -- The queue is in order, the pending amounts are those of the queue, and no pool holds more than
  -- its cap, the queue counted in; where there is no pool nothing is staked.
  pub record IsSound (s : S c) : Type 0 where
    pub sorted : IsSorted s.pending_setup
    pub pending : (p : ℕ) → s.pending_amount p ≡ queued p s.pending_setup
    pub capped :
        (p : ℕ) (setting : PoolSetting)
        → s.pool_setting p ≡ some setting
        → staked p s + s.pending_amount p ≤ setting.pool_cap
    pub unset : (p : ℕ) → s.pool_setting p ≡ none → staked p s + s.pending_amount p ≡ 0

  pub Keeps-IsSound : {s s' : S c} → Keeps c s s' → IsSound s → IsSound s'
  Keeps-IsSound k v = record {
    sorted = rw k.queue v.sorted;
    pending = λ p. rw (k.pending, k.queue) (v.pending p);
    capped = λ p st e. ground (arith, v.capped p st, k.pool p);
    unset = λ p e. ground (arith, v.unset p, k.pool p);
  }
