-- ===== src/Staking/Calls/Timing.antt =====
-- When a stake becomes effective.
use native.Mathlib.Nat.{div-mul-le_self, lt-div-mul-add, mul_comm}
use can_bus.Base.{ℕ, ◌+◌, ◌-◌, ◌*◌, ◌/◌, ◌≤◌, ◌<◌, ◌≡◌, some, arith}
use can_bus.Frame.Call.{ok}
use can_bus.Staking.Info.{PoolSetting, end_time}
use can_bus.Staking.State.{Storage, Config}
use can_bus.Staking.Epoch.{get_epoch_index, get_epoch_begin_time}
use can_bus.Staking.Calls.{effective_time_of}

module _ (c : Config) where
  open c use {tokens}

  -- What the three functions compute together, where they succeed.
  effective_time_value :
      (p now b : ℕ) (setting : PoolSetting) (s s' : Storage tokens.World)
      → s.pool_setting p ≡ some setting
      → effective_time_of c p setting now s ≡ (ok b, s')
      → let q = (now + setting.setup_time - setting.start_time) / setting.epoch_range in
        (s' ≡ s)
        × (0 < setting.epoch_range)
        × (q + 1 < setting.epoch → b ≡ setting.start_time + setting.epoch_range * (q + 1))
        × (setting.epoch ≤ q + 1 → end_time setting ≡ some b)
  unfolding effective_time_of get_epoch_index get_epoch_begin_time
  effective_time_value p now b setting s s' e h =
      (ground arith, ground arith, λ q. ground arith, λ q. ground arith)

  -- When `stake` accepts an effective time (one before the pool's end, in a pool that has started),
  -- it is the first block of an epoch of the pool, it lies after the setup time is over, and the
  -- wait for it after the setup time is at most one epoch.
  pub effective_time_of-bounds :
      (p now b ending : ℕ) (setting : PoolSetting) (s s' : Storage tokens.World)
      → s.pool_setting p ≡ some setting
      → setting.start_time ≤ now
      → end_time setting ≡ some ending
      → effective_time_of c p setting now s ≡ (ok b, s')
      → b < ending
      → (s' ≡ s)
        × (now + setting.setup_time < b)
        × (b ≤ now + setting.setup_time + setting.epoch_range)
        × ((k : ℕ) × (k < setting.epoch) × (b ≡ setting.start_time + setting.epoch_range * k))
  effective_time_of-bounds p now b ending setting s s' e started fin h before =
      let t = now + setting.setup_time - setting.start_time in
      let q = t / setting.epoch_range in
      let (same, pos, inside, outside) = effective_time_value p now b setting s s' e h in
      let within : q + 1 < setting.epoch = ground (arith, outside) in
      let at : b ≡ setting.start_time + setting.epoch_range * (q + 1) = inside within in
      let swapped : setting.epoch_range * q ≡ q * setting.epoch_range = mul_comm _ _ in
      let low = div-mul-le_self t setting.epoch_range in
      let high = lt-div-mul-add {a = t} pos in
      (
        same,
        omega (arith, at, swapped, high, started),
        omega (arith, at, swapped, low, started),
        (q + 1, within, at),
      )
