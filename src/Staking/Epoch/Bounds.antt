-- ===== src/Staking/Epoch/Bounds.antt =====
-- Epochs and blocks: the index of a block and the first block of an epoch.
use native.Mathlib.Nat.{mul-div_cancel_left}
use can_bus.Base.{ℕ, ◌+◌, ◌-◌, ◌*◌, ◌/◌, ◌≤◌, ◌<◌, ◌≡◌, some, arith}
use can_bus.Frame.Call.{ok}
use can_bus.Staking.Info.{PoolSetting, end_time}
use can_bus.Staking.State.{Storage}
use can_bus.Staking.Epoch.{get_epoch_index, get_epoch_begin_time}

sub_start : (a b : ℕ) → a + b - a ≡ b
sub_start a b = omega arith

module _ {W : Type 0} where
  begin_value :
      (p k b : ℕ) (setting : PoolSetting) (s s' : Storage W)
      → s.pool_setting p ≡ some setting
      → get_epoch_begin_time p k s ≡ (ok b, s')
      → (s' ≡ s)
        × (k < setting.epoch → b ≡ setting.start_time + setting.epoch_range * k)
        × (setting.epoch ≤ k → end_time setting ≡ some b)
  unfolding get_epoch_begin_time
  begin_value p k b setting s s' e h = (ground arith, λ q. ground arith, λ q. ground arith)

  -- Where epochs have a positive length, the first block of an epoch of the pool lies in that epoch:
  -- its index is the epoch again.
  pub get_epoch_index-get_epoch_begin_time :
      (p k b : ℕ) (setting : PoolSetting) (s : Storage W)
      → s.pool_setting p ≡ some setting
      → 0 < setting.epoch_range
      → k < setting.epoch
      → get_epoch_begin_time p k s ≡ (ok b, s)
      → get_epoch_index p b s ≡ (ok k, s)
  unfolding get_epoch_index
  get_epoch_index-get_epoch_begin_time p k b setting s e pos inside h =
      let at : b ≡ setting.start_time + setting.epoch_range * k =
        (begin_value p k b setting s s e h).1 inside in
      let index : (b - setting.start_time) / setting.epoch_range ≡ k =
        rw (at, sub_start, mul-div_cancel_left k pos) in
      ground arith
