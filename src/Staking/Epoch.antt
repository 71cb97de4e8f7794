-- ===== src/Staking/Epoch.antt =====
-- `get_epoch_index` and `get_epoch_begin_time` of pallets/stable-staking/src/lib.rs.
pub mod Bounds
use can_bus.Base.{ℕ, ◌-◌, leb, if◌then◌else◌, fit, checked_add, checked_mul, checked_div}
use can_bus.Frame.Error.{
  staking, arithmetic, overflow, division_by_zero, pool_not_existed,
  type_incompatible_or_arithmetic_error,
}
use can_bus.Frame.Call.{Call, pure, gets, ok_or, ◌>>=◌}
use can_bus.Staking.Info.{PoolSetting, end_time}
use can_bus.Staking.State.{Storage}

module _ {W : Type 0} where
  abbrev pub setting_of : ℕ → Call (Storage W) PoolSetting
  setting_of pool_id = do ok_or (← gets (λ s. s.pool_setting pool_id)) (staking pool_not_existed)

  unfoldable pub get_epoch_index : ℕ → ℕ → Call (Storage W) ℕ
  get_epoch_index pool_id time = do
    setting ← setting_of pool_id
    index ←
        ok_or (checked_div (time - setting.start_time) setting.epoch_range)
          (arithmetic division_by_zero)
    if leb setting.epoch index then pure setting.epoch else pure index

  -- The product is `epoch_range.checked_mul(&epoch_bn)` on u32.
  abbrev pub begin_time_within : PoolSetting → ℕ → Call (Storage W) ℕ
  begin_time_within setting epoch = do
    epoch_bn ← ok_or (fit 32 epoch) (staking type_incompatible_or_arithmetic_error)
    offset ← ok_or (checked_mul 32 setting.epoch_range epoch_bn) (arithmetic overflow)
    ok_or (checked_add 32 setting.start_time offset) (arithmetic overflow)

  unfoldable pub get_epoch_begin_time : ℕ → ℕ → Call (Storage W) ℕ
  unfolding end_time
  get_epoch_begin_time pool_id epoch = do
    setting ← setting_of pool_id
    if leb setting.epoch epoch
        then ok_or (end_time setting) (staking type_incompatible_or_arithmetic_error)
        else begin_time_within setting epoch
