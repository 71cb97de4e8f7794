-- ===== src/Staking/Info.antt =====
-- `StakingInfo` and `PoolSetting` of pallets/stable-staking/src/lib.rs, with their methods. A block
-- number is a u32 and a balance a u128, as in runtime/src/lib.rs, so `try_into` from either into
-- u128 never fails. A method that returns `None` has its object dropped by every caller, so the
-- changes that it made before are not part of the model.
pub mod Weights
use can_bus.Base.{
  ℕ, ◌+◌, ◌%◌, ◌^◌, max, Option, none, some, ltb, if◌then◌else◌, fit, checked_add, checked_mul,
  checked_sub, checked_div,
}
use can_bus.Base.Maybe.{◌>>=◌}

pub record StakingInfo : Type 0 where
  pub effective_time : ℕ
  pub amount : ℕ
  pub last_add_time : ℕ

-- A position of its own.
abbrev pub position : ℕ → ℕ → StakingInfo
position effective_time amount = record {
  effective_time = effective_time;
  amount = amount;
  last_add_time = effective_time;
}

-- `StakingInfo::add`
unfoldable pub add : StakingInfo → ℕ → ℕ → Option StakingInfo
add self effective_time amount = do
  new_amount ← checked_add 128 self.amount amount
  staked ← checked_mul 128 self.effective_time self.amount
  added ← checked_mul 128 effective_time amount
  weighted ← checked_add 128 staked added
  average ← checked_div weighted new_amount
  new_effective_time ← fit 32 average
  some (record {
    effective_time = new_effective_time;
    amount = new_amount;
    last_add_time = max self.last_add_time effective_time;
  })

-- `StakingInfo::weight_force`
unfoldable pub weight_force : StakingInfo → ℕ → Option ℕ
weight_force self n = do
  elapsed ← checked_sub n self.effective_time
  checked_mul 128 elapsed self.amount

-- `StakingInfo::weight`
unfoldable pub weight : StakingInfo → ℕ → Option ℕ
weight self n =
    if ltb n self.last_add_time
    then none
    else do elapsed ← checked_sub n self.effective_time; checked_mul 128 elapsed self.amount

-- `StakingInfo::claim`
unfoldable pub claim : StakingInfo → ℕ → Option (StakingInfo × ℕ)
claim self n = do claimed ← weight self n; some (record self { effective_time = n }, claimed)

-- `StakingInfo::claim_based_on_weight`. `oe + delta_e` is unchecked, so it wraps at 128 bits.
unfoldable pub claim_based_on_weight : StakingInfo → ℕ → Option (StakingInfo × ℕ)
claim_based_on_weight self claimed = do
  delta ← checked_div claimed self.amount
  new_effective_time ← fit 32 ((self.effective_time + delta) % 2 ^ 128)
  some (record self { effective_time = new_effective_time }, new_effective_time)

-- `StakingInfo::withdraw`
unfoldable pub withdraw : StakingInfo → ℕ → Option (StakingInfo × ℕ)
withdraw self v = do left ← checked_sub self.amount v; some (record self { amount = left }, left)

pub record PoolSetting : Type 0 where
  pub start_time : ℕ
  pub epoch : ℕ
  pub epoch_range : ℕ
  pub setup_time : ℕ
  pub pool_cap : ℕ

-- `PoolSetting::end_time`
unfoldable pub end_time : PoolSetting → Option ℕ
end_time self = do
  span ← checked_mul 128 self.epoch_range self.epoch
  result ← checked_add 128 self.start_time span
  fit 32 result
