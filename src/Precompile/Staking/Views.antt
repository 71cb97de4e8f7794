-- ===== src/Precompile/Staking/Views.antt =====
-- The methods that read the storage of the pallet.
pub mod Reads
use can_bus.Base.{ℕ, Option, none, some}
use can_bus.Staking.Info.{StakingInfo, PoolSetting}
use can_bus.Staking.State.{Storage, Config}
use can_bus.Precompile.Host.{
  Host, Evm, value_is_too_large, epoch_index_type, not_existing, pure, gets, ok_or, try_into, ◌>>=◌,
  ◌>>◌,
}
use can_bus.Precompile.Staking.Calls.{into_pool_id}

pub record PrecompilePoolSetting : Type 0 where
  pub start_time : ℕ
  pub epoch : ℕ
  pub epoch_range : ℕ
  pub setup_time : ℕ
  pub pool_cap : ℕ

pub record PrecompileStakingInfo : Type 0 where
  pub effective_time : ℕ
  pub amount : ℕ
  pub last_add_time : ℕ

-- The literal at the end of each method that reads a checkpoint.
abbrev pub staking_info : StakingInfo → PrecompileStakingInfo
staking_info info = record {
  effective_time = info.effective_time;
  amount = info.amount;
  last_add_time = info.last_add_time;
}

-- As in the source, `epoch` is the start time.
abbrev pub pool_setting : PoolSetting → PrecompilePoolSetting
pool_setting setting = record {
  start_time = setting.start_time;
  epoch = setting.start_time;
  epoch_range = setting.epoch_range;
  setup_time = setting.setup_time;
  pool_cap = setting.pool_cap;
}

-- `unwrap_or(Zero::zero())`
abbrev pub or_zero : Option ℕ → ℕ
or_zero none = 0
or_zero (some n) = n

module _ {W : Type 0} (host : Host (Storage W)) where
  open host use {Handle, into_account_id}

  abbrev pub read : {A : Type 0} → (Storage W → A) → Evm Handle A
  read f = gets (λ h. f (host.view h).world)

  abbrev pub existing_info : Option StakingInfo → Evm Handle PrecompileStakingInfo
  existing_info stored = do info ← ok_or stored not_existing; pure (staking_info info)

  unfoldable pub staking_pool_setting : ℕ → Evm Handle PrecompilePoolSetting
  staking_pool_setting pool = do
    host.record_db_read 68
    pool_id ← into_pool_id pool
    stored ← read (λ s. s.pool_setting pool_id)
    setting ← ok_or stored not_existing
    pure (pool_setting setting)

  unfoldable pub stable_staking_pool_reward : ℕ → Evm Handle ℕ
  stable_staking_pool_reward pool = do
    host.record_db_read 40
    pool_id ← into_pool_id pool
    read (λ s. s.pool_reward pool_id)

  unfoldable pub stable_staking_pool_epoch_reward : ℕ → ℕ → Evm Handle ℕ
  stable_staking_pool_epoch_reward pool epoch = do
    host.record_db_read 80
    pool_id ← into_pool_id pool
    converted ← try_into 128 epoch (value_is_too_large epoch_index_type)
    read (λ s. or_zero (s.pool_epoch_reward pool_id converted))

  unfoldable pub stable_staking_pool_checkpoint : ℕ → Evm Handle PrecompileStakingInfo
  stable_staking_pool_checkpoint pool = do
    host.record_db_read 48
    pool_id ← into_pool_id pool
    stored ← read (λ s. s.pool_checkpoint pool_id)
    existing_info stored

  unfoldable pub user_stable_staking_pool_checkpoint_evm : ℕ → ℕ → Evm Handle PrecompileStakingInfo
  user_stable_staking_pool_checkpoint_evm user pool = do
    host.record_db_read 88
    pool_id ← into_pool_id pool
    stored ← read (λ s. s.user_pool_checkpoint (into_account_id user) pool_id)
    existing_info stored

  -- `user` is the account itself.
  unfoldable pub user_stable_staking_pool_checkpoint_sub : ℕ → ℕ → Evm Handle PrecompileStakingInfo
  user_stable_staking_pool_checkpoint_sub user pool = do
    host.record_db_read 48
    pool_id ← into_pool_id pool
    stored ← read (λ s. s.user_pool_checkpoint user pool_id)
    existing_info stored

  unfoldable pub native_checkpoint : Evm Handle PrecompileStakingInfo
  native_checkpoint = do
    host.record_db_read 24
    stored ← read (λ s. s.native_checkpoint)
    existing_info stored

  unfoldable pub user_native_checkpoint_evm : ℕ → Evm Handle PrecompileStakingInfo
  user_native_checkpoint_evm user = do
    host.record_db_read 64
    stored ← read (λ s. s.user_native_checkpoint (into_account_id user))
    existing_info stored

  unfoldable pub user_native_checkpoint_sub : ℕ → Evm Handle PrecompileStakingInfo
  user_native_checkpoint_sub user = do
    host.record_db_read 64
    stored ← read (λ s. s.user_native_checkpoint user)
    existing_info stored

  unfoldable pub pending_amount : ℕ → Evm Handle ℕ
  pending_amount pool = do
    host.record_db_read 40
    pool_id ← into_pool_id pool
    read (λ s. s.pending_amount pool_id)
