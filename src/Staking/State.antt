-- ===== src/Staking/State.antt =====
-- The storage, the events and the configuration of pallets/stable-staking/src/lib.rs. Accounts,
-- pools, assets and epochs are numbers. `block_number` is frame_system's, and `world` holds the
-- balances of the token pallets.
use can_bus.Base.{ℕ, Option, List, ◌∷◌}
use can_bus.Frame.Call.{Call, modify}
use can_bus.Frame.Storage.{StorageMap, StorageDoubleMap}
use can_bus.Frame.Tokens.{Tokens}
use can_bus.Frame.Perquintill.{Perquintill}
use can_bus.Staking.Info.{StakingInfo, PoolSetting}

pub record StakingInfoWithOwner : Type 0 where
  pub who : ℕ
  pub pool_id : ℕ
  pub staking_info : StakingInfo

pub record PoolMetadata : Type 0 where
  pub name : List ℕ
  pub description : List ℕ

-- The fields of each event in the source's order.
pub data Event : Type 0 where
  staking_pool_created : ℕ → PoolSetting → Event
  metadata_set : ℕ → List ℕ → List ℕ → Event
  metadata_removed : ℕ → Event
  reward_updated : ℕ → ℕ → ℕ → Event
  pending_staking_solved : ℕ → ℕ → ℕ → ℕ → Event
  staked : ℕ → ℕ → ℕ → ℕ → Event
  native_reward_claimed : ℕ → ℕ → ℕ → Event
  stable_reward_claimed : ℕ → ℕ → ℕ → ℕ → Event
  withdrawn : ℕ → ℕ → ℕ → ℕ → Event
  aiusd_registed : ℕ → Event

-- `Config`: what the pallet takes from the runtime.
pub record Config : Type 1 where
  pub tokens : Tokens
  pub perquintill : Perquintill
  -- `stable_token_beneficiary_account()` and `native_token_beneficiary_account()`
  pub stable_token_beneficiary : ℕ
  pub native_token_beneficiary : ℕ
  pub pool_string_limit : ℕ

pub record Storage (W : Type 0) : Type 0 where
  pub block_number : ℕ
  pub pool_metadata : StorageMap (Option PoolMetadata)
  pub pool_setting : StorageMap (Option PoolSetting)
  pub pool_reward : StorageMap ℕ
  pub pool_epoch_reward : StorageDoubleMap (Option ℕ)
  pub pool_checkpoint : StorageMap (Option StakingInfo)
  pub user_pool_checkpoint : StorageDoubleMap (Option StakingInfo)
  pub native_checkpoint : Option StakingInfo
  pub user_native_checkpoint : StorageMap (Option StakingInfo)
  pub pending_setup : List StakingInfoWithOwner
  pub pending_amount : StorageMap ℕ
  pub aiusd_asset_id : Option ℕ
  pub world : W
  -- The newest event stands first.
  pub events : List Event

module _ {W : Type 0} where
  abbrev pub deposit_event : Event → Call (Storage W) (Unit {0})
  deposit_event e = modify (λ s. record s { events = e ∷ s.events })

  -- A call of a token pallet.
  abbrev pub on_world : {A : Type 0} → Call W A → Call (Storage W) A
  on_world m s = let (r, w) = m s.world in (r, record s { world = w })
