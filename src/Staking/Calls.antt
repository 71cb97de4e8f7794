-- ===== src/Staking/Calls.antt =====
-- The dispatchable calls and the hook of pallets/stable-staking/src/lib.rs.
pub mod Timing
pub mod Admission
pub mod Soundness
pub mod Keeps
pub mod Places
pub mod Rewarding
pub mod Invariant
pub mod Hook
use can_bus.Base.{
  ℕ, Option, none, some, List, leb, ltb, is_none, is_some, length, checked_add, checked_sub,
}
use can_bus.Frame.Error.{
  staking, arithmetic, overflow, underflow, reward_already_existed, pool_already_started,
  pool_already_ended, pool_already_existed, pool_cap_limit, pool_not_ended, pool_not_existed,
  pool_not_started, bad_metadata, epoch_already_ended, epoch_not_existed, no_asset_id,
  type_incompatible_or_arithmetic_error,
}
use can_bus.Frame.Call.{
  Call, Origin, pure, gets, modify, ok_or, ensure, ensure_root, ensure_signed, transactional, ◌>>=◌,
  ◌>>◌,
}
use can_bus.Frame.Storage.{insert, insert₂}
use can_bus.Staking.Info.{StakingInfo, PoolSetting, position, end_time}
use can_bus.Staking.State.{
  Storage, Config, deposit_event, on_world, staking_pool_created, metadata_set, metadata_removed,
  reward_updated, staked, aiusd_registed,
}
use can_bus.Staking.Epoch.{setting_of, get_epoch_index, get_epoch_begin_time}
use can_bus.Staking.Pending.{do_native_add, solve_pending, begin_block, enqueue}
use can_bus.Staking.Claim.{do_native_claim, do_stable_claim, do_withdraw}

module _ (c : Config) where
  open c use {tokens, stable_token_beneficiary, pool_string_limit}

  abbrev pub S : Type 0
  S = Storage tokens.World

  unfoldable pub create_staking_pool : Origin → ℕ → PoolSetting → Call S (Unit {0})
  create_staking_pool origin pool_id setting = do
    ensure_root origin
    now ← gets (λ s. s.block_number)
    ensure (leb now setting.start_time) (staking pool_already_started)
    existing ← gets (λ s. s.pool_setting pool_id)
    ensure (is_none existing) (staking pool_already_existed)
    modify (λ s. record s { pool_setting = insert pool_id (some setting) s.pool_setting })
    deposit_event (staking_pool_created pool_id setting)

  -- With no name the metadata is removed.
  unfoldable pub set_metadata : ℕ → Option (List ℕ) → List ℕ → Call S (Unit {0})
  set_metadata pool_id (some name) description = do
    ensure (leb (length name) pool_string_limit) (staking bad_metadata)
    ensure (leb (length description) pool_string_limit) (staking bad_metadata)
    modify (λ s. record s {
      pool_metadata =
          insert pool_id (some (record { name = name; description = description })) s.pool_metadata;
    })
    deposit_event (metadata_set pool_id name description)
  set_metadata pool_id none description = do
    modify (λ s. record s { pool_metadata = insert pool_id none s.pool_metadata })
    deposit_event (metadata_removed pool_id)

  unfoldable pub update_metadata : Origin → ℕ → Option (List ℕ) → List ℕ → Call S (Unit {0})
  unfolding set_metadata
  update_metadata origin pool_id name description = do
    ensure_root origin
    existing ← gets (λ s. s.pool_setting pool_id)
    ensure (is_some existing) (staking pool_not_existed)
    set_metadata pool_id name description

  unfoldable pub update_reward : Origin → ℕ → ℕ → ℕ → Call S (Unit {0})
  update_reward origin pool_id epoch reward = do
    ensure_root origin
    current_block ← gets (λ s. s.block_number)
    current_epoch ← get_epoch_index pool_id current_block
    setting ← setting_of pool_id
    ensure (leb epoch setting.epoch) (staking epoch_not_existed)
    ensure (leb current_epoch epoch) (staking epoch_already_ended)
    asset_id ← ok_or (← gets (λ s. s.aiusd_asset_id)) (staking no_asset_id)
    actual_reward ← on_world (tokens.mint_into (some asset_id) stable_token_beneficiary reward)
    maybe_reward ← gets (λ s. s.pool_epoch_reward pool_id epoch)
    ensure (is_none maybe_reward) (staking reward_already_existed)
    modify (λ s. record s {
      pool_epoch_reward = insert₂ pool_id epoch (some actual_reward) s.pool_epoch_reward;
    })
    deposit_event (reward_updated pool_id epoch actual_reward)
    old ← gets (λ s. s.pool_reward pool_id)
    new ← ok_or (checked_add 128 old actual_reward) (arithmetic overflow)
    modify (λ s. record s { pool_reward = insert pool_id new s.pool_reward })

  -- "Pool Maximum Cap check".
  unfoldable pub check_cap : PoolSetting → Option StakingInfo → ℕ → ℕ → Call S (Unit {0})
  check_cap setting (some scp) pending amount = do
    unstaked ← ok_or (checked_sub setting.pool_cap scp.amount) (arithmetic underflow)
    available ← ok_or (checked_sub unstaked pending) (arithmetic underflow)
    ensure (leb amount available) (staking pool_cap_limit)
  check_cap setting none pending amount = do
    available ← ok_or (checked_sub setting.pool_cap pending) (arithmetic underflow)
    ensure (leb amount available) (staking pool_cap_limit)

  -- The beginning of the first epoch that starts after the setup time.
  unfoldable pub effective_time_of : ℕ → PoolSetting → ℕ → Call S ℕ
  effective_time_of pool_id setting current_block = do
    ready ← ok_or (checked_add 32 current_block setting.setup_time) (arithmetic overflow)
    index ← get_epoch_index pool_id ready
    effective_epoch ← ok_or (checked_add 128 index 1) (arithmetic overflow)
    get_epoch_begin_time pool_id effective_epoch

  -- `stake` up to its last test: the effective time, and the pending amount that it has read.
  unfoldable pub admit : ℕ → ℕ → ℕ → Call S (ℕ × ℕ)
  admit pool_id amount current_block = do
    setting ← setting_of pool_id
    ending ← ok_or (end_time setting) (staking type_incompatible_or_arithmetic_error)
    ensure (ltb setting.start_time current_block) (staking pool_not_started)
    pending ← gets (λ s. s.pending_amount pool_id)
    scp ← gets (λ s. s.pool_checkpoint pool_id)
    check_cap setting scp pending amount
    effective_time ← effective_time_of pool_id setting current_block
    ensure (ltb effective_time ending) (staking pool_already_ended)
    pure (effective_time, pending)

  -- `stake` from its first write on.
  unfoldable pub place : ℕ → ℕ → ℕ → ℕ → ℕ × ℕ → Call S (Unit {0})
  place source pool_id amount current_block (effective_time, pending) = do
    modify (λ s. record s {
      pending_setup =
          enqueue
            (record {
              who = source;
              pool_id = pool_id;
              staking_info = position effective_time amount;
            })
            s.pending_setup;
    })
    new_pending ← ok_or (checked_add 128 pending amount) (arithmetic overflow)
    modify (λ s. record s { pending_amount = insert pool_id new_pending s.pending_amount })
    do_native_add source amount current_block
    asset_id ← ok_or (← gets (λ s. s.aiusd_asset_id)) (staking no_asset_id)
    on_world (tokens.transfer (some asset_id) source stable_token_beneficiary amount)
    deposit_event (staked source pool_id effective_time amount)

  unfoldable pub stake : Origin → ℕ → ℕ → Call S (Unit {0})
  unfolding admit place
  stake origin pool_id amount = do
    source ← ensure_signed origin
    current_block ← gets (λ s. s.block_number)
    admitted ← admit pool_id amount current_block
    place source pool_id amount current_block admitted

  unfoldable pub solve_pending_stake : Origin → Call S (Unit {0})
  solve_pending_stake origin = do
    ensure_signed origin
    current_block ← gets (λ s. s.block_number)
    solve_pending current_block

  unfoldable pub claim_native : Origin → ℕ → Call S (Unit {0})
  claim_native origin until_time = do
    source ← ensure_signed origin
    do_native_claim c source until_time

  unfoldable pub claim_stable : Origin → ℕ → ℕ → Call S (Unit {0})
  claim_stable origin pool_id until_time = do
    source ← ensure_signed origin
    do_stable_claim c source pool_id until_time

  unfoldable pub withdraw : Origin → ℕ → Call S (Unit {0})
  withdraw origin pool_id = do
    source ← ensure_signed origin
    setting ← setting_of pool_id
    current_block ← gets (λ s. s.block_number)
    ending ← ok_or (end_time setting) (staking type_incompatible_or_arithmetic_error)
    ensure (ltb ending current_block) (staking pool_not_ended)
    do_native_claim c source current_block
    do_stable_claim c source pool_id current_block
    do_withdraw c source pool_id

  unfoldable pub regist_aiusd : Origin → ℕ → Call S (Unit {0})
  regist_aiusd origin asset_id = do
    ensure_root origin
    modify (λ s. record s { aiusd_asset_id = some asset_id })
    deposit_event (aiusd_registed asset_id)

-- The calls of the pallet, with their arguments.
pub data Request : Type 0 where
  create_staking_pools : ℕ → PoolSetting → Request
  update_metadatas : ℕ → Option (List ℕ) → List ℕ → Request
  update_rewards : ℕ → ℕ → ℕ → Request
  stakes : ℕ → ℕ → Request
  solve_pending_stakes : Request
  claim_natives : ℕ → Request
  claim_stables : ℕ → ℕ → Request
  withdraws : ℕ → Request
  regist_aiusds : ℕ → Request

module _ (c : Config) where
  abbrev pub call_of : Origin → Request → Call (Storage c.tokens.World) (Unit {0})
  call_of o (create_staking_pools p setting) = create_staking_pool c o p setting
  call_of o (update_metadatas p name description) = update_metadata c o p name description
  call_of o (update_rewards p epoch reward) = update_reward c o p epoch reward
  call_of o (stakes p amount) = stake c o p amount
  call_of o solve_pending_stakes = solve_pending_stake c o
  call_of o (claim_natives until_time) = claim_native c o until_time
  call_of o (claim_stables p until_time) = claim_stable c o p until_time
  call_of o (withdraws p) = withdraw c o p
  call_of o (regist_aiusds asset_id) = regist_aiusd c o asset_id

  -- A dispatched call is undone as a whole if it fails.
  unfoldable pub dispatch : Origin → Request → Call (Storage c.tokens.World) (Unit {0})
  dispatch o r = transactional (call_of o r)

-- `on_initialize`, when frame_system has entered block `n`.
unfoldable pub on_initialize : {W : Type 0} → ℕ → Storage W → Storage W
on_initialize n s = begin_block n (record s { block_number = n })
