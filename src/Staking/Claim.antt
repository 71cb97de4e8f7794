-- ===== src/Staking/Claim.antt =====
-- Claiming rewards and withdrawing a stake: `do_native_claim`, `do_stable_claim` and `do_withdraw`
-- of pallets/stable-staking/src/lib.rs.
pub mod Amounts
pub mod Rewards
pub mod Native
pub mod Withdrawals
use can_bus.Base.{ℕ, ◌+◌, ◌-◌, ◌%◌, ◌^◌, Option, none, some, leb, ◌==◌, if◌then◌else◌}
use can_bus.Frame.Error.{
  staking, arithmetic, underflow, cannot_claim_future, no_asset_id,
  type_incompatible_or_arithmetic_error,
}
use can_bus.Frame.Call.{Call, pure, gets, modify, ok_or, ensure, ◌>>=◌, ◌>>◌}
use can_bus.Frame.Storage.{insert, insert₂}
use can_bus.Staking.Info.{StakingInfo, claim, weight_force, claim_based_on_weight, withdraw}
use can_bus.Staking.State.{
  Storage, Config, deposit_event, on_world, native_reward_claimed, stable_reward_claimed, withdrawn,
}

-- What both claims compute from the pool's and the user's checkpoint: the new checkpoints and the
-- share of the reward pool.
pub record Claimed : Type 0 where
  pub pool : StakingInfo
  pub user : StakingInfo
  pub reward : ℕ

module _ (c : Config) where
  open c use {tokens, perquintill, stable_token_beneficiary, native_token_beneficiary}

  abbrev pub S : Type 0
  S = Storage tokens.World

  unfoldable pub claim_share : StakingInfo → StakingInfo → ℕ → ℕ → Call S Claimed
  claim_share checkpoint user_checkpoint until_time reward_pool = do
    (user, claimed) ←
        ok_or (claim user_checkpoint until_time) (staking type_incompatible_or_arithmetic_error)
    total ←
        ok_or (weight_force checkpoint until_time) (staking type_incompatible_or_arithmetic_error)
    (pool, _) ←
        ok_or (claim_based_on_weight checkpoint claimed)
          (staking type_incompatible_or_arithmetic_error)
    pure (record {
      pool = pool;
      user = user;
      reward = perquintill.mul (perquintill.from_rational claimed total) reward_pool;
    })

  -- From the transfer on.
  unfoldable pub pay_native : ℕ → ℕ → Claimed → Call S (Unit {0})
  pay_native who until_time share = do
    on_world (tokens.transfer none native_token_beneficiary who share.reward)
    modify (λ s. record s { native_checkpoint = some share.pool })
    modify (λ s. record s {
      user_native_checkpoint = insert who (some share.user) s.user_native_checkpoint;
    })
    deposit_event (native_reward_claimed who until_time share.reward)

  -- The body of the two `if let`.
  unfoldable pub native_claim_with :
      Option StakingInfo → Option StakingInfo → ℕ → ℕ → ℕ → Call S (Unit {0})
  unfolding claim_share pay_native
  native_claim_with (some ncp) (some user_ncp) who until_time reward_pool =
      claim_share ncp user_ncp until_time reward_pool >>= pay_native who until_time
  native_claim_with (some ncp) none who until_time reward_pool = pure tt
  native_claim_with none user_ncp who until_time reward_pool = pure tt

  unfoldable pub do_native_claim : ℕ → ℕ → Call S (Unit {0})
  do_native_claim who until_time = do
    current_block ← gets (λ s. s.block_number)
    ensure (leb until_time current_block) (staking cannot_claim_future)
    reward_pool ← gets (λ s. tokens.balance none native_token_beneficiary s.world)
    ncp ← gets (λ s. s.native_checkpoint)
    user_ncp ← gets (λ s. s.user_native_checkpoint who)
    native_claim_with ncp user_ncp who until_time reward_pool

  -- From the transfer on. `reward_pool - distributed_reward` is unchecked, so it wraps at 128 bits.
  unfoldable pub pay_stable : ℕ → ℕ → ℕ → ℕ → ℕ → Claimed → Call S (Unit {0})
  pay_stable who pool_id asset_id until_time reward_pool share = do
    on_world (tokens.transfer (some asset_id) stable_token_beneficiary who share.reward)
    modify (λ s. record s {
      pool_reward = insert pool_id ((reward_pool + 2 ^ 128 - share.reward) % 2 ^ 128) s.pool_reward;
    })
    modify (λ s. record s { pool_checkpoint = insert pool_id (some share.pool) s.pool_checkpoint })
    modify (λ s. record s {
      user_pool_checkpoint = insert₂ who pool_id (some share.user) s.user_pool_checkpoint;
    })
    deposit_event (stable_reward_claimed who pool_id until_time share.reward)

  unfoldable pub stable_claim_with :
      Option StakingInfo → Option StakingInfo → ℕ → ℕ → ℕ → ℕ → ℕ → Call S (Unit {0})
  unfolding claim_share pay_stable
  stable_claim_with (some scp) (some user_scp) who pool_id asset_id until_time reward_pool =
      claim_share scp user_scp until_time reward_pool
      >>= pay_stable who pool_id asset_id until_time reward_pool
  stable_claim_with (some scp) none who pool_id asset_id until_time reward_pool = pure tt
  stable_claim_with none user_scp who pool_id asset_id until_time reward_pool = pure tt

  unfoldable pub do_stable_claim : ℕ → ℕ → ℕ → Call S (Unit {0})
  do_stable_claim who pool_id until_time = do
    current_block ← gets (λ s. s.block_number)
    ensure (leb until_time current_block) (staking cannot_claim_future)
    reward_pool ← gets (λ s. s.pool_reward pool_id)
    asset_id ← ok_or (← gets (λ s. s.aiusd_asset_id)) (staking no_asset_id)
    scp ← gets (λ s. s.pool_checkpoint pool_id)
    user_scp ← gets (λ s. s.user_pool_checkpoint who pool_id)
    stable_claim_with scp user_scp who pool_id asset_id until_time reward_pool

  -- "Correct global native staking pool".
  unfoldable pub withdraw_native : Option StakingInfo → ℕ → Call S (Unit {0})
  unfolding withdraw
  withdraw_native none amount = pure tt
  withdraw_native (some ncp) amount = do
    (left, _) ← ok_or (withdraw ncp amount) (arithmetic underflow)
    modify (λ s. record s { native_checkpoint = some left })

  -- "Clean user native staking storage if zero, modify otherwise".
  unfoldable pub withdraw_user_native : Option StakingInfo → ℕ → ℕ → Call S (Unit {0})
  unfolding withdraw
  withdraw_user_native none who amount = pure tt
  withdraw_user_native (some user_ncp) who amount =
      if user_ncp.amount == amount
      then modify
          (λ s. record s { user_native_checkpoint = insert who none s.user_native_checkpoint })
      else do
        (left, _) ← ok_or (withdraw user_ncp amount) (arithmetic underflow)
        modify (λ s. record s {
          user_native_checkpoint = insert who (some left) s.user_native_checkpoint;
        })

  unfoldable pub withdraw_with :
      Option StakingInfo → Option StakingInfo → ℕ → ℕ → ℕ → Call S (Unit {0})
  unfolding withdraw withdraw_native withdraw_user_native
  withdraw_with (some scp) (some user_scp) who pool_id asset_id = do
    on_world (tokens.transfer (some asset_id) stable_token_beneficiary who user_scp.amount)
    (left, _) ← ok_or (withdraw scp user_scp.amount) (arithmetic underflow)
    modify (λ s. record s { pool_checkpoint = insert pool_id (some left) s.pool_checkpoint })
    ncp ← gets (λ s. s.native_checkpoint)
    withdraw_native ncp user_scp.amount
    modify
        (λ s. record s { user_pool_checkpoint = insert₂ who pool_id none s.user_pool_checkpoint })
    user_ncp ← gets (λ s. s.user_native_checkpoint who)
    withdraw_user_native user_ncp who user_scp.amount
    current_block ← gets (λ s. s.block_number)
    deposit_event (withdrawn who pool_id current_block user_scp.amount)
  withdraw_with (some scp) none who pool_id asset_id = pure tt
  withdraw_with none user_scp who pool_id asset_id = pure tt

  unfoldable pub do_withdraw : ℕ → ℕ → Call S (Unit {0})
  do_withdraw who pool_id = do
    asset_id ← ok_or (← gets (λ s. s.aiusd_asset_id)) (staking no_asset_id)
    scp ← gets (λ s. s.pool_checkpoint pool_id)
    user_scp ← gets (λ s. s.user_pool_checkpoint who pool_id)
    withdraw_with scp user_scp who pool_id asset_id
