-- ===== src/Tests/Staking.antt =====
-- Runs of pallets/stable-staking/src/lib.rs.
use can_bus.Base.{
  ℕ, ◌+◌, ◌*◌, ◌≤◌, ◌<◌, min, max, ◌≡◌, ◌≢◌, none, some, [], ◌∷◌, refl, arith, ◌==◌, if◌then◌else◌,
}
use can_bus.Frame.Call.{signed, ok}
use can_bus.Frame.Error.{arithmetic, underflow}
use can_bus.Staking.Info.{
  StakingInfo, PoolSetting, position, add, weight, weight_force, claim, claim_based_on_weight,
  end_time,
}
use can_bus.Staking.Info.Weights.{add-weight, claim_based_on_weight-weight}
use can_bus.Staking.State.{Storage, Config, StakingInfoWithOwner, stable_reward_claimed}
use can_bus.Staking.Epoch.{get_epoch_index, get_epoch_begin_time}
use can_bus.Staking.Pending.{mix, do_stable_add, solve_one, solve_from, solve_pending, begin_block}
use can_bus.Staking.Pending.Queue.{later}
use can_bus.Staking.Pending.Solve.{Settles, solve_pending-Settles, begin_block_loses_queue}
use can_bus.Staking.Claim.{Claimed, do_stable_claim, stable_claim_with}
use can_bus.Staking.Claim.Rewards.{Shares, do_stable_claim_pays}
use can_bus.Staking.Calls.{effective_time_of, dispatch, stakes}
use can_bus.Staking.Calls.Timing.{effective_time_of-bounds}
use can_bus.Staking.Calls.Soundness.{IsSound}
use can_bus.Staking.Calls.Invariant.{dispatch-IsSound}
use can_bus.Tests.Data.{Books, tokens, fraction, fraction-PerquintillLaws, books}

abbrev pub config : Config
config = record {
  tokens = tokens;
  perquintill = fraction;
  stable_token_beneficiary = 90;
  native_token_beneficiary = 91;
  pool_string_limit = 300;
}

-- Ten epochs of fifty blocks from block 100 on.
abbrev pub setting : PoolSetting
setting = record {
  start_time = 100;
  epoch = 10;
  epoch_range = 50;
  setup_time = 20;
  pool_cap = 1000;
}

abbrev pub stake_of : ℕ → ℕ → StakingInfo
stake_of time amount = record { effective_time = time; amount = amount; last_add_time = time }

-- Pool 1 at block 120.
abbrev pub open_pool : Storage Books
open_pool = record {
  block_number = 120;
  pool_metadata = λ p. none;
  pool_setting = λ p. if p == 1 then some setting else none;
  pool_reward = λ p. 0;
  pool_epoch_reward = λ p e. none;
  pool_checkpoint = λ p. none;
  user_pool_checkpoint = λ a p. none;
  native_checkpoint = none;
  user_native_checkpoint = λ a. none;
  pending_setup = [];
  pending_amount = λ p. 0;
  aiusd_asset_id = some 9;
  world = books;
  events = [];
}

dispatch-IsSound_example : IsSound config (dispatch config (signed 3) (stakes 1 60) open_pool).1
dispatch-IsSound_example = dispatch-IsSound config (signed 3) (stakes 1 60) open_pool (record {
  sorted = tt;
  pending = λ p. refl;
  capped = λ p st e. omega arith;
  unset = λ p e. refl;
})

abbrev order : ℕ → ℕ → StakingInfoWithOwner
order time amount = record { who = 3; pool_id = 1; staking_info = position time amount }

-- Two stakes wait, one for block 150 and one for block 200.
abbrev pub waiting : Storage Books
waiting = record open_pool {
  block_number = 160;
  pending_setup = order 150 60 ∷ order 200 40 ∷ [];
  pending_amount = λ p. if p == 1 then 100 else 0;
}

pub waiting-IsSound : IsSound config waiting
waiting-IsSound = record {
  sorted = ground arith;
  pending = λ p. ground arith;
  capped = λ p st e. ground arith;
  unset = λ p e. ground arith;
}

abbrev settled : Storage Books
settled = (solve_pending 160 waiting).1

solve_pending-Settles_example :
    (settled.pending_setup ≡ later 160 waiting.pending_setup)
    × Settles waiting.pending_setup waiting settled.pending_setup settled
unfolding solve_pending solve_from solve_one do_stable_add mix
solve_pending-Settles_example = solve_pending-Settles 160 waiting settled (ground arith) refl

-- A queue that the pending amount does not cover.
abbrev uncovered : Storage Books
uncovered = record waiting { pending_amount = λ p. 0 }

begin_block_loses_queue_example : (begin_block 160 uncovered).pending_setup ≡ []
unfolding solve_pending solve_from solve_one do_stable_add mix
begin_block_loses_queue_example =
    begin_block_loses_queue 160 (order 150 60) (order 200 40 ∷ []) uncovered
      (solve_pending 160 uncovered).1 (arithmetic underflow) refl (ground arith) refl

add-weight_example :
    (133 ≡ 100 + 33)
    × (min 10 20 ≤ 12)
    × (12 ≤ max 10 20)
    × (2000 + 330 ≤ 2394)
    × (2394 < 2000 + 330 + 133)
unfolding add weight_force
add-weight_example =
    add-weight (stake_of 10 100) (record { effective_time = 12; amount = 133; last_add_time = 20 })
      20 33 30 2000 330 2394 refl refl refl refl

claim_based_on_weight-weight_example :
    (◌≡◌ {A = ℕ} 100 100)
    × (10 ≤ 15)
    × (15 ≤ 30)
    × ((r : ℕ) × (weight_force (record (stake_of 10 100) { effective_time = 15 }) 30 ≡ some r)
        × (2000 ≤ r + 550)
        × (r + 550 < 2000 + 100))
unfolding claim_based_on_weight weight_force
claim_based_on_weight-weight_example =
    claim_based_on_weight-weight (stake_of 10 100)
      (record (stake_of 10 100) { effective_time = 15 }) 30 2000 550 15 (ground arith) refl
      (ground arith) refl

-- One user with the whole of a pool, and a reward of 500.
abbrev rewarded : Storage Books
rewarded = record open_pool {
  pool_reward = λ p. if p == 1 then 500 else 0;
  pool_checkpoint = λ p. if p == 1 then some (stake_of 20 100) else none;
  user_pool_checkpoint =
      λ a p. if a == 3 then (if p == 1 then some (stake_of 20 100) else none) else none;
}

abbrev paid : Storage Books
paid = (do_stable_claim config 3 1 50 rewarded).1

do_stable_claim_pays_example :
    (asset : ℕ) × (r : Claimed) × Shares config fraction-PerquintillLaws
      (stake_of 20 100)
      (stake_of 20 100)
      50
      500
      r
    × (50 ≤ 120)
    × (some 9 ≡ some asset)
    × (tokens.transfer (some asset) 90 3 r.reward books ≡ (ok tt, paid.world))
    × (paid.pool_reward 1 + r.reward ≡ 500)
    × ((j : ℕ) → j ≢ 1 → paid.pool_reward j ≡ rewarded.pool_reward j)
    × (paid.pool_checkpoint 1 ≡ some r.pool)
    × (paid.user_pool_checkpoint 3 1 ≡ some r.user)
    × (paid.events ≡ stable_reward_claimed 3 1 50 r.reward ∷ [])
unfolding do_stable_claim stable_claim_with claim weight weight_force claim_based_on_weight
do_stable_claim_pays_example =
    do_stable_claim_pays config fraction-PerquintillLaws 3 1 50 (stake_of 20 100) (stake_of 20 100)
      rewarded paid refl refl (ground arith) refl

effective_time_of-bounds_example :
    (open_pool ≡ open_pool)
    × (120 + 20 < 150)
    × (150 ≤ 120 + 20 + 50)
    × ((k : ℕ) × (k < 10) × (150 ≡ 100 + 50 * k))
unfolding effective_time_of get_epoch_index get_epoch_begin_time end_time
effective_time_of-bounds_example =
    effective_time_of-bounds config 1 120 150 600 setting open_pool open_pool refl (ground arith)
      refl refl (ground arith)
