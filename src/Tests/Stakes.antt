-- ===== src/Tests/Stakes.antt =====
-- Runs of what moves stakes in pallets/stable-staking/src/lib.rs.
use can_bus.Base.{ℕ, ◌+◌, ◌≤◌, ◌≡◌, ◌≢◌, none, some, [], ◌∷◌, refl, arith, ◌==◌, if◌then◌else◌}
use can_bus.Frame.Call.{signed, ok}
use can_bus.Staking.Info.{claim, weight, weight_force, claim_based_on_weight, withdraw}
use can_bus.Staking.State.{Storage, native_reward_claimed, withdrawn}
use can_bus.Staking.Pending.Queue.{later}
use can_bus.Staking.Pending.Solve.{amount_of, staked}
use can_bus.Staking.Claim.{
  Claimed, do_native_claim, native_claim_with, do_withdraw, withdraw_with, withdraw_native,
  withdraw_user_native,
}
use can_bus.Staking.Claim.Rewards.{Shares}
use can_bus.Staking.Claim.Native.{do_native_claim_pays}
use can_bus.Staking.Claim.Withdrawals.{do_withdraw_returns}
use can_bus.Staking.Calls.{dispatch, on_initialize, stakes}
use can_bus.Staking.Calls.Soundness.{IsSound}
use can_bus.Staking.Calls.Hook.{on_initialize_settles}
use can_bus.Staking.Ledger.Refines.{Steps, dispatch-Steps}
use can_bus.Tests.Data.{Books, tokens, fraction-PerquintillLaws, books}
use can_bus.Tests.Staking.{config, open_pool, stake_of, waiting, waiting-IsSound}

dispatch-Steps_example :
    Steps config
      (signed 3)
      (stakes 1 60)
      open_pool
      (dispatch config (signed 3) (stakes 1 60) open_pool)
dispatch-Steps_example = dispatch-Steps config (signed 3) (stakes 1 60) open_pool tt (λ a p e. refl)

on_initialize_settles_example :
    IsSound config (on_initialize 160 waiting)
    × ((on_initialize 160 waiting).pending_setup ≡ later 160 waiting.pending_setup)
on_initialize_settles_example =
    on_initialize_settles config 160 waiting (omega arith) waiting-IsSound (record {
      positive = ground arith;
      pending = λ p. ground arith;
      pool = λ p. tt;
      user = λ a p. tt;
      pool_room = λ p. ground arith;
      user_room = λ a p. ground arith;
    })

-- User 3 holds 60 of the 100 in pool 1, which are all.
abbrev pub held : Storage Books
held = record open_pool {
  pool_checkpoint = λ p. if p == 1 then some (stake_of 20 100) else none;
  user_pool_checkpoint =
      λ a p. if a == 3 then (if p == 1 then some (stake_of 20 60) else none) else none;
  native_checkpoint = some (stake_of 20 100);
  user_native_checkpoint = λ a. if a == 3 then some (stake_of 20 60) else none;
}

abbrev left : Storage Books
left = (do_withdraw config 3 1 held).1

do_withdraw_returns_example :
    (asset : ℕ) × (some 9 ≡ some asset)
    × (tokens.transfer (some asset) 90 3 60 books ≡ (ok tt, left.world))
    × (left.user_pool_checkpoint 3 1 ≡ none)
    × (staked 1 left + 60 ≡ 100)
    × (amount_of left.native_checkpoint + 60 ≡ 100)
    × (amount_of (left.user_native_checkpoint 3) + 60 ≡ 60)
    × ((q : ℕ) → q ≢ 1 → left.pool_checkpoint q ≡ held.pool_checkpoint q)
    × (left.events ≡ withdrawn 3 1 120 60 ∷ [])
unfolding do_withdraw withdraw_with withdraw_native withdraw_user_native withdraw
do_withdraw_returns_example =
    do_withdraw_returns config 3 1 (stake_of 20 100) (stake_of 20 60) (stake_of 20 100)
      (stake_of 20 60) held left refl refl refl refl refl

abbrev rewarded : Storage Books
rewarded = (do_native_claim config 3 50 held).1

do_native_claim_pays_example :
    (r : Claimed) × Shares config fraction-PerquintillLaws
      (stake_of 20 100)
      (stake_of 20 60)
      50
      1000
      r
    × (50 ≤ 120)
    × (tokens.transfer none 91 3 r.reward books ≡ (ok tt, rewarded.world))
    × (rewarded.native_checkpoint ≡ some r.pool)
    × (rewarded.user_native_checkpoint 3 ≡ some r.user)
    × (rewarded.events ≡ native_reward_claimed 3 50 r.reward ∷ [])
unfolding do_native_claim native_claim_with claim weight weight_force claim_based_on_weight
do_native_claim_pays_example =
    do_native_claim_pays config fraction-PerquintillLaws 3 50 (stake_of 20 100) (stake_of 20 60)
      held rewarded refl refl refl
