-- ===== src/Tests/Solvency.antt =====
-- Runs of the calls of pallets/stable-staking/src/lib.rs, with what the pallet then owes and holds.
use can_bus.Base.{
  some, ℕ, ◌+◌, ◌≤◌, ◌≡◌, ◌≢◌, ◌==◌, refl, List, IsDistinct, sum_of, Covers-shift, Covers-zero,
  Bool-cases, inl, inr, arith,
}
use can_bus.Frame.Call.{signed, root, ok}
use can_bus.Staking.State.{Storage}
use can_bus.Staking.Epoch.{get_epoch_index, get_epoch_begin_time}
use can_bus.Staking.Pending.Solve.{staked, user_staked}
use can_bus.Staking.Info.{end_time, add}
use can_bus.Staking.Pending.{do_native_add, mix, enqueue, sort, sort_insert}
use can_bus.Staking.Calls.{
  dispatch, stake, admit, place, effective_time_of, check_cap, update_reward, update_rewards,
  stakes, claim_stables,
}
use can_bus.Staking.Solvency.{owed, pot, IsSolvent}
use can_bus.Staking.Solvency.Invariant.{dispatch-IsSolvent}
use can_bus.Staking.Solvency.Backing.{IsBacked, dispatch-IsBacked}
use can_bus.Staking.Claim.{do_withdraw}
use can_bus.Staking.Solvency.Natives.{IsMatched, committed, native_of}
use can_bus.Staking.Solvency.Matching.{dispatch-IsMatched}
use can_bus.Staking.Solvency.Withdrawing.{stake_is_withdrawable}
use can_bus.Staking.Solvency.History.{IsFunded, Reaches, here, next, calls, all_is_held}
use can_bus.Tests.Data.{
  tokens, Books, fraction-PerquintillLaws, tokens-TokenLaws, tokens-TransferLaws,
}
use can_bus.Tests.Staking.{stake_of, config}
use can_bus.Tests.Stakes.{held}

three : ◌≢◌ {A = ℕ} 3 90
three = λ e. ground arith

four : ◌≢◌ {A = ℕ} 4 90
four = λ e. ground arith

held-IsSolvent : IsSolvent config held
held-IsSolvent = record {
  covered =
      Covers-shift (λ q. 0) (λ q. owed q held) 1 0 100 (ground arith) (λ q ne. ground arith) 0 1000
        (omega arith) (Covers-zero (λ q. 0) 0 (λ q. refl));
  bounded = λ p. ground arith;
}

held-IsBacked : IsBacked held
held-IsBacked = record {
  backed = λ p. elim (Bool-cases (p == 1)) [
    | inl e ↦
        Covers-shift (λ a. 0) (λ a. user_staked a p held) 3 0 60 (ground arith)
          (λ a ne. ground arith) 0 (staked p held) (ground arith)
          (Covers-zero (λ a. 0) 0 (λ a. refl))
    | inr e ↦ Covers-zero (λ a. user_staked a p held) (staked p held) (λ a. ground arith)
  ];
  covered = λ a p e. ground arith;
}

held-IsMatched : IsMatched held
held-IsMatched = record {
  by_user = λ a. elim (Bool-cases (a == 3)) [
    | inl e ↦
        Covers-shift (λ p. 0) (λ p. committed a p held) 1 0 60 (ground arith) (λ p ne. ground arith)
          0 (native_of a held) (ground arith) (Covers-zero (λ p. 0) 0 (λ p. refl))
    | inr e ↦ Covers-zero (λ p. committed a p held) (native_of a held) (λ p. ground arith)
  ];
  by_all =
      Covers-shift (λ a. 0) (λ a. native_of a held) 3 0 60 (ground arith) (λ a ne. ground arith) 0
        100 (omega arith) (Covers-zero (λ a. 0) 0 (λ a. refl));
}

held-IsFunded : IsFunded config held
held-IsFunded = record {
  solvent = held-IsSolvent;
  backed = held-IsBacked;
  matched = held-IsMatched;
}

dispatch-IsSolvent_example :
    IsSolvent config (dispatch config (signed 3) (claim_stables 1 110) held).1
dispatch-IsSolvent_example =
    dispatch-IsSolvent config fraction-PerquintillLaws tokens-TokenLaws tokens-TransferLaws
      (signed 3) (claim_stables 1 110) held three tt held-IsSolvent

dispatch-IsBacked_example : IsBacked (dispatch config (signed 3) (stakes 1 60) held).1
dispatch-IsBacked_example = dispatch-IsBacked config (signed 3) (stakes 1 60) held held-IsBacked

-- User 4 stakes, root rewards epoch 3, and user 3 claims.
abbrev staked_more : Storage Books
staked_more = (dispatch config (signed 4) (stakes 1 60) held).1

abbrev rewarded : Storage Books
rewarded = (dispatch config root (update_rewards 1 3 50) staked_more).1

abbrev claimed : Storage Books
claimed = (dispatch config (signed 3) (claim_stables 1 110) rewarded).1

abbrev path : Reaches config held claimed
path =
    next
      (next (next here (calls (signed 4) (stakes 1 60) held four tt))
        (calls root (update_rewards 1 3 50) staked_more tt tt))
      (calls (signed 3) (claim_stables 1 110) rewarded three tt)

all_is_held_example :
    ((pools : List ℕ) → IsDistinct pools → sum_of (λ p. owed p claimed) pools ≤ pot config claimed)
    × ((p : ℕ) (users : List ℕ)
        → IsDistinct users
        → sum_of (λ a. user_staked a p claimed) users
            + claimed.pending_amount p
            + claimed.pool_reward p
          ≤ pot config claimed)
all_is_held_example =
    all_is_held config fraction-PerquintillLaws tokens-TokenLaws tokens-TransferLaws held claimed
      path held-IsFunded

dispatch-IsMatched_example : IsMatched (dispatch config (signed 3) (stakes 1 60) held).1
dispatch-IsMatched_example =
    dispatch-IsMatched config (signed 3) (stakes 1 60) held held-IsBacked.covered held-IsMatched

stake_is_withdrawable_example : (do_withdraw config 3 1 staked_more).0 ≡ ok tt
unfolding dispatch get_epoch_index stake admit place do_native_add mix enqueue effective_time_of
    get_epoch_begin_time check_cap end_time sort sort_insert add
stake_is_withdrawable_example =
    stake_is_withdrawable config fraction-PerquintillLaws tokens-TokenLaws tokens-TransferLaws held
      staked_more (next here (calls (signed 4) (stakes 1 60) held four tt)) held-IsFunded 3 1 9
      (stake_of 20 60) refl refl
      (λ le. ((tokens.transfer (some 9) 90 3 60 staked_more.world).1, refl))

abbrev set_reward : Storage Books
set_reward = (update_reward config root 1 3 50 held).1

-- The stake and the reward of the path succeed: 60 wait for the pool, and 110 more tokens are held.
path_runs :
    (staked_more.pending_amount 1 ≡ 60)
    × (rewarded.pool_reward 1 ≡ 50)
    × (pot config staked_more ≡ 1060)
    × (pot config rewarded ≡ 1110)
unfolding dispatch update_reward get_epoch_index stake admit place do_native_add mix enqueue
    effective_time_of get_epoch_begin_time check_cap end_time sort sort_insert add
path_runs = (refl, refl, refl, refl)
