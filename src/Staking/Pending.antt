-- ===== src/Staking/Pending.antt =====
-- Adding a position to the checkpoints, and the queue of stakes that wait for their epoch:
-- `do_native_add`, `do_stable_add`, `solve_pending` and `begin_block` of
-- pallets/stable-staking/src/lib.rs.
pub mod Queue
pub mod Solve
pub mod Progress
use can_bus.Base.{ℕ, Option, none, some, List, [], ◌∷◌, ◌++◌, leb, if◌then◌else◌, checked_sub}
use can_bus.Frame.Error.{staking, arithmetic, underflow, type_incompatible_or_arithmetic_error}
use can_bus.Frame.Call.{Call, pure, gets, modify, ok_or, ◌>>=◌, ◌>>◌}
use can_bus.Frame.Storage.{insert, insert₂}
use can_bus.Staking.Info.{StakingInfo, position, add}
use can_bus.Staking.State.{Storage, StakingInfoWithOwner, deposit_event, pending_staking_solved}

-- The closure of the four `try_mutate` calls: mix into a checkpoint, or start one.
unfoldable pub mix : Option StakingInfo → ℕ → ℕ → Option StakingInfo
unfolding add
mix none effective_time amount = some (position effective_time amount)
mix (some checkpoint) effective_time amount = add checkpoint effective_time amount

module _ {W : Type 0} where
  unfoldable pub do_native_add : ℕ → ℕ → ℕ → Call (Storage W) (Unit {0})
  do_native_add who amount effective_time = do
    old ← gets (λ s. s.native_checkpoint)
    checkpoint ←
        ok_or (mix old effective_time amount) (staking type_incompatible_or_arithmetic_error)
    modify (λ s. record s { native_checkpoint = some checkpoint })
    user_old ← gets (λ s. s.user_native_checkpoint who)
    user ←
        ok_or (mix user_old effective_time amount) (staking type_incompatible_or_arithmetic_error)
    modify
        (λ s. record s { user_native_checkpoint = insert who (some user) s.user_native_checkpoint })

  unfoldable pub do_stable_add : ℕ → ℕ → ℕ → ℕ → Call (Storage W) (Unit {0})
  do_stable_add who pool_id amount effective_time = do
    old ← gets (λ s. s.pool_checkpoint pool_id)
    checkpoint ←
        ok_or (mix old effective_time amount) (staking type_incompatible_or_arithmetic_error)
    modify (λ s. record s { pool_checkpoint = insert pool_id (some checkpoint) s.pool_checkpoint })
    user_old ← gets (λ s. s.user_pool_checkpoint who pool_id)
    user ←
        ok_or (mix user_old effective_time amount) (staking type_incompatible_or_arithmetic_error)
    modify (λ s. record s {
      user_pool_checkpoint = insert₂ who pool_id (some user) s.user_pool_checkpoint;
    })

  -- One round of the loop of `solve_pending`, on an entry that has become effective.
  unfoldable pub solve_one : ℕ → StakingInfoWithOwner → Call (Storage W) (Unit {0})
  solve_one n x = do
    do_stable_add x.who x.pool_id x.staking_info.amount n
    deposit_event (pending_staking_solved x.who x.pool_id n x.staking_info.amount)
    pending ← gets (λ s. s.pending_amount x.pool_id)
    left ← ok_or (checked_sub pending x.staking_info.amount) (arithmetic underflow)
    modify (λ s. record s { pending_amount = insert x.pool_id left s.pending_amount })

  -- The loop: it returns the entries that are left in the queue.
  unfoldable pub solve_from :
      ℕ → List StakingInfoWithOwner → Call (Storage W) (List StakingInfoWithOwner)
  solve_from n [] = pure []
  solve_from n (x ∷ rest) =
      if leb x.staking_info.effective_time n
      then solve_one n x >> solve_from n rest
      else pure (x ∷ rest)

  -- `PendingSetup::take()` empties the queue first; what is left is put back at the end.
  unfoldable pub solve_pending : ℕ → Call (Storage W) (Unit {0})
  solve_pending n = do
    queue ← gets (λ s. s.pending_setup)
    modify (λ s. record s { pending_setup = [] })
    left ← solve_from n queue
    modify (λ s. record s { pending_setup = left })

  abbrev pub begin_block_with : List StakingInfoWithOwner → ℕ → Storage W → Storage W
  begin_block_with [] n s = s
  begin_block_with (x ∷ rest) n s =
      if leb x.staking_info.effective_time n then (solve_pending n s).1 else s

  -- `begin_block`, less the weight. An error of `solve_pending` is dropped, its writes are not.
  unfoldable pub begin_block : ℕ → Storage W → Storage W
  begin_block n s = begin_block_with s.pending_setup n s

-- `sort_by` on the effective time, stable.
unfoldable pub sort_insert :
    StakingInfoWithOwner → List StakingInfoWithOwner → List StakingInfoWithOwner
sort_insert x [] = x ∷ []
sort_insert x (y ∷ ys) =
    if leb x.staking_info.effective_time y.staking_info.effective_time
    then x ∷ y ∷ ys
    else y ∷ sort_insert x ys

unfoldable pub sort : List StakingInfoWithOwner → List StakingInfoWithOwner
unfolding sort_insert
sort [] = []
sort (x ∷ xs) = sort_insert x (sort xs)

-- The closure of `PendingSetup::mutate` in `stake`: push at the back, then sort.
unfoldable pub enqueue :
    StakingInfoWithOwner → List StakingInfoWithOwner → List StakingInfoWithOwner
unfolding sort
enqueue order queue = sort (queue ++ order ∷ [])
