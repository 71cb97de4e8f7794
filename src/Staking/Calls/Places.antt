-- ===== src/Staking/Calls/Places.antt =====
-- What `stake` does to a sound storage, from its checks to its writes.
use can_bus.Base.{ℕ, ◌+◌, ◌≡◌, ◌≢◌, ap, ◌==◌, Option, Bool-cases, inl, inr, arith}
use can_bus.Frame.Call.{ok}
use can_bus.Frame.Storage.{StorageMap}
use can_bus.Staking.Info.{StakingInfo, position}
use can_bus.Staking.State.{Config, StakingInfoWithOwner}
use can_bus.Staking.Pending.{enqueue, do_native_add}
use can_bus.Staking.Pending.Queue.{share_of, enqueue-IsSorted, sum_of-enqueue}
use can_bus.Staking.Pending.Solve.{amount_of}
use can_bus.Staking.Calls.Admission.{Admits}
use can_bus.Staking.Calls.{S, place}
use can_bus.Staking.Calls.Soundness.{IsSound}

module _ (c : Config) where
  open c use {tokens}

  abbrev pub order_of : ℕ → ℕ → ℕ → ℕ → StakingInfoWithOwner
  order_of who p b amount = record { who = who; pool_id = p; staking_info = position b amount }

  -- What `place` does to the queue, the pending amounts and the stakes.
  pub record Places (order : StakingInfoWithOwner) (pending : ℕ) (s s' : S c) : Type 0 where
    pub queue : s'.pending_setup ≡ enqueue order s.pending_setup
    pub of_pool : s'.pending_amount order.pool_id ≡ pending + order.staking_info.amount
    pub others : (j : ℕ) → j ≢ order.pool_id → s'.pending_amount j ≡ s.pending_amount j
    pub setting : s'.pool_setting ≡ s.pool_setting
    pub pool : s'.pool_checkpoint ≡ s.pool_checkpoint

  pub place-Places :
      (who p amount now b pending : ℕ) (s s' : S c)
      → place c who p amount now (b, pending) s ≡ (ok tt, s')
      → Places (order_of who p b amount) pending s s'
  unfolding place do_native_add
  place-Places who p amount now b pending s s' h = record {
    queue = ground arith;
    of_pool = ground arith;
    others = λ j ne. ground arith;
    setting = ground arith;
    pool = ground arith;
  }

  pub Places-pending :
      (order : StakingInfoWithOwner) (s s' : S c)
      → Places order (s.pending_amount order.pool_id) s s'
      → (j : ℕ) → s'.pending_amount j ≡ s.pending_amount j + share_of j order
  Places-pending order s s' d j = elim (Bool-cases (j == order.pool_id)) [
    | inl hit ↦ ground (arith, d.of_pool)
    | inr miss ↦ ground (arith, d.others j)
  ]

  pub Places-IsSound :
      (p amount now : ℕ) (found : ℕ × ℕ) (order : StakingInfoWithOwner) (s s' : S c)
      → order.pool_id ≡ p
      → order.staking_info.amount ≡ amount
      → Admits c p amount now s found
      → Places order found.1 s s'
      → IsSound c s
      → IsSound c s'
  Places-IsSound p amount now found order s s' of_pool of_amount a d v =
      let read : found.1 ≡ s.pending_amount order.pool_id = rw of_pool a.pending in
      let pending = Places-pending order s s' (rw read at d) in
      let stays = λ (j : ℕ). ap (λ (m : StorageMap (Option StakingInfo)). amount_of (m j)) d.pool in
      record {
        sorted = rw d.queue (enqueue-IsSorted order s.pending_setup).0;
        pending = λ j. rw d.queue (
            omega
              (arith, pending j, v.pending j, sum_of-enqueue (share_of j) order s.pending_setup));
        capped = λ j st e. ground (
          arith,
          pending j,
          stays j,
          a.exists,
          a.fits,
          of_pool,
          of_amount,
          v.capped j st (rw d.setting at e),
        );
        unset = λ j e.
            ground (arith, pending j, stays j, a.exists, of_pool, v.unset j (rw d.setting at e));
      }
