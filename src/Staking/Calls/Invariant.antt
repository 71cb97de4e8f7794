-- ===== src/Staking/Calls/Invariant.antt =====
-- Every call keeps the staking storage sound.
use can_bus.Base.{leb, Bool-cases, inl, inr, ap, [], ◌∷◌, ◌≡◌, ℕ, refl, arith}
use can_bus.Frame.Call.{
  Result, Origin, root, signed, unsigned, ok, ◌>>=◌, >>=-eq-ok, transactional-keeps,
}
use can_bus.Staking.Info.{PoolSetting}
use can_bus.Staking.State.{Config}
use can_bus.Staking.Pending.{begin_block, begin_block_with, solve_pending}
use can_bus.Staking.Pending.Queue.{Queue, time_of, later-IsSorted}
use can_bus.Staking.Pending.Solve.{solve_pending-Settles}
use can_bus.Staking.Calls.Admission.{admit-Admits}
use can_bus.Staking.Calls.{
  on_initialize, S, create_staking_pool, admit, place, stake, solve_pending_stake, Request, call_of,
  dispatch, create_staking_pools, update_metadatas, update_rewards, stakes, solve_pending_stakes,
  claim_natives, claim_stables, withdraws, regist_aiusds,
}
use can_bus.Staking.Calls.Soundness.{IsSound, Keeps-IsSound}
use can_bus.Staking.Calls.Keeps.{
  update_metadata-Keeps, update_reward-Keeps, regist_aiusd-Keeps, claim_native-Keeps,
  claim_stable-Keeps, withdraw-Keeps,
}
use can_bus.Staking.Calls.Places.{order_of, place-Places, Places-IsSound}

module _ (c : Config) where
  open c use {tokens}

  create_staking_pool-IsSound :
      (o : Origin) (p : ℕ) (setting : PoolSetting) (s s' : S c)
      → create_staking_pool c o p setting s ≡ (ok tt, s')
      → IsSound c s
      → IsSound c s'
  unfolding create_staking_pool
  create_staking_pool-IsSound o p setting s s' h v = record {
    sorted = let same : s'.pending_setup ≡ s.pending_setup = ground arith in rw same v.sorted;
    pending = λ p. ground (arith, v.pending p);
    capped = λ p st e. ground (arith, v.capped p st, v.unset p);
    unset = λ p e. ground (arith, v.unset p);
  }

  solve_pending-IsSound :
      (n : ℕ) (s s' : S c) → solve_pending n s ≡ (ok tt, s') → IsSound c s → IsSound c s'
  solve_pending-IsSound n s s' h v =
      let (left, d) = solve_pending-Settles n s s' v.sorted h in
      let pending = d.pending v.pending in
      record {
        sorted = rw left (later-IsSorted n s.pending_setup v.sorted);
        pending = pending;
        capped = λ p st e.
            let old = v.capped p st (rw d.setting at e) in
            omega (arith, old, d.pool p, v.pending p, pending p);
        unset = λ p e.
            let old = v.unset p (rw d.setting at e) in
            omega (arith, old, d.pool p, v.pending p, pending p);
      }

  stake_steps :
      (o : Origin) (p amount : ℕ) (s s' : S c)
      → stake c o p amount s ≡ (ok tt, s')
      → (who : ℕ) × ((admit c p amount s.block_number >>= place c who p amount s.block_number) s
          ≡ (ok tt, s'))
  unfolding stake
  stake_steps (signed who) p amount s s' h = (who, h)
  stake_steps root p amount s s' h = absurd (ground arith)
  stake_steps unsigned p amount s s' h = absurd (ground arith)

  stake-IsSound :
      (o : Origin) (p amount : ℕ) (s s' : S c)
      → stake c o p amount s ≡ (ok tt, s')
      → IsSound c s
      → IsSound c s'
  stake-IsSound o p amount s s' h v =
      let (who, steps) = stake_steps o p amount s s' h in
      let ((b, pending), t, first, last) =
        >>=-eq-ok (admit c p amount s.block_number) (place c who p amount s.block_number) s steps in
      let (same, a) = admit-Admits c p amount s.block_number s t (b, pending) first in
      let d = place-Places c who p amount s.block_number b pending t s' last in
      Places-IsSound c p amount s.block_number (b, pending) (order_of c who p b amount) s s' refl
        refl a (rw same at d) v

  solve_pending_stake-IsSound :
      (o : Origin) (s s' : S c)
      → solve_pending_stake c o s ≡ (ok tt, s')
      → IsSound c s
      → IsSound c s'
  unfolding solve_pending_stake
  solve_pending_stake-IsSound (signed who) s s' h v = solve_pending-IsSound s.block_number s s' h v
  solve_pending_stake-IsSound root s s' h v = absurd (ground arith)
  solve_pending_stake-IsSound unsigned s s' h v = absurd (ground arith)

  call_of-IsSound :
      (o : Origin) (r : Request) (s s' : S c)
      → call_of c o r s ≡ (ok tt, s')
      → IsSound c s
      → IsSound c s'
  call_of-IsSound o (create_staking_pools p st) s s' h v =
      create_staking_pool-IsSound o p st s s' h v
  call_of-IsSound o (update_metadatas p name d) s s' h v =
      Keeps-IsSound c (update_metadata-Keeps c o p name d s s' h) v
  call_of-IsSound o (update_rewards p epoch reward) s s' h v =
      Keeps-IsSound c (update_reward-Keeps c o p epoch reward s s' h) v
  call_of-IsSound o (stakes p amount) s s' h v = stake-IsSound o p amount s s' h v
  call_of-IsSound o solve_pending_stakes s s' h v = solve_pending_stake-IsSound o s s' h v
  call_of-IsSound o (claim_natives n) s s' h v = Keeps-IsSound c (claim_native-Keeps c o n s s' h) v
  call_of-IsSound o (claim_stables p n) s s' h v =
      Keeps-IsSound c (claim_stable-Keeps c o p n s s' h) v
  call_of-IsSound o (withdraws p) s s' h v = Keeps-IsSound c (withdraw-Keeps c o p s s' h) v
  call_of-IsSound o (regist_aiusds a) s s' h v = Keeps-IsSound c (regist_aiusd-Keeps c o a s s' h) v

  -- Every dispatched call, by whatever origin and whether it succeeds or fails, keeps the queue in
  -- order, the pending amounts equal to what the queue holds, every pool within its cap with the queue
  -- counted in, and nothing staked where there is no pool.
  pub dispatch-IsSound :
      (o : Origin) (r : Request) (s : S c) → IsSound c s → IsSound c (dispatch c o r s).1
  unfolding dispatch
  dispatch-IsSound o r s v =
      transactional-keeps (IsSound c) (call_of c o r) s (λ a t h. call_of-IsSound o r s t h v) v

  begin_block_with-IsSound :
      (q : Queue) (n : ℕ) (s : S c)
      → (solve_pending n s).0 ≡ ok tt
      → IsSound c s
      → IsSound c (begin_block_with q n s)
  begin_block_with-IsSound [] n s ran v = v
  begin_block_with-IsSound (x ∷ q) n s ran v = elim (Bool-cases (leb (time_of x) n)) [
    | inr early ↦ rw early v
    | inl due ↦
        let t = (solve_pending n s).1 in
        rw due (solve_pending-IsSound n s t (ap (λ (r : Result (Unit {0})). (r, t)) ran) v)
  ]

  -- The hook keeps the storage sound in every block in which `solve_pending` does not fail.
  pub on_initialize-IsSound :
      (n : ℕ) (s : S c)
      → (solve_pending n (record s { block_number = n })).0 ≡ ok tt
      → IsSound c s
      → IsSound c (on_initialize n s)
  unfolding on_initialize begin_block
  on_initialize-IsSound n s ran v =
      begin_block_with-IsSound s.pending_setup n (record s { block_number = n }) ran
        (record { sorted = v.sorted; pending = v.pending; capped = v.capped; unset = v.unset })
