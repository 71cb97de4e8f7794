-- ===== src/Staking/Ledger/Refines.antt =====
-- The staking calls as steps of the ledger.
use mathlib.Core.Path.{subst}
use can_bus.Base.{sym, ℕ, ◌≤◌, ◌≡◌, ◌⊎◌, ◌∙◌, refl, ap, leb, Bool-cases, inl, inr, [], ◌∷◌, arith}
use can_bus.Frame.Error.{DispatchError}
use can_bus.Frame.Call.{
  Result, Origin, root, signed, unsigned, ok, err, ◌>>=◌, ◌>>◌, modify, >>=-eq-ok,
  transactional_cases,
}
use can_bus.Staking.State.{Storage, Config, StakingInfoWithOwner}
use can_bus.Staking.Pending.{
  do_stable_add, do_native_add, solve_one, solve_from, solve_pending, enqueue,
}
use can_bus.Staking.Pending.Queue.{
  Queue, IsSorted, time_of, user_queued, user_share_of, sum_of-enqueue,
}
use can_bus.Staking.Pending.Solve.{
  user_staked, solve_one_mixed, solve_one-Settles, solve_pending-Settles,
}
use can_bus.Staking.Claim.{do_native_claim, do_stable_claim, do_withdraw}
use can_bus.Staking.Calls.Admission.{admit-Admits}
use can_bus.Staking.Calls.Places.{order_of}
use can_bus.Staking.Calls.{
  S, admit, place, stake, solve_pending_stake, withdraw, Request, call_of, dispatch,
  create_staking_pools, update_metadatas, update_rewards, stakes, solve_pending_stakes,
  claim_natives, claim_stables, withdraws, regist_aiusds,
}
use can_bus.Staking.Ledger.{ledger_of, IsCovered, Stays, Joins, Matures, Allows}
use can_bus.Staking.Ledger.Moves.{
  Rests, Rests-Stays, do_native_claim-Rests, do_stable_claim-Rests, create_staking_pool-Rests,
  update_metadata-Rests, update_reward-Rests, regist_aiusd-Rests, claim_native-Rests,
  claim_stable-Rests, do_withdraw-Withdraws,
}

module _ {W : Type 0} where
  pub solve_one-grows :
      (n : ℕ) (x : StakingInfoWithOwner) (s s' : Storage W)
      → solve_one n x s ≡ (ok tt, s')
      → ((a p : ℕ) → user_staked a p s ≤ user_staked a p s') × (IsCovered s → IsCovered s')
  unfolding solve_one do_stable_add
  solve_one-grows n x s s' h =
      let d = solve_one-Settles n x [] s s' h in
      let (pool, user, e, e') = solve_one_mixed n x [] s s' h in
      ((λ a p. omega (arith, d.user a p)), (λ v a p q. ground (arith, v a p)))

  solve_from-grows :
      (n : ℕ) (q left : Queue) (s s' : Storage W)
      → solve_from n q s ≡ (ok left, s')
      → ((a p : ℕ) → user_staked a p s ≤ user_staked a p s') × (IsCovered s → IsCovered s')
  unfolding solve_from
  solve_from-grows n [] left s s' h = ((λ a p. ground arith), (λ v a p e. ground (arith, v a p)))
  solve_from-grows n (x ∷ q) left s s' h = elim (Bool-cases (leb (time_of x) n)) [
    | inl due ↦
        let (_, t, first, rest) = >>=-eq-ok (solve_one n x) (λ _. solve_from n q) s (rw due at h) in
        let (one, covers) = solve_one-grows n x s t first in
        let (more, kept) = solve_from-grows n q left t s' rest in
        ((λ a p. omega (arith, one a p, more a p)), (λ v. kept (covers v)))
    | inr early ↦ ((λ a p. ground arith), (λ v a p e. ground (arith, v a p)))
  ]

  solve_pending-Matures :
      (n : ℕ) (s s' : Storage W)
      → IsSorted s.pending_setup
      → solve_pending n s ≡ (ok tt, s')
      → Matures (ledger_of s) (ledger_of s') × (IsCovered s → IsCovered s')
  unfolding solve_pending
  solve_pending-Matures n s s' sorted h =
      let s₀ : Storage W = record s { pending_setup = [] } in
      let put = λ (left : Queue). λ (t : Storage W). record t { pending_setup = left } in
      let (left, t, loop, last) =
        >>=-eq-ok (solve_from n s.pending_setup) (λ left. modify (put left)) s₀ h in
      let (grows, covers) = solve_from-grows n s.pending_setup left s₀ t loop in
      let (_, d) = solve_pending-Settles n s s' sorted h in
      let final : s' ≡ put left t = ground arith in
      (
        record { sum = λ a p. d.user a p; grows = λ a p. ground (arith, grows a p, final) },
        (λ v a p e. ground (arith, covers v a p, final)),
      )

module _ (c : Config) where
  open c use {tokens}

  -- Only a signed origin stakes or withdraws.
  pub stake_by :
      (o : Origin) (p amount : ℕ) (s s' : S c)
      → stake c o p amount s ≡ (ok tt, s')
      → (who : ℕ) × (o ≡ signed who)
        × ((admit c p amount s.block_number >>= place c who p amount s.block_number) s
            ≡ (ok tt, s'))
  unfolding stake
  stake_by (signed who) p amount s s' h = (who, refl, h)
  stake_by root p amount s s' h = absurd (ground arith)
  stake_by unsigned p amount s s' h = absurd (ground arith)

  pub withdraw_by :
      (o : Origin) (p : ℕ) (s s' : S c)
      → withdraw c o p s ≡ (ok tt, s')
      → (who : ℕ) × (o ≡ signed who)
        × ((do_native_claim c who s.block_number
                >> (do_stable_claim c who p s.block_number >> do_withdraw c who p))
              s
            ≡ (ok tt, s'))
  unfolding withdraw
  withdraw_by (signed who) p s s' h = (who, refl, ground arith)
  withdraw_by root p s s' h = absurd (ground arith)
  withdraw_by unsigned p s s' h = absurd (ground arith)

  pub place-Joins :
      (who p amount now b pending : ℕ) (s s' : S c)
      → place c who p amount now (b, pending) s ≡ (ok tt, s')
      → Joins who p amount (ledger_of s) (ledger_of s') × (IsCovered s → IsCovered s')
  unfolding place do_native_add
  place-Joins who p amount now b pending s s' h =
      let queue : s'.pending_setup ≡ enqueue (order_of c who p b amount) s.pending_setup =
        ground arith in
      let joined = λ (a q : ℕ).
        sum_of-enqueue (user_share_of a q) (order_of c who p b amount) s.pending_setup in
      (
        record {
          active = λ a q. ground arith;
          waiting = ground (arith, queue, joined who p);
          others = λ a q ne. ground (arith, queue, joined a q, ne);
        },
        (λ v a q e. ground (arith, v a q)),
      )

  withdraw-Leaves :
      (o : Origin) (p : ℕ) (s s' : S c)
      → withdraw c o p s ≡ (ok tt, s')
      → IsCovered s
      → Allows o (withdraws p) (ledger_of s) (ledger_of s') × IsCovered s'
  withdraw-Leaves o p s s' h v =
      let (who, signs, steps) = withdraw_by o p s s' h in
      let now = s.block_number in
      let (_, t, native, rest) =
        >>=-eq-ok (do_native_claim c who now)
          (λ _. do_stable_claim c who p now >> do_withdraw c who p) s steps in
      let (_, u, stable, last) =
        >>=-eq-ok (do_stable_claim c who p now) (λ _. do_withdraw c who p) t rest in
      let a = do_native_claim-Rests c who now s t native in
      let b = do_stable_claim-Rests c who p now t u stable in
      let d = do_withdraw-Withdraws c who p u s' last (b.covered (a.covered v)) in
      (
        (
          who,
          signs,
          record {
            gone = d.gone;
            others = λ x q ne. d.others x q ne ∙ (b.user x q ∙ a.user x q);
            waiting = λ x q. ap (user_queued x q) (d.queue ∙ (b.queue ∙ a.queue));
          },
        ),
        d.covered,
      )

  stake-Joins :
      (o : Origin) (p amount : ℕ) (s s' : S c)
      → stake c o p amount s ≡ (ok tt, s')
      → Allows o (stakes p amount) (ledger_of s) (ledger_of s') × (IsCovered s → IsCovered s')
  stake-Joins o p amount s s' h =
      let (who, signs, steps) = stake_by o p amount s s' h in
      let now = s.block_number in
      let ((b, pending), t, first, last) =
        >>=-eq-ok (admit c p amount now) (place c who p amount now) s steps in
      let (same, _) = admit-Admits c p amount now s t (b, pending) first in
      let (joins, covers) = place-Joins who p amount now b pending s s' (rw same at last) in
      ((who, signs, joins), covers)

  solve_pending_stake-Matures :
      (o : Origin) (s s' : S c)
      → IsSorted s.pending_setup
      → solve_pending_stake c o s ≡ (ok tt, s')
      → Matures (ledger_of s) (ledger_of s') × (IsCovered s → IsCovered s')
  unfolding solve_pending_stake
  solve_pending_stake-Matures (signed who) s s' v h = solve_pending-Matures s.block_number s s' v h
  solve_pending_stake-Matures root s s' v h = absurd (ground arith)
  solve_pending_stake-Matures unsigned s s' v h = absurd (ground arith)

  rests :
      (s s' : S c) → Rests c s s' → IsCovered s → Stays (ledger_of s) (ledger_of s') × IsCovered s'
  rests s s' r v = (Rests-Stays c r, r.covered v)

  call_of-Allows :
      (o : Origin) (r : Request) (s s' : S c)
      → IsSorted s.pending_setup
      → IsCovered s
      → call_of c o r s ≡ (ok tt, s')
      → Allows o r (ledger_of s) (ledger_of s') × IsCovered s'
  call_of-Allows o (create_staking_pools p st) s s' q v h =
      rests s s' (create_staking_pool-Rests c o p st s s' h) v
  call_of-Allows o (update_metadatas p name d) s s' q v h =
      rests s s' (update_metadata-Rests c o p name d s s' h) v
  call_of-Allows o (update_rewards p epoch n) s s' q v h =
      rests s s' (update_reward-Rests c o p epoch n s s' h) v
  call_of-Allows o (stakes p amount) s s' q v h =
      let (step, covers) = stake-Joins o p amount s s' h in (step, covers v)
  call_of-Allows o solve_pending_stakes s s' q v h =
      let (step, covers) = solve_pending_stake-Matures o s s' q h in (step, covers v)
  call_of-Allows o (claim_natives n) s s' q v h = rests s s' (claim_native-Rests c o n s s' h) v
  call_of-Allows o (claim_stables p n) s s' q v h = rests s s' (claim_stable-Rests c o p n s s' h) v
  call_of-Allows o (withdraws p) s s' q v h = withdraw-Leaves o p s s' h v
  call_of-Allows o (regist_aiusds a) s s' q v h = rests s s' (regist_aiusd-Rests c o a s s' h) v

  -- How a dispatched call may end.
  abbrev pub Steps : Origin → Request → S c → Result (Unit {0}) × S c → Type 0
  Steps o r s (result, s') =
      (((result ≡ ok tt) × Allows o r (ledger_of s) (ledger_of s'))
        ⊎ (((e : DispatchError) × (result ≡ err e)) × (s' ≡ s)))
      × IsCovered s'

  -- From a storage with its queue in order, in which users stake only in pools that have a checkpoint,
  -- a dispatched call that succeeds is the step of the ledger that its request allows: a stake joins
  -- what its signer has waiting, a settlement turns what waits into what is active, a withdrawal takes
  -- out all that its signer has active in that pool, and every other call moves nothing. A call that
  -- fails changes nothing, and either way users stake only in pools that have a checkpoint.
  pub dispatch-Steps :
      (o : Origin) (r : Request) (s : S c)
      → IsSorted s.pending_setup
      → IsCovered s
      → Steps o r s (dispatch c o r s)
  unfolding dispatch
  dispatch-Steps o r s q v = elim (transactional_cases (call_of c o r) s) [
    | inl (u, t, h, out) ↦
        let (step, covers) = call_of-Allows o r s t q v h in
        subst (Steps o r s) (sym out) (inl (refl, step), covers)
    | inr (e, out) ↦ subst (Steps o r s) (sym out) (inr ((e, refl), refl), v)
  ]
