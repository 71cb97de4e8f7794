-- ===== src/Staking/Solvency/Backing.antt =====
-- The stake of a pool covers the stakes of its users, whatever call is made.
use can_bus.Base.{
  ℕ, ◌+◌, ◌≡◌, ◌≢◌, ◌==◌, inl, inr, [], ◌∷◌, leb, Bool-cases, Covers, Covers-shift, Covers-le,
  arith,
}
use can_bus.Frame.Call.{
  Origin, root, signed, unsigned, ok, ◌>>◌, modify, >>=-eq-ok, transactional-keeps,
}
use can_bus.Staking.State.{Config, Storage, StakingInfoWithOwner}
use can_bus.Staking.Pending.{do_stable_add, do_native_add, solve_one, solve_from, solve_pending}
use can_bus.Staking.Pending.Queue.{Queue, time_of}
use can_bus.Staking.Pending.Solve.{staked, user_staked, mix-amount, solve_one_mixed}
use can_bus.Staking.Claim.{do_native_claim, do_stable_claim, do_withdraw}
use can_bus.Staking.Calls.Admission.{admit-Admits}
use can_bus.Staking.Calls.{
  S, admit, place, stake, solve_pending_stake, withdraw, Request, call_of, dispatch,
  create_staking_pools, update_metadatas, update_rewards, stakes, solve_pending_stakes,
  claim_natives, claim_stables, withdraws, regist_aiusds,
}
use can_bus.Staking.Ledger.{IsCovered}
use can_bus.Staking.Ledger.Moves.{
  Rests, Withdraws, do_native_claim-Rests, do_stable_claim-Rests, create_staking_pool-Rests,
  update_metadata-Rests, update_reward-Rests, regist_aiusd-Rests, claim_native-Rests,
  claim_stable-Rests, do_withdraw-Withdraws,
}
use can_bus.Staking.Ledger.Refines.{stake_by, withdraw_by, solve_one-grows}

module _ {W : Type 0} where
  -- The stakes of any users of a pool are together at most the pool's, and a user stakes only in a
  -- pool that has a checkpoint.
  pub record IsBacked (s : Storage W) : Type 0 where
    pub backed : (p : ℕ) → Covers (λ a. user_staked a p s) (staked p s)
    pub covered : IsCovered s

  -- The stake of `who` in pool `p` grows by `gain`, and the pool's with it.
  record Grows (who p gain : ℕ) (s s' : Storage W) : Type 0 where
    user : user_staked who p s' ≡ user_staked who p s + gain
    others : (a : ℕ) → a ≢ who → user_staked a p s' ≡ user_staked a p s
    pool : staked p s' ≡ staked p s + gain
    other_users : (a q : ℕ) → q ≢ p → user_staked a q s' ≡ user_staked a q s
    other_pools : (q : ℕ) → q ≢ p → staked q s' ≡ staked q s

  solve_one-Grows :
      (n : ℕ) (x : StakingInfoWithOwner) (s s' : Storage W)
      → solve_one n x s ≡ (ok tt, s')
      → Grows x.who x.pool_id x.staking_info.amount s s'
  unfolding solve_one do_stable_add
  solve_one-Grows n x s s' h =
      let (pool, user, e, e') = solve_one_mixed n x [] s s' h in
      let more = mix-amount _ _ _ pool e in
      let user_more = mix-amount _ _ _ user e' in
      record {
        user = ground (arith, user_more);
        others = λ a ne. ground arith;
        pool = ground (arith, more);
        other_users = λ a q ne. ground arith;
        other_pools = λ q ne. ground arith;
      }

  Grows-backed :
      (who p gain : ℕ) (s s' : Storage W)
      → Grows who p gain s s'
      → ((q : ℕ) → Covers (λ a. user_staked a q s) (staked q s))
      → (q : ℕ) → Covers (λ a. user_staked a q s') (staked q s')
  Grows-backed who p gain s s' d v q = elim (Bool-cases (q == p)) [
    | inl e ↦
        let same : q ≡ p = ground arith in
        rw same (
          Covers-shift (λ a. user_staked a p s) (λ a. user_staked a p s') who 0 gain
            (omega (arith, d.user)) (λ a ne. omega (arith, d.others a ne)) (staked p s)
            (staked p s') (omega (arith, d.pool)) (v p))
    | inr e ↦
        let other : q ≢ p = λ k. ground arith in
        Covers-le (λ a. user_staked a q s) (λ a. user_staked a q s') (staked q s) (staked q s')
          (λ a. omega (arith, d.other_users a q other)) (omega (arith, d.other_pools q other)) (v q)
  ]

  solve_one-IsBacked :
      (n : ℕ) (x : StakingInfoWithOwner) (s s' : Storage W)
      → solve_one n x s ≡ (ok tt, s')
      → IsBacked s
      → IsBacked s'
  solve_one-IsBacked n x s s' h v = record {
    backed =
        Grows-backed x.who x.pool_id x.staking_info.amount s s' (solve_one-Grows n x s s' h)
          v.backed;
    covered = (solve_one-grows n x s s' h).1 v.covered;
  }

  solve_from-IsBacked :
      (n : ℕ) (q left : Queue) (s s' : Storage W)
      → solve_from n q s ≡ (ok left, s')
      → IsBacked s
      → IsBacked s'
  unfolding solve_from
  solve_from-IsBacked n [] left s s' h v = let same : s' ≡ s = ground arith in rw same v
  solve_from-IsBacked n (x ∷ q) left s s' h v = elim (Bool-cases (leb (time_of x) n)) [
    | inl due ↦
        let (_, t, first, rest) = >>=-eq-ok (solve_one n x) (λ _. solve_from n q) s (rw due at h) in
        solve_from-IsBacked n q left t s' rest (solve_one-IsBacked n x s t first v)
    | inr early ↦ let same : s' ≡ s = ground arith in rw same v
  ]

  pub solve_pending-IsBacked :
      (n : ℕ) (s s' : Storage W) → solve_pending n s ≡ (ok tt, s') → IsBacked s → IsBacked s'
  unfolding solve_pending
  solve_pending-IsBacked n s s' h v =
      let taken : Storage W = record s { pending_setup = [] } in
      let put = λ (left : Queue). λ (t : Storage W). record t { pending_setup = left } in
      let (left, t, loop, last) =
        >>=-eq-ok (solve_from n s.pending_setup) (λ left. modify (put left)) taken h in
      let d =
        solve_from-IsBacked n s.pending_setup left taken t loop
          (record { backed = v.backed; covered = v.covered }) in
      let final : s' ≡ put left t = ground arith in
      rw final (record { backed = d.backed; covered = d.covered })

module _ (c : Config) where
  Rests-IsBacked : (s s' : S c) → Rests c s s' → IsBacked s → IsBacked s'
  Rests-IsBacked s s' d v = record {
    backed = λ p.
        Covers-le (λ a. user_staked a p s) (λ a. user_staked a p s') (staked p s) (staked p s')
          (λ a. omega (arith, d.user a p)) (omega (arith, d.pool p)) (v.backed p);
    covered = d.covered v.covered;
  }

  Withdraws-backed :
      (who p : ℕ) (s s' : S c)
      → Withdraws c who p s s'
      → IsBacked s
      → (q : ℕ) → Covers (λ a. user_staked a q s') (staked q s')
  Withdraws-backed who p s s' d v q = elim (Bool-cases (q == p)) [
    | inl e ↦
        let same : q ≡ p = ground arith in
        rw same (
          Covers-shift (λ a. user_staked a p s) (λ a. user_staked a p s') who (user_staked who p s)
            0 (omega (arith, d.gone)) (λ a ne. omega (arith, d.others a p (inl ne))) (staked p s)
            (staked p s') (omega (arith, d.pool)) (v.backed p))
    | inr e ↦
        let other : q ≢ p = λ k. ground arith in
        Covers-le (λ a. user_staked a q s) (λ a. user_staked a q s') (staked q s) (staked q s')
          (λ a. omega (arith, d.others a q (inr other))) (omega (arith, d.other_pools q other))
          (v.backed q)
  ]

  withdraw-IsBacked :
      (o : Origin) (p : ℕ) (s s' : S c) → withdraw c o p s ≡ (ok tt, s') → IsBacked s → IsBacked s'
  withdraw-IsBacked o p s s' h v =
      let (who, _, steps) = withdraw_by c o p s s' h in
      let now = s.block_number in
      let (_, t, native, rest) =
        >>=-eq-ok (do_native_claim c who now)
          (λ _. do_stable_claim c who p now >> do_withdraw c who p) s steps in
      let (_, u, stable, last) =
        >>=-eq-ok (do_stable_claim c who p now) (λ _. do_withdraw c who p) t rest in
      let first = Rests-IsBacked s t (do_native_claim-Rests c who now s t native) v in
      let second = Rests-IsBacked t u (do_stable_claim-Rests c who p now t u stable) first in
      let d = do_withdraw-Withdraws c who p u s' last second.covered in
      record { backed = Withdraws-backed who p u s' d second; covered = d.covered }

  place-Rests :
      (who p amount now b pending : ℕ) (s s' : S c)
      → place c who p amount now (b, pending) s ≡ (ok tt, s')
      → (s'.pool_checkpoint ≡ s.pool_checkpoint)
        × (s'.user_pool_checkpoint ≡ s.user_pool_checkpoint)
  unfolding place do_native_add
  place-Rests who p amount now b pending s s' h = (ground arith, ground arith)

  stake-IsBacked :
      (o : Origin) (p amount : ℕ) (s s' : S c)
      → stake c o p amount s ≡ (ok tt, s')
      → IsBacked s
      → IsBacked s'
  stake-IsBacked o p amount s s' h v =
      let (who, _, steps) = stake_by c o p amount s s' h in
      let now = s.block_number in
      let ((b, pending), t, first, last) =
        >>=-eq-ok (admit c p amount now) (place c who p amount now) s steps in
      let (same, _) = admit-Admits c p amount now s t (b, pending) first in
      let (pools, users) = place-Rests who p amount now b pending s s' (rw same at last) in
      record { backed = rw (pools, users) v.backed; covered = rw (pools, users) v.covered }

  solve_pending_stake-IsBacked :
      (o : Origin) (s s' : S c) → solve_pending_stake c o s ≡ (ok tt, s') → IsBacked s → IsBacked s'
  unfolding solve_pending_stake
  solve_pending_stake-IsBacked (signed who) s s' h v =
      solve_pending-IsBacked s.block_number s s' h v
  solve_pending_stake-IsBacked root s s' h v = absurd (ground arith)
  solve_pending_stake-IsBacked unsigned s s' h v = absurd (ground arith)

  call_of-IsBacked :
      (o : Origin) (r : Request) (s s' : S c)
      → call_of c o r s ≡ (ok tt, s')
      → IsBacked s
      → IsBacked s'
  call_of-IsBacked o (create_staking_pools p st) s s' h =
      Rests-IsBacked s s' (create_staking_pool-Rests c o p st s s' h)
  call_of-IsBacked o (update_metadatas p name d) s s' h =
      Rests-IsBacked s s' (update_metadata-Rests c o p name d s s' h)
  call_of-IsBacked o (update_rewards p epoch n) s s' h =
      Rests-IsBacked s s' (update_reward-Rests c o p epoch n s s' h)
  call_of-IsBacked o (stakes p amount) s s' h = stake-IsBacked o p amount s s' h
  call_of-IsBacked o solve_pending_stakes s s' h = solve_pending_stake-IsBacked o s s' h
  call_of-IsBacked o (claim_natives n) s s' h =
      Rests-IsBacked s s' (claim_native-Rests c o n s s' h)
  call_of-IsBacked o (claim_stables p n) s s' h =
      Rests-IsBacked s s' (claim_stable-Rests c o p n s s' h)
  call_of-IsBacked o (withdraws p) s s' h = withdraw-IsBacked o p s s' h
  call_of-IsBacked o (regist_aiusds a) s s' h =
      Rests-IsBacked s s' (regist_aiusd-Rests c o a s s' h)

  -- Every dispatched call, by whatever origin and whether it succeeds or fails, keeps the stakes of any
  -- different users of a pool together within the pool's stake, and users staking only in pools that
  -- have a checkpoint.
  pub dispatch-IsBacked :
      (o : Origin) (r : Request) (s : S c) → IsBacked s → IsBacked (dispatch c o r s).1
  unfolding dispatch
  dispatch-IsBacked o r s v =
      transactional-keeps IsBacked (call_of c o r) s (λ a t h. call_of-IsBacked o r s t h v) v
