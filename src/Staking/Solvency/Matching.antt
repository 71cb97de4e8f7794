-- ===== src/Staking/Solvency/Matching.antt =====
-- Every call keeps the native stakes matched with what users have in the pools.
use can_bus.Base.{ℕ, ◌≡◌, arith}
use can_bus.Frame.Call.{Origin, root, signed, unsigned, ok, ◌>>◌, >>=-eq-ok, transactional-keeps}
use can_bus.Staking.State.{Config}
use can_bus.Staking.Claim.{do_native_claim, do_stable_claim, do_withdraw}
use can_bus.Staking.Calls.Admission.{admit-Admits}
use can_bus.Staking.Calls.{
  S, admit, place, stake, solve_pending_stake, withdraw, Request, call_of, dispatch,
  create_staking_pools, update_metadatas, update_rewards, stakes, solve_pending_stakes,
  claim_natives, claim_stables, withdraws, regist_aiusds,
}
use can_bus.Staking.Pending.Solve.{user_staked}
use can_bus.Staking.Ledger.{IsCovered}
use can_bus.Staking.Ledger.Moves.{
  do_native_claim-Rests, do_stable_claim-Rests, create_staking_pool-Rests, update_metadata-Rests,
  update_reward-Rests, regist_aiusd-Rests, claim_native-Rests, claim_stable-Rests,
}
use can_bus.Staking.Ledger.Refines.{stake_by, withdraw_by}
use can_bus.Staking.Solvency.Natives.{
  IsMatched, Shifts-IsMatched, Rests-IsMatched, place-Shifts, do_withdraw-Shifts,
  solve_pending-IsMatched,
}

module _ (c : Config) where
  stake-IsMatched :
      (o : Origin) (p amount : ℕ) (s s' : S c)
      → stake c o p amount s ≡ (ok tt, s')
      → IsMatched s
      → IsMatched s'
  stake-IsMatched o p amount s s' h v =
      let (who, _, steps) = stake_by c o p amount s s' h in
      let now = s.block_number in
      let ((b, pending), t, first, last) =
        >>=-eq-ok (admit c p amount now) (place c who p amount now) s steps in
      let (same, _) = admit-Admits c p amount now s t (b, pending) first in
      Shifts-IsMatched who p 0 amount s s'
        (place-Shifts c who p amount now b pending s s' (rw same at last)) v

  solve_pending_stake-IsMatched :
      (o : Origin) (s s' : S c)
      → solve_pending_stake c o s ≡ (ok tt, s')
      → IsMatched s
      → IsMatched s'
  unfolding solve_pending_stake
  solve_pending_stake-IsMatched (signed who) s s' h v =
      solve_pending-IsMatched s.block_number s s' h v
  solve_pending_stake-IsMatched root s s' h v = absurd (ground arith)
  solve_pending_stake-IsMatched unsigned s s' h v = absurd (ground arith)

  withdraw-IsMatched :
      (o : Origin) (p : ℕ) (s s' : S c)
      → withdraw c o p s ≡ (ok tt, s')
      → IsCovered s
      → IsMatched s
      → IsMatched s'
  withdraw-IsMatched o p s s' h covered v =
      let (who, _, steps) = withdraw_by c o p s s' h in
      let now = s.block_number in
      let (_, t, native, rest) =
        >>=-eq-ok (do_native_claim c who now)
          (λ _. do_stable_claim c who p now >> do_withdraw c who p) s steps in
      let (_, u, stable, last) =
        >>=-eq-ok (do_stable_claim c who p now) (λ _. do_withdraw c who p) t rest in
      let a = do_native_claim-Rests c who now s t native in
      let b = do_stable_claim-Rests c who p now t u stable in
      let at_last = Rests-IsMatched c t u b (Rests-IsMatched c s t a v) in
      Shifts-IsMatched who p (user_staked who p u) 0 u s'
        (do_withdraw-Shifts c who p u s' last (b.covered (a.covered covered)) at_last) at_last

  call_of-IsMatched :
      (o : Origin) (r : Request) (s s' : S c)
      → call_of c o r s ≡ (ok tt, s')
      → IsCovered s
      → IsMatched s
      → IsMatched s'
  call_of-IsMatched o (create_staking_pools p st) s s' h k =
      Rests-IsMatched c s s' (create_staking_pool-Rests c o p st s s' h)
  call_of-IsMatched o (update_metadatas p name d) s s' h k =
      Rests-IsMatched c s s' (update_metadata-Rests c o p name d s s' h)
  call_of-IsMatched o (update_rewards p epoch n) s s' h k =
      Rests-IsMatched c s s' (update_reward-Rests c o p epoch n s s' h)
  call_of-IsMatched o (stakes p amount) s s' h k = stake-IsMatched o p amount s s' h
  call_of-IsMatched o solve_pending_stakes s s' h k = solve_pending_stake-IsMatched o s s' h
  call_of-IsMatched o (claim_natives n) s s' h k =
      Rests-IsMatched c s s' (claim_native-Rests c o n s s' h)
  call_of-IsMatched o (claim_stables p n) s s' h k =
      Rests-IsMatched c s s' (claim_stable-Rests c o p n s s' h)
  call_of-IsMatched o (withdraws p) s s' h k = withdraw-IsMatched o p s s' h k
  call_of-IsMatched o (regist_aiusds a) s s' h k =
      Rests-IsMatched c s s' (regist_aiusd-Rests c o a s s' h)

  -- Where users stake only in pools that have a checkpoint, every dispatched call, by whatever origin and
  -- whether it succeeds or fails, keeps that the native stake of every user is at least what it has, active and waiting,
  -- in any different pools together, and that the native stake of all is at least those of any different users.
  pub dispatch-IsMatched :
      (o : Origin) (r : Request) (s : S c)
      → IsCovered s
      → IsMatched s
      → IsMatched (dispatch c o r s).1
  unfolding dispatch
  dispatch-IsMatched o r s k v =
      transactional-keeps IsMatched (call_of c o r) s (λ a t h. call_of-IsMatched o r s t h k v) v
