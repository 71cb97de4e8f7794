-- ===== src/Staking/Solvency/Invariant.antt =====
-- Every call keeps the staking pallet solvent.
use can_bus.Base.{◌≡◌, ◌≢◌, ℕ, none, arith}
use can_bus.Frame.Call.{Origin, root, signed, unsigned, ok, ◌>>◌, >>=-eq-ok, transactional-keeps}
use can_bus.Frame.Tokens.{TokenLaws, TransferLaws}
use can_bus.Frame.Perquintill.{PerquintillLaws}
use can_bus.Staking.State.{Config}
use can_bus.Staking.Claim.{do_native_claim, do_stable_claim, do_withdraw}
use can_bus.Staking.Calls.{
  S, admit, place, stake, solve_pending_stake, claim_native, claim_stable, withdraw, Request,
  call_of, dispatch, create_staking_pools, update_metadatas, update_rewards, stakes,
  solve_pending_stakes, claim_natives, claim_stables, withdraws, regist_aiusds,
}
use can_bus.Staking.Calls.Admission.{admit-Admits}
use can_bus.Staking.Solvency.{IsSolvent, Shifts-IsSolvent, Rests-IsSolvent}
use can_bus.Staking.Solvency.Payments.{
  do_native_claim-Rests, do_stable_claim-IsSolvent, do_withdraw-IsSolvent,
}
use can_bus.Staking.Solvency.Stakes.{
  solve_pending-Rests, create_staking_pool-Rests, update_metadata-Rests, regist_aiusd-Rests,
  update_reward-Shifts, place-Shifts,
}

module _ (c : Config) where
  open c use {stable_token_beneficiary}

  -- The caller is not the account in which the pallet keeps the tokens.
  abbrev pub IsOutside : Origin → Type 0
  IsOutside (signed who) = who ≢ stable_token_beneficiary
  IsOutside root = Unit
  IsOutside unsigned = Unit

  -- An asset is registered only where there is none.
  abbrev pub IsFirst : Request → S c → Type 0
  IsFirst (regist_aiusds a) s = s.aiusd_asset_id ≡ none
  IsFirst (create_staking_pools p st) s = Unit
  IsFirst (update_metadatas p name d) s = Unit
  IsFirst (update_rewards p epoch reward) s = Unit
  IsFirst (stakes p amount) s = Unit
  IsFirst solve_pending_stakes s = Unit
  IsFirst (claim_natives n) s = Unit
  IsFirst (claim_stables p n) s = Unit
  IsFirst (withdraws p) s = Unit

module _ (c : Config) (laws : PerquintillLaws c.perquintill) (mints : TokenLaws c.tokens)
    (transfers : TransferLaws c.tokens) where
  open c use {stable_token_beneficiary}

  stake-IsSolvent :
      (o : Origin) (p amount : ℕ) (s s' : S c)
      → IsOutside c o
      → stake c o p amount s ≡ (ok tt, s')
      → IsSolvent c s
      → IsSolvent c s'
  unfolding stake
  stake-IsSolvent root p amount s s' out h v = absurd (ground arith)
  stake-IsSolvent unsigned p amount s s' out h v = absurd (ground arith)
  stake-IsSolvent (signed who) p amount s s' out h v =
      let ((b, pending), t, first, last) =
        >>=-eq-ok (admit c p amount s.block_number) (place c who p amount s.block_number) s h in
      let (same, a) = admit-Admits c p amount s.block_number s t (b, pending) first in
      Shifts-IsSolvent c p 0 amount
        (place-Shifts c transfers who p amount s.block_number b s s' out
          (rw (same, a.pending) at last))
        v

  solve_pending_stake-IsSolvent :
      (o : Origin) (s s' : S c)
      → solve_pending_stake c o s ≡ (ok tt, s')
      → IsSolvent c s
      → IsSolvent c s'
  unfolding solve_pending_stake
  solve_pending_stake-IsSolvent (signed who) s s' h v =
      Rests-IsSolvent c (solve_pending-Rests c s.block_number s s' h) v
  solve_pending_stake-IsSolvent root s s' h v = absurd (ground arith)
  solve_pending_stake-IsSolvent unsigned s s' h v = absurd (ground arith)

  claim_native-IsSolvent :
      (o : Origin) (until_time : ℕ) (s s' : S c)
      → IsOutside c o
      → claim_native c o until_time s ≡ (ok tt, s')
      → IsSolvent c s
      → IsSolvent c s'
  unfolding claim_native
  claim_native-IsSolvent (signed who) until_time s s' out h v =
      Rests-IsSolvent c (do_native_claim-Rests c laws transfers who out until_time s s' h) v
  claim_native-IsSolvent root until_time s s' out h v = absurd (ground arith)
  claim_native-IsSolvent unsigned until_time s s' out h v = absurd (ground arith)

  claim_stable-IsSolvent :
      (o : Origin) (p until_time : ℕ) (s s' : S c)
      → IsOutside c o
      → claim_stable c o p until_time s ≡ (ok tt, s')
      → IsSolvent c s
      → IsSolvent c s'
  unfolding claim_stable
  claim_stable-IsSolvent (signed who) p until_time s s' out h v =
      do_stable_claim-IsSolvent c laws transfers who out p until_time s s' h v
  claim_stable-IsSolvent root p until_time s s' out h v = absurd (ground arith)
  claim_stable-IsSolvent unsigned p until_time s s' out h v = absurd (ground arith)

  paid_in_full :
      (who p now : ℕ) (s s' : S c)
      → who ≢ stable_token_beneficiary
      → (do_native_claim c who now >> (do_stable_claim c who p now >> do_withdraw c who p)) s
        ≡ (ok tt, s')
      → IsSolvent c s
      → IsSolvent c s'
  paid_in_full who p now s s' out h v =
      let (_, t, native, rest) =
        >>=-eq-ok (do_native_claim c who now)
          (λ _. do_stable_claim c who p now >> do_withdraw c who p) s h in
      let (_, u, stable, last) =
        >>=-eq-ok (do_stable_claim c who p now) (λ _. do_withdraw c who p) t rest in
      do_withdraw-IsSolvent c laws transfers who out p u s' last (
        do_stable_claim-IsSolvent c laws transfers who out p now t u stable
          (Rests-IsSolvent c (do_native_claim-Rests c laws transfers who out now s t native) v))

  withdraw-IsSolvent :
      (o : Origin) (p : ℕ) (s s' : S c)
      → IsOutside c o
      → withdraw c o p s ≡ (ok tt, s')
      → IsSolvent c s
      → IsSolvent c s'
  unfolding withdraw
  withdraw-IsSolvent (signed who) p s s' out h v =
      paid_in_full who p s.block_number s s' out (ground arith) v
  withdraw-IsSolvent root p s s' out h v = absurd (ground arith)
  withdraw-IsSolvent unsigned p s s' out h v = absurd (ground arith)

  call_of-IsSolvent :
      (o : Origin) (r : Request) (s s' : S c)
      → IsOutside c o
      → IsFirst c r s
      → call_of c o r s ≡ (ok tt, s')
      → IsSolvent c s
      → IsSolvent c s'
  call_of-IsSolvent o (create_staking_pools p st) s s' out first h v =
      Rests-IsSolvent c (create_staking_pool-Rests c o p st s s' h) v
  call_of-IsSolvent o (update_metadatas p name d) s s' out first h v =
      Rests-IsSolvent c (update_metadata-Rests c o p name d s s' h) v
  call_of-IsSolvent o (update_rewards p epoch reward) s s' out first h v =
      Shifts-IsSolvent c p 0 reward (update_reward-Shifts c mints o p epoch reward s s' h) v
  call_of-IsSolvent o (stakes p amount) s s' out first h v = stake-IsSolvent o p amount s s' out h v
  call_of-IsSolvent o solve_pending_stakes s s' out first h v =
      solve_pending_stake-IsSolvent o s s' h v
  call_of-IsSolvent o (claim_natives n) s s' out first h v = claim_native-IsSolvent o n s s' out h v
  call_of-IsSolvent o (claim_stables p n) s s' out first h v =
      claim_stable-IsSolvent o p n s s' out h v
  call_of-IsSolvent o (withdraws p) s s' out first h v = withdraw-IsSolvent o p s s' out h v
  call_of-IsSolvent o (regist_aiusds a) s s' out first h v =
      Rests-IsSolvent c (regist_aiusd-Rests c o a s s' first h) v

  -- If the fractions are at most one, and minting and transferring do what their documentation says: a
  -- dispatched call, by a signer other than the account in which the pallet keeps the stable tokens, by
  -- root or unsigned, whether it succeeds or fails, leaves that account holding at least what is
  -- staked in all pools, what waits for them and their unclaimed rewards together, if it did before and
  -- the asset is registered only where there is none.
  pub dispatch-IsSolvent :
      (o : Origin) (r : Request) (s : S c)
      → IsOutside c o
      → IsFirst c r s
      → IsSolvent c s
      → IsSolvent c (dispatch c o r s).1
  unfolding dispatch
  dispatch-IsSolvent o r s out first v =
      transactional-keeps (IsSolvent c) (call_of c o r) s
        (λ a t h. call_of-IsSolvent o r s t out first h v) v
