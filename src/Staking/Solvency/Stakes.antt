-- ===== src/Staking/Solvency/Stakes.antt =====
-- What stakes, settlements and new rewards do to what the staking pallet owes and holds.
use can_bus.Base.{
  ℕ, ◌≡◌, ◌≢◌, ◌==◌, refl, ◌∙◌, Option, none, some, [], ◌∷◌, leb, Option-cases, Bool-cases, inl,
  inr, arith, List,
}
use can_bus.Frame.Call.{Origin, ok, modify, >>=-eq-ok}
use can_bus.Frame.Tokens.{TokenLaws, TransferLaws}
use can_bus.Staking.Info.{PoolSetting}
use can_bus.Staking.State.{Config, Storage, StakingInfoWithOwner}
use can_bus.Staking.Pending.{do_stable_add, do_native_add, solve_one, solve_from, solve_pending}
use can_bus.Staking.Pending.Queue.{Queue, time_of}
use can_bus.Staking.Pending.Solve.{mix-amount, solve_one_mixed}
use can_bus.Staking.Calls.{
  S, place, update_reward, create_staking_pool, update_metadata, regist_aiusd,
}
use can_bus.Staking.Calls.Rewarding.{update_reward-Rewards}
use can_bus.Staking.Solvency.{owed, Shifts, Rests}

module _ {W : Type 0} where
  -- What is owed to a pool, and what it is paid in and from, stay.
  record Owes (s s' : Storage W) : Type 0 where
    owes : (q : ℕ) → owed q s' ≡ owed q s
    reward : s'.pool_reward ≡ s.pool_reward
    world : s'.world ≡ s.world
    asset : s'.aiusd_asset_id ≡ s.aiusd_asset_id

  solve_one-Owes :
      (n : ℕ) (x : StakingInfoWithOwner) (s s' : Storage W)
      → solve_one n x s ≡ (ok tt, s')
      → Owes s s'
  unfolding solve_one do_stable_add
  solve_one-Owes n x s s' h =
      let (pool, user, e, e') = solve_one_mixed n x [] s s' h in
      let more = mix-amount _ _ _ pool e in
      record {
        owes = λ q. ground (arith, more);
        reward = ground arith;
        world = ground arith;
        asset = ground arith;
      }

  Owes-trans : {s t u : Storage W} → Owes s t → Owes t u → Owes s u
  Owes-trans a b = record {
    owes = λ q. b.owes q ∙ a.owes q;
    reward = b.reward ∙ a.reward;
    world = b.world ∙ a.world;
    asset = b.asset ∙ a.asset;
  }

  solve_from-Owes :
      (n : ℕ) (q left : Queue) (s s' : Storage W) → solve_from n q s ≡ (ok left, s') → Owes s s'
  unfolding solve_from
  solve_from-Owes n [] left s s' h =
      let same : s' ≡ s = ground arith in
      rw same (record { owes = λ q. refl; reward = refl; world = refl; asset = refl })
  solve_from-Owes n (x ∷ q) left s s' h = elim (Bool-cases (leb (time_of x) n)) [
    | inl due ↦
        let (_, t, first, rest) = >>=-eq-ok (solve_one n x) (λ _. solve_from n q) s (rw due at h) in
        Owes-trans (solve_one-Owes n x s t first) (solve_from-Owes n q left t s' rest)
    | inr early ↦
        let same : s' ≡ s = ground arith in
        rw same (record { owes = λ q. refl; reward = refl; world = refl; asset = refl })
  ]

  solve_pending-Owes : (n : ℕ) (s s' : Storage W) → solve_pending n s ≡ (ok tt, s') → Owes s s'
  unfolding solve_pending
  solve_pending-Owes n s s' h =
      let taken : Storage W = record s { pending_setup = [] } in
      let put = λ (left : Queue). λ (t : Storage W). record t { pending_setup = left } in
      let (left, t, loop, last) =
        >>=-eq-ok (solve_from n s.pending_setup) (λ left. modify (put left)) taken h in
      let d = solve_from-Owes n s.pending_setup left taken t loop in
      let final : s' ≡ put left t = ground arith in
      rw final (record { owes = d.owes; reward = d.reward; world = d.world; asset = d.asset })

module _ (c : Config) where
  open c use {tokens, stable_token_beneficiary}

  pub solve_pending-Rests : (n : ℕ) (s s' : S c) → solve_pending n s ≡ (ok tt, s') → Rests c s s'
  solve_pending-Rests n s s' h =
      let d = solve_pending-Owes n s s' h in
      record {
        owes = λ q. omega (arith, d.owes q);
        held = rw (d.world, d.asset) (omega arith);
        small = λ q e. rw d.reward e;
      }

  pub create_staking_pool-Rests :
      (o : Origin) (p : ℕ) (setting : PoolSetting) (s s' : S c)
      → create_staking_pool c o p setting s ≡ (ok tt, s')
      → Rests c s s'
  unfolding create_staking_pool
  create_staking_pool-Rests o p setting s s' h = record {
    owes = λ q. ground arith;
    held = ground arith;
    small = λ q e. ground arith;
  }

  pub update_metadata-Rests :
      (o : Origin) (p : ℕ) (name : Option (List ℕ)) (description : List ℕ) (s s' : S c)
      → update_metadata c o p name description s ≡ (ok tt, s')
      → Rests c s s'
  unfolding update_metadata
  update_metadata-Rests o p name description s s' h = record {
    owes = λ q. ground arith;
    held = ground arith;
    small = λ q e. ground arith;
  }

  -- Registering the asset where there is none.
  pub regist_aiusd-Rests :
      (o : Origin) (asset : ℕ) (s s' : S c)
      → s.aiusd_asset_id ≡ none
      → regist_aiusd c o asset s ≡ (ok tt, s')
      → Rests c s s'
  unfolding regist_aiusd
  regist_aiusd-Rests o asset s s' e h = record {
    owes = λ q. ground arith;
    held = ground arith;
    small = λ q f. ground arith;
  }

  pub update_reward-Shifts :
      (laws : TokenLaws tokens) (o : Origin) (p epoch reward : ℕ) (s s' : S c)
      → update_reward c o p epoch reward s ≡ (ok tt, s')
      → Shifts c p 0 reward s s'
  update_reward-Shifts laws o p epoch reward s s' h =
      let d = update_reward-Rewards c o p epoch reward s s' h in
      let ben = stable_token_beneficiary in
      let same : d.actual ≡ reward =
        laws.mint_amount (some d.asset) ben reward d.actual s.world s'.world d.mints in
      let more = laws.mint_balance (some d.asset) ben reward d.actual s.world s'.world d.mints in
      record {
        here = rw (d.stakes, d.pending) (omega (arith, d.total, same));
        others = λ q ne. rw (d.stakes, d.pending, d.others q ne) (omega arith);
        held = rw (d.same_asset, d.registered) (omega (arith, more));
        small = λ q f. elim (Bool-cases (q == p)) [
          | inl e ↦ ground (arith, d.small)
          | inr e ↦ ground (arith, d.others q)
        ];
      }

  pub place-Shifts :
      (transfers : TransferLaws tokens) (who p amount now b : ℕ) (s s' : S c)
      → who ≢ stable_token_beneficiary
      → place c who p amount now (b, s.pending_amount p) s ≡ (ok tt, s')
      → Shifts c p 0 amount s s'
  unfolding place do_native_add
  place-Shifts transfers who p amount now b s s' other h = elim (Option-cases s.aiusd_asset_id) [
    | inl a ↦ absurd (ground arith)
    | inr (asset, a) ↦
        let moves : tokens.transfer (some asset) who stable_token_beneficiary amount s.world
            ≡ (ok tt, s'.world) =
          ground arith in
        let same : s'.aiusd_asset_id ≡ some asset = ground arith in
        let paid =
          transfers.transfer_dest asset who stable_token_beneficiary amount s.world s'.world moves
            other in
        record {
          here = ground arith;
          others = λ q ne. ground arith;
          held = ground (arith, paid);
          small = λ q f. ground arith;
        }
  ]
