-- ===== src/Staking/Pending/Solve.antt =====
-- What `solve_pending` moves from the queue to the checkpoints.
use can_bus.Base.{
  ℕ, ◌+◌, ◌≤◌, ◌≡◌, refl, sym, ◌∙◌, Option, none, some, [], ◌∷◌, leb, Bool-cases, Option-cases, inl,
  inr, arith,
}
use can_bus.Frame.Error.{DispatchError}
use can_bus.Frame.Call.{ok, err, modify, >>=-eq-ok}
use can_bus.Staking.Info.{StakingInfo}
use can_bus.Staking.State.{Storage, StakingInfoWithOwner}
use can_bus.Staking.Pending.{mix, do_stable_add, solve_one, solve_from, solve_pending, begin_block}
use can_bus.Staking.Pending.Queue.{
  Queue, IsSorted, time_of, queued, user_queued, later, later_sorted,
}

abbrev pub amount_of : Option StakingInfo → ℕ
amount_of none = 0
amount_of (some checkpoint) = checkpoint.amount

pub mix-amount :
    (old : Option StakingInfo) (e a : ℕ) (c : StakingInfo)
    → mix old e a ≡ some c
    → c.amount ≡ amount_of old + a
unfolding mix
mix-amount none e a c h = ground arith
mix-amount (some o) e a c h = ground arith

module _ {W : Type 0} where
  abbrev pub staked : ℕ → Storage W → ℕ
  staked p s = amount_of (s.pool_checkpoint p)

  abbrev pub user_staked : ℕ → ℕ → Storage W → ℕ
  user_staked a p s = amount_of (s.user_pool_checkpoint a p)

  -- From queue `q` and storage `s` to queue `q'` and storage `s'`: each pool and each user holds
  -- with the queue what it held, and the rest of the storage that stakes live in is as it was.
  pub record Settles (q : Queue) (s : Storage W) (q' : Queue) (s' : Storage W) : Type 0 where
    pub pending :
        ((p : ℕ) → s.pending_amount p ≡ queued p q) → (p : ℕ) → s'.pending_amount p ≡ queued p q'
    pub pool : (p : ℕ) → staked p s' + queued p q' ≡ staked p s + queued p q
    pub user :
        (a p : ℕ) → user_staked a p s' + user_queued a p q' ≡ user_staked a p s + user_queued a p q
    pub setting : s'.pool_setting ≡ s.pool_setting
    pub world : s'.world ≡ s.world
    pub native : s'.native_checkpoint ≡ s.native_checkpoint
    pub user_native : s'.user_native_checkpoint ≡ s.user_native_checkpoint

  module _ (n : ℕ) (x : StakingInfoWithOwner) (q : Queue) (s s' : Storage W)
      (h : solve_one n x s ≡ (ok tt, s')) where
    pub solve_one_mixed :
        (pool user : StakingInfo) × (mix (s.pool_checkpoint x.pool_id) n x.staking_info.amount
          ≡ some pool)
        × (mix (s.user_pool_checkpoint x.who x.pool_id) n x.staking_info.amount ≡ some user)
    unfolding solve_one do_stable_add
    solve_one_mixed =
        elim (Option-cases (mix (s.pool_checkpoint x.pool_id) n x.staking_info.amount)) [
          | inl e ↦ absurd (ground arith)
          | inr (pool, e) ↦
              elim (Option-cases
                (mix (s.user_pool_checkpoint x.who x.pool_id) n x.staking_info.amount)) [
                  | inl e' ↦ absurd (ground arith)
                  | inr (user, e') ↦ (pool, user, e, e')
                ]
        ]

    pub solve_one-Settles : Settles (x ∷ q) s q s'
    unfolding solve_one do_stable_add
    solve_one-Settles =
        let (pool, user, e, e') = solve_one_mixed in
        let more = mix-amount _ _ _ pool e in
        let user_more = mix-amount _ _ _ user e' in
        record {
          pending = λ b p. ground (arith, b p);
          pool = λ p. ground (arith, more);
          user = λ a p. ground (arith, user_more);
          setting = ground arith;
          world = ground arith;
          native = ground arith;
          user_native = ground arith;
        }

  Settles-refl : (q : Queue) (s : Storage W) → Settles q s q s
  Settles-refl q s = record {
    pending = λ b. b;
    pool = λ p. refl;
    user = λ a p. refl;
    setting = refl;
    world = refl;
    native = refl;
    user_native = refl;
  }

  Settles-trans :
      {q r u : Queue} {s t v : Storage W} → Settles q s r t → Settles r t u v → Settles q s u v
  Settles-trans a b = record {
    pending = λ h. b.pending (a.pending h);
    pool = λ p. omega (arith, a.pool p, b.pool p);
    user = λ x p. omega (arith, a.user x p, b.user x p);
    setting = b.setting ∙ a.setting;
    world = b.world ∙ a.world;
    native = b.native ∙ a.native;
    user_native = b.user_native ∙ a.user_native;
  }

  -- The loop on a sorted queue stops at the entries that are not effective.
  pub solve_from-Settles :
      (n : ℕ) (q left : Queue) (s s' : Storage W)
      → solve_from n q s ≡ (ok left, s')
      → Settles q s left s' × (IsSorted q → left ≡ later n q)
  unfolding solve_from later
  solve_from-Settles n [] left s s' h =
      let same : left ≡ [] = ground arith in
      let kept : s' ≡ s = ground arith in (rw (same, kept) (Settles-refl [] s), λ _. same)
  solve_from-Settles n (x ∷ q) left s s' h = elim (Bool-cases (leb (time_of x) n)) [
    | inl due ↦
        let (_, t, first, rest) = >>=-eq-ok (solve_one n x) (λ _. solve_from n q) s (rw due at h) in
        let (settled, partition) = solve_from-Settles n q left t s' rest in
        (
          Settles-trans (solve_one-Settles n x q s t first) settled,
          λ sorted. ground (arith, partition sorted.1),
        )
    | inr early ↦
        let same : left ≡ x ∷ q = ground arith in
        let kept : s' ≡ s = ground arith in
        (
          rw (same, kept) (Settles-refl (x ∷ q) s),
          λ sorted. same ∙ sym (later_sorted n x q sorted (ground arith)),
        )
  ]

  -- Where `solve_pending` succeeds, the queue keeps exactly the entries that are not effective at
  -- block `n`, in their order, and each pool's and each user's stake has grown by exactly what left
  -- the queue for it. If the pending amounts were those of the queue they still are.
  pub solve_pending-Settles :
      (n : ℕ) (s s' : Storage W)
      → IsSorted s.pending_setup
      → solve_pending n s ≡ (ok tt, s')
      → (s'.pending_setup ≡ later n s.pending_setup) × Settles s.pending_setup s s'.pending_setup s'
  unfolding solve_pending
  solve_pending-Settles n s s' sorted h =
      let s₀ : Storage W = record s { pending_setup = [] } in
      let put = λ (left : Queue). λ (t : Storage W). record t { pending_setup = left } in
      let (left, t, loop, last) =
        >>=-eq-ok (solve_from n s.pending_setup) (λ left. modify (put left)) s₀ h in
      let (d, partition) = solve_from-Settles n s.pending_setup left s₀ t loop in
      let final : s' ≡ put left t = ground arith in
      let done : Settles s.pending_setup s left (put left t) = record {
        pending = d.pending;
        pool = d.pool;
        user = d.user;
        setting = d.setting;
        world = d.world;
        native = d.native;
        user_native = d.user_native;
      } in
      rw final (partition sorted, done)

  solve_one-pending_setup :
      (n : ℕ) (x : StakingInfoWithOwner) (s : Storage W)
      → (solve_one n x s).1.pending_setup ≡ s.pending_setup
  unfolding solve_one do_stable_add
  solve_one-pending_setup n x s = ground arith

  solve_from-pending_setup :
      (n : ℕ) (q : Queue) (s : Storage W) → (solve_from n q s).1.pending_setup ≡ s.pending_setup
  unfolding solve_from
  solve_from-pending_setup n [] s = refl
  solve_from-pending_setup n (x ∷ q) s =
      ground
        (arith, solve_one-pending_setup n x s, solve_from-pending_setup n q (solve_one n x s).1)

  -- When `begin_block` finds that the first entry is due and `solve_pending` fails, the error is dropped and the
  -- whole queue is gone, the entries that are not yet due among it.
  pub begin_block_loses_queue :
      (n : ℕ) (x : StakingInfoWithOwner) (q : Queue) (s t : Storage W) (e : DispatchError)
      → s.pending_setup ≡ x ∷ q
      → time_of x ≤ n
      → solve_pending n s ≡ (err e, t)
      → (begin_block n s).pending_setup ≡ []
  unfolding begin_block solve_pending
  begin_block_loses_queue n x q s t e at due h =
      ground (arith, solve_from-pending_setup n s.pending_setup (record s { pending_setup = [] }))
