-- ===== src/Staking/Pending/Progress.antt =====
-- The progress of `solve_pending`.
use native.Mathlib.Nat.{mul-le-mul_right, div-mul-le_self, le_of_mul-le-mul_right}
use can_bus.Base.{
  ℕ, max, true, checked_add, checked_mul, checked_div, fit, ◌+◌, ◌-◌, ◌*◌, ◌/◌, ◌^◌, ◌≤◌, ◌<◌, ◌≡◌,
  refl, Option, none, some, [], ◌∷◌, leb, All, Bool-cases, inl, inr, arith,
}
use can_bus.Frame.Call.{ok, modify, run_on}
use can_bus.Frame.Storage.{insert, insert₂}
use can_bus.Staking.Info.{StakingInfo, add}
use can_bus.Staking.State.{Storage, StakingInfoWithOwner, pending_staking_solved}
use can_bus.Staking.Pending.{mix, do_stable_add, solve_one, solve_from, solve_pending}
use can_bus.Staking.Pending.Queue.{Queue, time_of, queued, user_queued}
use can_bus.Staking.Pending.Solve.{amount_of, staked, user_staked, solve_one-Settles}

-- The time since which a checkpoint counts is that of a block.
abbrev pub IsTimed : Option StakingInfo → Type 0
IsTimed none = Unit
IsTimed (some checkpoint) = checkpoint.effective_time < 2 ^ 32

weighted_bound : (t e a s : ℕ) → t < 2 ^ 32 → e < 2 ^ 32 → t * a + e * s ≤ (2 ^ 32 - 1) * (a + s)
weighted_bound t e a s ht he = omega (
  arith,
  mul-le-mul_right {m = t} {n = 2 ^ 32 - 1} a (omega (arith, ht)),
  mul-le-mul_right {m = e} {n = 2 ^ 32 - 1} s (omega (arith, he)),
)

average_fits : (w k : ℕ) → 0 < k → w ≤ (2 ^ 32 - 1) * k → w / k < 2 ^ 32
average_fits w k pos h =
    let low : w / k ≤ 2 ^ 32 - 1 =
      le_of_mul-le-mul_right {k = k} (omega (arith, h, div-mul-le_self w k)) pos in
    omega (arith, low)

add_succeeds :
    (c : StakingInfo) (e s : ℕ)
    → 0 < s
    → c.effective_time < 2 ^ 32
    → e < 2 ^ 32
    → c.amount + s < 2 ^ 95
    → (c' : StakingInfo) × (add c e s ≡ some c') × (c'.effective_time < 2 ^ 32)
unfolding add
add_succeeds c e s pos ht he small =
    let bound = weighted_bound c.effective_time e c.amount s ht he in
    let average =
      average_fits (c.effective_time * c.amount + e * s) (c.amount + s) (omega (arith, pos))
        bound in
    let both : c.effective_time * c.amount + e * s < 2 ^ 128 = omega (arith, bound, small) in
    let sum : checked_add 128 c.amount s ≡ some (c.amount + s) = ground arith in
    let old : checked_mul 128 c.effective_time c.amount ≡ some (c.effective_time * c.amount) =
      ground arith in
    let new : checked_mul 128 e s ≡ some (e * s) = ground arith in
    let weighted : checked_add 128 (c.effective_time * c.amount) (e * s)
        ≡ some (c.effective_time * c.amount + e * s) =
      ground arith in
    let mean : checked_div (c.effective_time * c.amount + e * s) (c.amount + s)
        ≡ some ((c.effective_time * c.amount + e * s) / (c.amount + s)) =
      ground arith in
    let time : fit 32 ((c.effective_time * c.amount + e * s) / (c.amount + s))
        ≡ some ((c.effective_time * c.amount + e * s) / (c.amount + s)) =
      ground arith in
    let mixed : StakingInfo = record {
      effective_time = (c.effective_time * c.amount + e * s) / (c.amount + s);
      amount = c.amount + s;
      last_add_time = max c.last_add_time e;
    } in
    (mixed, rw (sum, old, new, weighted, mean, time) refl, average)

mix_succeeds :
    (old : Option StakingInfo) (e s : ℕ)
    → 0 < s
    → IsTimed old
    → e < 2 ^ 32
    → amount_of old + s < 2 ^ 95
    → (c : StakingInfo) × (mix old e s ≡ some c) × (c.effective_time < 2 ^ 32)
unfolding mix
mix_succeeds none e s pos t he small = (_, refl, he)
mix_succeeds (some c) e s pos t he small = add_succeeds c e s pos t he small

module _ {W : Type 0} where
  -- Every entry of queue `q` can be settled in storage `s`: it stakes something, the pending amounts
  -- cover it, and no position is too large or of a later time than a block can have.
  pub record IsReady (q : Queue) (s : Storage W) : Type 0 where
    pub positive : All (λ x. 0 < x.staking_info.amount) q
    pub pending : (p : ℕ) → s.pending_amount p ≡ queued p q
    pub pool : (p : ℕ) → IsTimed (s.pool_checkpoint p)
    pub user : (a p : ℕ) → IsTimed (s.user_pool_checkpoint a p)
    pub pool_room : (p : ℕ) → staked p s + queued p q < 2 ^ 95
    pub user_room : (a p : ℕ) → user_staked a p s + user_queued a p q < 2 ^ 95

  abbrev solved : ℕ → StakingInfoWithOwner → StakingInfo → StakingInfo → Storage W → Storage W
  solved n x pool user s = record s {
    pool_checkpoint = insert x.pool_id (some pool) s.pool_checkpoint;
    user_pool_checkpoint = insert₂ x.who x.pool_id (some user) s.user_pool_checkpoint;
    events = pending_staking_solved x.who x.pool_id n x.staking_info.amount ∷ s.events;
    pending_amount =
        insert x.pool_id (s.pending_amount x.pool_id - x.staking_info.amount) s.pending_amount;
  }

  solve_one-solved :
      (n : ℕ) (x : StakingInfoWithOwner) (pool user : StakingInfo) (s : Storage W)
      → mix (s.pool_checkpoint x.pool_id) n x.staking_info.amount ≡ some pool
      → mix (s.user_pool_checkpoint x.who x.pool_id) n x.staking_info.amount ≡ some user
      → leb x.staking_info.amount (s.pending_amount x.pool_id) ≡ true
      → solve_one n x s ≡ (ok tt, solved n x pool user s)
  unfolding solve_one do_stable_add
  solve_one-solved n x pool user s e e' left = ground arith

  module _ (n : ℕ) (x : StakingInfoWithOwner) (q : Queue) (s : Storage W) (block : n < 2 ^ 32)
      (r : IsReady (x ∷ q) s) where
    solve_one_succeeds :
        (s' : Storage W) × (solve_one n x s ≡ (ok tt, s'))
        × ((p : ℕ) → IsTimed (s'.pool_checkpoint p))
        × ((a p : ℕ) → IsTimed (s'.user_pool_checkpoint a p))
    solve_one_succeeds =
        let p = x.pool_id in
        let amount = x.staking_info.amount in
        let (pool, e, pool_time) =
          mix_succeeds (s.pool_checkpoint p) n amount r.positive.0 (r.pool p) block
            (ground (arith, r.pool_room p)) in
        let (user, e', user_time) =
          mix_succeeds (s.user_pool_checkpoint x.who p) n amount r.positive.0 (r.user x.who p) block
            (ground (arith, r.user_room x.who p)) in
        (
          solved n x pool user s,
          solve_one-solved n x pool user s e e' (ground (arith, r.pending p)),
          (λ j. ground (arith, r.pool j, pool_time)),
          (λ a j. ground (arith, r.user a j, user_time)),
        )

  -- The loop goes through.
  solve_from-due :
      (n : ℕ) (x : StakingInfoWithOwner) (q left : Queue) (s t s' : Storage W)
      → leb (time_of x) n ≡ true
      → solve_one n x s ≡ (ok tt, t)
      → solve_from n q t ≡ (ok left, s')
      → solve_from n (x ∷ q) s ≡ (ok left, s')
  unfolding solve_from
  solve_from-due n x q left s t s' due one rest =
      rw due (run_on (solve_one n x) (λ _. solve_from n q) s t one rest)

  solve_from_succeeds :
      (n : ℕ) (q : Queue) (s : Storage W)
      → n < 2 ^ 32
      → IsReady q s
      → (left : Queue) × (s' : Storage W) × (solve_from n q s ≡ (ok left, s'))
  unfolding solve_from
  solve_from_succeeds n [] s block r = ([], s, refl)
  solve_from_succeeds n (x ∷ q) s block r = elim (Bool-cases (leb (time_of x) n)) [
    | inr early ↦ (x ∷ q, s, rw early refl)
    | inl due ↦
        let (t, one, pool, user) = solve_one_succeeds n x q s block r in
        let d = solve_one-Settles n x q s t one in
        let (left, s', rest) = solve_from_succeeds n q t block (record {
          positive = r.positive.1;
          pending = d.pending r.pending;
          pool = pool;
          user = user;
          pool_room = λ p. omega (arith, d.pool p, r.pool_room p);
          user_room = λ a p. omega (arith, d.user a p, r.user_room a p);
        }) in
        (left, s', solve_from-due n x q left s t s' due one rest)
  ]

  solve_pending-loop :
      (n : ℕ) (s : Storage W) (left : Queue) (t : Storage W)
      → solve_from n s.pending_setup (record s { pending_setup = [] }) ≡ (ok left, t)
      → solve_pending n s ≡ (ok tt, record t { pending_setup = left })
  unfolding solve_pending
  solve_pending-loop n s left t loop =
      run_on (solve_from n s.pending_setup)
        (λ left'. modify (λ s'. record s' { pending_setup = left' }))
        (record s { pending_setup = [] }) t loop refl

  -- In a block of 32 bits `solve_pending` succeeds where every entry of the queue stakes something, the
  -- pending amounts are those of the queue, every position counts since a block of 32 bits, and what
  -- pools and users hold, the queue counted in, is below 2^95.
  pub solve_pending_succeeds :
      (n : ℕ) (s : Storage W)
      → n < 2 ^ 32
      → IsReady s.pending_setup s
      → (s' : Storage W) × (solve_pending n s ≡ (ok tt, s'))
  solve_pending_succeeds n s block r =
      let taken : Storage W = record s { pending_setup = [] } in
      let ready : IsReady s.pending_setup taken = record {
        positive = r.positive;
        pending = r.pending;
        pool = r.pool;
        user = r.user;
        pool_room = r.pool_room;
        user_room = r.user_room;
      } in
      let (left, t, loop) = solve_from_succeeds n s.pending_setup taken block ready in
      (record t { pending_setup = left }, solve_pending-loop n s left t loop)
