-- ===== src/Staking/Info/Weights.antt =====
-- What the checkpoint methods of `StakingInfo` do to the staking weight, the product of the staked
-- amount and the time since it became effective.
use native.Mathlib.Nat.{
  sub_self, div-mul-le_self, lt-div-mul-add, mul-le-mul_right, le_of_mul-le-mul_right,
  lt_of_mul-lt-mul_right,
}
use can_bus.Base.{ℕ, suc, ◌+◌, ◌-◌, ◌*◌, ◌/◌, ◌%◌, ◌^◌, ◌≤◌, ◌<◌, ◌≡◌, ap, min, max, some, arith}
use can_bus.Staking.Info.{
  StakingInfo, position, add, weight, weight_force, claim, claim_based_on_weight,
}

average_between :
    (a s oe e m : ℕ)
    → 0 < a + s
    → m * (a + s) ≤ oe * a + e * s
    → oe * a + e * s < m * (a + s) + (a + s)
    → (min oe e ≤ m) × (m ≤ max oe e)
average_between a s oe e m pos lo hi =
    let low : min oe e < suc m = lt_of_mul-lt-mul_right (a + s) (
      omega (
        arith,
        mul-le-mul_right {m = min oe e} {n = oe} a (omega arith),
        mul-le-mul_right {m = min oe e} {n = e} s (omega arith),
      )) in
    let high : m ≤ max oe e =
      le_of_mul-le-mul_right {k = a + s}
        (omega (
          arith,
          mul-le-mul_right {m = oe} {n = max oe e} a (omega arith),
          mul-le-mul_right {m = e} {n = max oe e} s (omega arith),
        ))
        pos in
    (omega (arith, low), high)

sub_mul : (n m t : ℕ) → m ≤ n → (n - m) * t + m * t ≡ n * t
sub_mul n m t h = let e : n - m + m ≡ n = omega arith in omega (arith, ap (λ (x : ℕ). x * t) e)

average_weight :
    (a s oe e m n : ℕ)
    → oe ≤ n
    → e ≤ n
    → m ≤ n
    → m * (a + s) ≤ oe * a + e * s
    → oe * a + e * s < m * (a + s) + (a + s)
    → ((n - oe) * a + (n - e) * s ≤ (n - m) * (a + s))
      × ((n - m) * (a + s) < (n - oe) * a + (n - e) * s + (a + s))
average_weight a s oe e m n p q r lo hi =
    let old = sub_mul n oe a p in
    let new = sub_mul n e s q in
    let both = sub_mul n m (a + s) r in
    (omega (arith, old, new, both), omega (arith, old, new, both))

-- The weight of a span that starts `d` later.
gap_mul : (n e d t : ℕ) → d ≤ n - e → (n - (e + d)) * t + d * t ≡ (n - e) * t
gap_mul n e d t h =
    let parts : n - (e + d) + d ≡ n - e = omega arith in omega (arith, ap (λ (x : ℕ). x * t) parts)

-- What `add` computes, where it succeeds.
add_fields :
    (c c' : StakingInfo) (e s : ℕ)
    → add c e s ≡ some c'
    → (c'.amount ≡ c.amount + s)
      × (0 < c'.amount)
      × (c'.effective_time ≡ (c.effective_time * c.amount + e * s) / c'.amount)
      × (c'.last_add_time ≡ max c.last_add_time e)
unfolding add
add_fields c c' e s h = ground arith

weight_force_value :
    (c : StakingInfo) (n w : ℕ)
    → weight_force c n ≡ some w
    → (c.effective_time ≤ n) × (w ≡ (n - c.effective_time) * c.amount)
unfolding weight_force
weight_force_value c n w h = ground arith

-- The new effective time is the weighted average, rounded down.
add_average :
    (c c' : StakingInfo) (e s : ℕ)
    → add c e s ≡ some c'
    → (c'.effective_time * (c.amount + s) ≤ c.effective_time * c.amount + e * s)
      × (c.effective_time * c.amount + e * s < c'.effective_time * (c.amount + s) + (c.amount + s))
add_average c c' e s h =
    let (sum, pos, avg, _) = add_fields c c' e s h in
    rw (avg, ← sum) (div-mul-le_self _ _, lt-div-mul-add pos)

-- `add` mixes two positions into one. Where it succeeds the amounts are summed, the effective time
-- lies between the two, and at every block `n` at which all three positions have a weight the
-- mixture weighs at least as much as the two together and less than one block's weight more.
pub add-weight :
    (c c' : StakingInfo) (e s n w v w' : ℕ)
    → add c e s ≡ some c'
    → weight_force c n ≡ some w
    → weight_force (position e s) n ≡ some v
    → weight_force c' n ≡ some w'
    → (c'.amount ≡ c.amount + s)
      × (min c.effective_time e ≤ c'.effective_time)
      × (c'.effective_time ≤ max c.effective_time e)
      × (w + v ≤ w')
      × (w' < w + v + c'.amount)
add-weight c c' e s n w v w' h hw hv hw' =
    let (sum, pos, _, _) = add_fields c c' e s h in
    let (lo, hi) = add_average c c' e s h in
    let (p, ew) = weight_force_value c n w hw in
    let (q, ev) = weight_force_value (position e s) n v hv in
    let (r, ew') = weight_force_value c' n w' hw' in
    let mean =
      average_between c.amount s c.effective_time e c'.effective_time (omega arith) lo hi in
    let both = average_weight c.amount s c.effective_time e c'.effective_time n p q r lo hi in
    let total : w' ≡ (n - c'.effective_time) * (c.amount + s) = rw (← sum) ew' in
    (sum, mean.0, mean.1, omega (arith, both, total, ew, ev), omega (arith, both, total, ew, ev))

weight_force_lem :
    (c : StakingInfo) (n : ℕ)
    → c.effective_time ≤ n
    → (n - c.effective_time) * c.amount < 2 ^ 128
    → weight_force c n ≡ some ((n - c.effective_time) * c.amount)
unfolding weight_force
weight_force_lem c n p q = ground arith

weight_force_fits : (c : StakingInfo) (n w : ℕ) → weight_force c n ≡ some w → w < 2 ^ 128
unfolding weight_force
weight_force_fits c n w h = ground arith

claim_based_on_weight_fields :
    (c c' : StakingInfo) (claimed t : ℕ)
    → claim_based_on_weight c claimed ≡ some (c', t)
    → (0 < c.amount)
      × (c'.amount ≡ c.amount)
      × (c'.effective_time ≡ (c.effective_time + claimed / c.amount) % 2 ^ 128)
unfolding claim_based_on_weight
claim_based_on_weight_fields c c' claimed t h = ground arith

-- The pool's checkpoint after a user's weight `claimed`, at most the whole weight, is taken out of it
-- at a block of 32 bits: it keeps its amount, its effective time moves on to at most that block, the
-- weight that is left is at least the difference, and exceeds it by less than one block's weight.
-- So what one user claims is never taken from the weight of the others.
pub claim_based_on_weight-weight :
    (c c' : StakingInfo) (n w claimed t : ℕ)
    → n < 2 ^ 32
    → weight_force c n ≡ some w
    → claimed ≤ w
    → claim_based_on_weight c claimed ≡ some (c', t)
    → (c'.amount ≡ c.amount)
      × (c.effective_time ≤ c'.effective_time)
      × (c'.effective_time ≤ n)
      × ((r : ℕ) × (weight_force c' n ≡ some r) × (w ≤ r + claimed) × (r + claimed < w + c.amount))
claim_based_on_weight-weight c c' n w claimed t small hw le h =
    let (pos, same, moved) = claim_based_on_weight_fields c c' claimed t h in
    let (p, ew) = weight_force_value c n w hw in
    let fits = weight_force_fits c n w hw in
    let d = claimed / c.amount in
    let low : d * c.amount ≤ claimed = div-mul-le_self claimed c.amount in
    let high : claimed < d * c.amount + c.amount = lt-div-mul-add pos in
    let short : d ≤ n - c.effective_time =
      le_of_mul-le-mul_right {k = c.amount} (omega (arith, low, le, ew)) pos in
    let exact : c'.effective_time ≡ c.effective_time + d = omega (arith, moved, short, p, small) in
    let within : c'.effective_time ≤ n = omega (arith, exact, short, p) in
    let left : (n - c'.effective_time) * c'.amount + d * c.amount ≡ w =
      rw (same, exact, ew) (gap_mul n c.effective_time d c.amount short) in
    (
      same,
      omega (arith, exact),
      within,
      (
        (n - c'.effective_time) * c'.amount,
        weight_force_lem c' n within (omega (arith, left, fits)),
        omega (arith, left, low),
        omega (arith, left, high),
      ),
    )

-- A claim takes the whole weight: a second claim in the same block finds none, and the position
-- keeps its amount.
pub claim-claim :
    (c c' : StakingInfo) (n w : ℕ)
    → claim c n ≡ some (c', w)
    → (weight c n ≡ some w) × (c'.amount ≡ c.amount) × (claim c' n ≡ some (c', 0))
unfolding claim weight
claim-claim c c' n w h =
    let none_left : (n - n) * c.amount ≡ 0 = rw (sub_self n) (omega arith) in ground arith
