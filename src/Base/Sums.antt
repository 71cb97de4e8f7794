-- ===== src/Base/Sums.antt =====
-- A number that covers the sum of a function over any numbers, as often as none stands twice.
use can_bus.Base.Tests.{◌==◌}
use can_bus.Base.Lists.{contains, IsDistinct, sum_of}
use Prim.Native.Nat.{ℕ, ◌+◌, ◌≤◌}
use mathlib.Core.Path.{◌≡◌, refl}
use mathlib.Core.Logic.{◌≢◌, inl, inr}
use mathlib.Core.Bool.{true}
use mathlib.Core.List.{List, [], ◌∷◌}
use native.Mathlib.Omega.{arith}
use can_bus.Base.Tests.{Bool-cases}

abbrev pub Covers : (ℕ → ℕ) → ℕ → Type 0
Covers f n = (xs : List ℕ) → IsDistinct xs → sum_of f xs ≤ n

sum_of-le :
    (f g : ℕ → ℕ) (xs : List ℕ)
    → ((x : ℕ) → contains x xs ≡ true → g x ≤ f x)
    → sum_of g xs ≤ sum_of f xs
sum_of-le f g [] h = omega arith
sum_of-le f g (x ∷ xs) h =
    omega (arith, h x (ground arith), sum_of-le f g xs (λ y e. h y (ground arith)))

-- One summand may lose `out` and gain `gain`, and the others do not grow.
module _ (f g : ℕ → ℕ) (p out gain : ℕ) (here : g p + out ≤ f p + gain)
    (others : (q : ℕ) → q ≢ p → g q ≤ f q) where
  sum_of-shift :
      (xs : List ℕ) → IsDistinct xs → contains p xs ≡ true → sum_of g xs + out ≤ sum_of f xs + gain
  sum_of-shift [] d h = cc
  sum_of-shift (x ∷ xs) d h = elim (Bool-cases (p == x)) [
    | inl e ↦
        let same : x ≡ p = ground arith in
        let rest = sum_of-le f g xs (λ y k. others y (λ q. ground (arith, d.0))) in
        ground (arith, rest, here)
    | inr e ↦
        let rest = sum_of-shift xs d.1 (ground arith) in
        omega (arith, rest, others x (λ q. ground arith))
  ]

  pub Covers-shift : (n m : ℕ) → n + gain ≤ m + out → Covers f n → Covers g m
  Covers-shift n m fits covers xs d = elim (Bool-cases (contains p xs)) [
    | inl e ↦ omega (arith, sum_of-shift xs d e, covers xs d, fits)
    | inr e ↦
        let more = sum_of-shift (p ∷ xs) (e, d) (ground arith) in
        omega (arith, more, covers (p ∷ xs) (e, d), fits)
  ]

pub Covers-le : (f g : ℕ → ℕ) (n m : ℕ) → ((q : ℕ) → g q ≤ f q) → n ≤ m → Covers f n → Covers g m
Covers-le f g n m less fits covers xs d =
    omega (arith, sum_of-le f g xs (λ x e. less x), covers xs d, fits)

pub Covers-one : (f : ℕ → ℕ) (n p : ℕ) → Covers f n → f p ≤ n
Covers-one f n p covers = omega (arith, covers (p ∷ []) (refl, tt))

pub Covers-zero : (f : ℕ → ℕ) (n : ℕ) → ((x : ℕ) → f x ≡ 0) → Covers f n
Covers-zero f n zero [] d = omega arith
Covers-zero f n zero (x ∷ xs) d = omega (arith, zero x, Covers-zero f n zero xs d.1)
