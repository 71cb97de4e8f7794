-- ===== src/Frame/Perquintill.antt =====
-- sp_runtime's `Perquintill`, a fraction in units of 10^-18, as the sources call it. It is a
-- parameter of the model; `PerquintillLaws` states what its documentation promises.
use can_bus.Base.{ℕ, ◌≤◌, ◌^◌}

pub record Perquintill : Type 0 where
  -- `Perquintill::from_rational(p, q)`, in parts.
  pub from_rational : ℕ → ℕ → ℕ
  -- `proportion * x` on u128.
  pub mul : ℕ → ℕ → ℕ

abbrev pub accuracy : ℕ
accuracy = 10 ^ 18

pub record PerquintillLaws (q : Perquintill) : Type 0 where
  -- A ratio above one is capped.
  pub from_rational-le-one : (a b : ℕ) → q.from_rational a b ≤ accuracy
  -- At most one times `x` is at most `x`.
  pub mul-le : (r x : ℕ) → r ≤ accuracy → q.mul r x ≤ x
