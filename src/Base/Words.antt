-- ===== src/Base/Words.antt =====
-- Checked arithmetic of the unsigned machine words (`checked_add` and the like): `none` where the
-- exact result does not fit the word of `bits` bits, on a zero divisor, or below zero.
use Prim.Native.Nat.{ℕ, ◌+◌, ◌-◌, ◌*◌, ◌/◌, ◌^◌, min}
use mathlib.Core.Option.{Option, none, some}
use can_bus.Base.Tests.{ltb, leb, ◌==◌, if◌then◌else◌}

-- `try_into` a narrower word.
abbrev pub fit : ℕ → ℕ → Option ℕ
fit bits n = if ltb n (2 ^ bits) then some n else none

abbrev pub checked_add : ℕ → ℕ → ℕ → Option ℕ
checked_add bits a b = fit bits (a + b)

abbrev pub checked_mul : ℕ → ℕ → ℕ → Option ℕ
checked_mul bits a b = fit bits (a * b)

abbrev pub checked_sub : ℕ → ℕ → Option ℕ
checked_sub a b = if leb b a then some (a - b) else none

abbrev pub checked_div : ℕ → ℕ → Option ℕ
checked_div a b = if b == 0 then none else some (a / b)

abbrev pub saturating_add : ℕ → ℕ → ℕ → ℕ
saturating_add bits a b = min (a + b) (2 ^ bits - 1)
