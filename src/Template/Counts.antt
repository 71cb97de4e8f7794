-- ===== src/Template/Counts.antt =====
-- What repeated calls of `cause_error` add up to.
use can_bus.Base.{
  ℕ, zero, suc, ◌+◌, ◌≤◌, ◌<◌, ◌-◌, ◌^◌, ◌≡◌, ◌∙◌, refl, ap, some, min, ltb, Bool-cases, inl, inr,
  arith,
}
use can_bus.Frame.Error.{template, storage_overflow}
use can_bus.Frame.Call.{signed, ok, err}
use can_bus.Template.{Storage, cause_error, dispatch, cause_errors}

-- The storage after `k` extrinsics of one signer, each of which is dispatched on its own.
abbrev pub after_errors : ℕ → ℕ → Storage → Storage
after_errors who zero s = s
after_errors who (suc k) s = after_errors who k (dispatch (signed who) cause_errors s).1

increments :
    (who n : ℕ) (s : Storage)
    → s.something ≡ some n
    → n + 1 < 2 ^ 32
    → dispatch (signed who) cause_errors s ≡ (ok tt, record s { something = some (n + 1) })
unfolding dispatch cause_error
increments who n s e fits = ground arith

overflows :
    (who n : ℕ) (s : Storage)
    → s.something ≡ some n
    → 2 ^ 32 ≤ n + 1
    → dispatch (signed who) cause_errors s ≡ (err (template storage_overflow), s)
unfolding dispatch cause_error
overflows who n s e full = ground arith

-- From a stored value below 2^32, however many signed calls of `cause_error` are dispatched one after
-- another, the value is raised by their number but stays at 2^32 - 1 once it is there, and nothing else changes.
pub after_errors_saturates :
    (who k n : ℕ) (s : Storage)
    → s.something ≡ some n
    → n < 2 ^ 32
    → after_errors who k s ≡ record s { something = some (min (n + k) (2 ^ 32 - 1)) }
after_errors_saturates who zero n s e fits = ground arith
after_errors_saturates who (suc k) n s e fits = elim (Bool-cases (ltb (n + 1) (2 ^ 32))) [
  | inl more ↦
      let step : (dispatch (signed who) cause_errors s).1 ≡ record s { something = some (n + 1) } =
        ap (λ r. r.1) (increments who n s e (ground arith)) in
      let rest =
        after_errors_saturates who k (n + 1) (record s { something = some (n + 1) }) refl
          (ground arith) in
      let sum : n + 1 + k ≡ n + suc k = omega arith in
      rw step (rest ∙ ap (λ m. record s { something = some (min m (2 ^ 32 - 1)) }) sum)
  | inr full ↦
      let step : (dispatch (signed who) cause_errors s).1 ≡ s =
        ap (λ r. r.1) (overflows who n s e (ground arith)) in
      let rest = after_errors_saturates who k n s e fits in
      let high : 2 ^ 32 ≤ n + 1 = ground arith in
      let level : min (n + k) (2 ^ 32 - 1) ≡ min (n + suc k) (2 ^ 32 - 1) =
        omega (arith, fits, high) in
      rw step (rest ∙ ap (λ m. record s { something = some m }) level)
]
