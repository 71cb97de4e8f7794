-- ===== src/Frame/Call.antt =====
-- A handler as an action on its storage. What was written before an error stays written, as in the
-- source; `transactional` undoes it, and FRAME puts every dispatched call under it.
use can_bus.Base.{
  ℕ, ◌∙◌, ◌≡◌, ◌⊎◌, inl, inr, refl, ap, arith, Bool, true, false, Option, none, some,
}
use can_bus.Frame.Error.{DispatchError, bad_origin}

pub data Result {ℓ} (A : Type ℓ) : Type ℓ where
  ok : A → Result A
  err : DispatchError → Result A

abbrev pub Call {ℓ} : Type ℓ → Type ℓ → Type ℓ
Call S A = S → Result A × S

module _ {ℓ} {S A : Type ℓ} where
  abbrev pub pure : A → Call S A
  pure a s = (ok a, s)

  abbrev pub fail : DispatchError → Call S A
  fail e s = (err e, s)

  abbrev pub gets : (S → A) → Call S A
  gets f s = (ok (f s), s)

  -- `Option::ok_or(e)?`
  abbrev pub ok_or : Option A → DispatchError → Call S A
  ok_or none e = fail e
  ok_or (some a) e = pure a

  -- `#[transactional]`: an error leaves the storage as it was before the call.
  abbrev pub transactional : Call S A → Call S A
  transactional m s = let (r, s') = m s in elim r [ ok a ↦ (ok a, s') | err e ↦ (err e, s) ]

infixl 5 ◌>>=◌ ◌>>◌
abbrev pub ◌>>=◌ {ℓ} : {S A B : Type ℓ} → Call S A → (A → Call S B) → Call S B
◌>>=◌ m f s = let (r, s') = m s in elim r [ ok a ↦ f a s' | err e ↦ (err e, s') ]

abbrev pub ◌>>◌ {ℓ} : {S A B : Type ℓ} → Call S A → Call S B → Call S B
m >> k = m >>= λ _. k

abbrev pub get : {S : Type 0} → Call S S
get s = (ok s, s)

abbrev pub modify : {S : Type 0} → (S → S) → Call S (Unit {0})
modify f s = (ok tt, f s)

-- `ensure!`
abbrev pub ensure : {S : Type 0} → Bool → DispatchError → Call S (Unit {0})
ensure true e = pure tt
ensure false e = fail e

-- `frame_system::RawOrigin` with account identifiers as numbers.
pub data Origin : Type 0 where
  root : Origin
  signed : ℕ → Origin
  unsigned : Origin

-- `ensure_signed`
abbrev pub ensure_signed : {S : Type 0} → Origin → Call S ℕ
ensure_signed (signed who) = pure who
ensure_signed root = fail bad_origin
ensure_signed unsigned = fail bad_origin

-- `EnsureRoot`, which runtime/src/lib.rs gives for each administrative origin.
abbrev pub ensure_root : {S : Type 0} → Origin → Call S (Unit {0})
ensure_root root = pure tt
ensure_root (signed who) = fail bad_origin
ensure_root unsigned = fail bad_origin

-- A `do` block that succeeds: its first step did, and the rest did from there.
module _ {S A B : Type 0} where
  abbrev continue : (A → Call S B) → Result A × S → Result B × S
  continue f r = elim r.0 [ ok a ↦ f a r.1 | err e ↦ (err e, r.1) ]

  continue-eq-ok :
      (r : Result A × S) (f : A → Call S B) {b : B} {s' : S}
      → continue f r ≡ (ok b, s')
      → (a : A) × (t : S) × (r ≡ (ok a, t)) × (f a t ≡ (ok b, s'))
  continue-eq-ok (ok a, s) f h = (a, s, refl, h)
  continue-eq-ok (err e, s) f h = absurd (ground arith)

  pub >>=-eq-ok :
      (m : Call S A) (f : A → Call S B) {b : B} (s : S) {s' : S}
      → (m >>= f) s ≡ (ok b, s')
      → (a : A) × (t : S) × (m s ≡ (ok a, t)) × (f a t ≡ (ok b, s'))
  >>=-eq-ok m f s h = continue-eq-ok (m s) f h

pub Result-cases {ℓ} :
    {A : Type ℓ} (r : Result A) → ((a : A) × (r ≡ ok a)) ⊎ ((e : DispatchError) × (r ≡ err e))
Result-cases (ok a) = inl (a, refl)
Result-cases (err e) = inr (e, refl)

-- An action that only reads: it returns or fails, in the storage that it was given.
pub reads_cases :
    {S A : Type 0} (r : Result A × S) (s : S)
    → r.1 ≡ s
    → ((a : A) × (r ≡ (ok a, s))) ⊎ ((e : DispatchError) × (r ≡ (err e, s)))
reads_cases (ok a, t) s h = inl (a, ap (λ u. (ok a, u)) h)
reads_cases (err e, t) s h = inr (e, ap (λ u. (err e, u)) h)

-- What holds before a transactional call and after each success of it holds after it.
module _ {S A : Type 0} (P : S → Type 0) where
  abbrev settle : S → Result A × S → Result A × S
  settle s r = elim r.0 [ ok a ↦ (ok a, r.1) | err e ↦ (err e, s) ]

  settle-keeps :
      (s : S) (r : Result A × S) → ((a : A) (t : S) → r ≡ (ok a, t) → P t) → P s → P (settle s r).1
  settle-keeps s (ok a, t) after before = after a t refl
  settle-keeps s (err e, t) after before = before

  pub transactional-keeps :
      (m : Call S A) (s : S)
      → ((a : A) (t : S) → m s ≡ (ok a, t) → P t)
      → P s
      → P (transactional m s).1
  transactional-keeps m s = settle-keeps s (m s)

-- What the first step keeps and the rest keeps, the block keeps, whether it succeeds or fails.
module _ {S A B : Type 0} (P : S → Type 0) where
  continue-keeps :
      (r : Result A × S) (f : A → Call S B)
      → P r.1
      → ((a : A) (t : S) → P t → P (f a t).1)
      → P (continue f r).1
  continue-keeps (ok a, t) f first rest = rest a t first
  continue-keeps (err e, t) f first rest = first

  pub >>=-keeps :
      (m : Call S A) (f : A → Call S B) (s : S)
      → P (m s).1
      → ((a : A) (t : S) → P t → P (f a t).1)
      → P ((m >>= f) s).1
  >>=-keeps m f s = continue-keeps (m s) f

-- An action's outcome, with the storage that it leaves.
pub outcome_cases :
    {S A : Type 0} (r : Result A × S)
    → ((a : A) × (t : S) × (r ≡ (ok a, t))) ⊎ ((e : DispatchError) × (t : S) × (r ≡ (err e, t)))
outcome_cases (ok a, t) = inl (a, t, refl)
outcome_cases (err e, t) = inr (e, t, refl)

-- A transactional call succeeds as the call does, or changes nothing.
pub transactional_cases :
    {S A : Type 0} (m : Call S A) (s : S)
    → ((a : A) × (t : S) × (m s ≡ (ok a, t)) × (transactional m s ≡ (ok a, t)))
      ⊎ ((e : DispatchError) × (transactional m s ≡ (err e, s)))
transactional_cases m s = elim (outcome_cases (m s)) [
  | inl (a, t, h) ↦ inl (a, t, h, ground arith)
  | inr (e, t, h) ↦ inr (e, ground arith)
]

-- A `do` block runs on from the outcome of its first step.
pub run_on :
    {S A B : Type 0} (m : Call S A) (f : A → Call S B) {a : A} {r : Result B × S} (s t : S)
    → m s ≡ (ok a, t)
    → f a t ≡ r
    → (m >>= f) s ≡ r
run_on m f s t h k = ap (continue f) h ∙ k
