-- ===== src/Bridge/Resource/Layout.antt =====
-- The layout of a derived resource id.
use mathlib.Core.List.{append_assoc}
use can_bus.Base.{
  ℕ, zero, suc, ◌+◌, ◌-◌, ◌≤◌, ◌<◌, ◌≡◌, ◌≢◌, refl, sym, ap, ◌∙◌, List, [], ◌∷◌, ◌++◌, length,
  length-append, take, min, get_or, set, replicate, arith,
}
use can_bus.Bridge.Resource.{copy_loop, range_of, derive_resource_id}

module _ {ℓ} {A : Type ℓ} where
  set-append :
      (pre post : List A) (x v : A) → set (pre ++ x ∷ post) (length pre) v ≡ pre ++ v ∷ post
  set-append [] post x v = refl
  set-append (y ∷ pre) post x v = ap (◌∷◌ y) (set-append pre post x v)

  replicate-snoc : (n : ℕ) (x : A) → replicate (suc n) x ≡ replicate n x ++ x ∷ []
  replicate-snoc zero x = refl
  replicate-snoc (suc n) x = ap (◌∷◌ x) (replicate-snoc n x)

  take-snoc :
      (n : ℕ) (xs : List A) (d : A)
      → n < length xs
      → take (suc n) xs ≡ take n xs ++ get_or xs n d ∷ []
  take-snoc n [] d h = absurd (omega arith)
  take-snoc zero (x ∷ xs) d h = refl
  take-snoc (suc n) (x ∷ xs) d h = ap (◌∷◌ x) (take-snoc n xs d (omega arith))

  take-length : (xs : List A) → take (length xs) xs ≡ xs
  take-length [] = refl
  take-length (x ∷ xs) = ap (◌∷◌ x) (take-length xs)

  length-replicate : (n : ℕ) (x : A) → length (replicate n x) ≡ n
  length-replicate zero x = refl
  length-replicate (suc n) x = ap suc (length-replicate n x)

replicate-add {ℓ} :
    {A : Type ℓ} (a b c : ℕ) (x : A) (ys : List A)
    → a + b ≡ c
    → replicate a x ++ (replicate b x ++ ys) ≡ replicate c x ++ ys
replicate-add zero b c x ys h = let same : b ≡ c = omega (arith, h) in rw same
replicate-add (suc a) b zero x ys h = absurd (omega (arith, h))
replicate-add (suc a) b (suc c) x ys h = ap (◌∷◌ x) (replicate-add a b c x ys (omega (arith, h)))

regroup {ℓ} :
    {A : Type ℓ} (pre mid post : List A) (x : A)
    → pre ++ ((mid ++ x ∷ []) ++ post) ≡ (pre ++ mid) ++ (x ∷ post)
regroup pre mid post x =
    ap (◌++◌ pre) (append_assoc mid (x ∷ []) post) ∙ sym (append_assoc pre mid (x ∷ post))

-- The loop fills the `k` zeros behind a prefix with the first `k` bytes of the id, from the back.
copy_loop-fills :
    (range k : ℕ) (id pre post : List ℕ)
    → k ≤ range
    → range ≤ 31
    → k ≤ length id
    → length pre ≡ 31 - range
    → copy_loop range k id (pre ++ (replicate k 0 ++ post)) ≡ pre ++ (take k id ++ post)
unfolding copy_loop
copy_loop-fills range zero id pre post a b d e = refl
copy_loop-fills range (suc k) id pre post a b d e =
    let v = get_or id k 0 in
    let place : 30 - (range - suc k) ≡ length (pre ++ replicate k 0) =
      omega (arith, e, length-append pre (replicate k 0), length-replicate k (zero)) in
    let byte : range - 1 - (range - suc k) ≡ k = omega arith in
    let opened : pre ++ (replicate (suc k) 0 ++ post) ≡ (pre ++ replicate k 0) ++ (0 ∷ post) =
      ap (λ (m : List ℕ). pre ++ (m ++ post)) (replicate-snoc k 0)
      ∙ regroup pre (replicate k 0) post 0 in
    let written : set (pre ++ (replicate (suc k) 0 ++ post)) (30 - (range - suc k))
          (get_or id (range - 1 - (range - suc k)) 0)
        ≡ pre ++ (replicate k 0 ++ (v ∷ post)) =
      rw (opened, place, byte)
        (set-append (pre ++ replicate k 0) post 0 v
          ∙ append_assoc pre (replicate k 0) (v ∷ post)) in
    ap (copy_loop range k id) written
    ∙ copy_loop-fills range k id pre (v ∷ post) (omega arith) b (omega arith) e
    ∙ ap (λ (m : List ℕ). pre ++ m)
        (sym (append_assoc (take k id) (v ∷ []) post)
          ∙ ap (λ (m : List ℕ). m ++ post) (sym (take-snoc k id 0 d)))

range_of_bounds : (id : List ℕ) → (range_of id ≤ 31) × (range_of id ≤ length id)
unfolding range_of
range_of_bounds id = ground arith

-- The array before the loop, as the loop's lemma reads it.
start_layout :
    (n chain : ℕ)
    → n ≤ 31
    → set (replicate 32 0) 31 chain ≡ replicate (31 - n) 0 ++ (replicate n 0 ++ chain ∷ [])
start_layout n chain h = sym (replicate-add (31 - n) n 31 0 (chain ∷ []) (omega arith))

range_of-min : (id : List ℕ) → range_of id ≡ min (length id) 31
unfolding range_of
range_of-min id = ground arith

take-min {ℓ} : {A : Type ℓ} (n : ℕ) (xs : List A) → take (min (length xs) n) xs ≡ take n xs
take-min zero [] = refl
take-min {A = A} (suc n) [] =
    let nothing : min 0 (suc n) ≡ 0 = omega arith in ap (λ (m : ℕ). take {A = A} m []) nothing
take-min zero (x ∷ xs) =
    let none_left : min (suc (length xs)) 0 ≡ 0 = omega arith in
    ap (λ (m : ℕ). take m (x ∷ xs)) none_left
take-min (suc n) (x ∷ xs) =
    let step : min (suc (length xs)) (suc n) ≡ suc (min (length xs) n) = omega arith in
    ap (λ (m : ℕ). take m (x ∷ xs)) step ∙ ap (◌∷◌ x) (take-min n xs)

-- The resource id of a chain and an id of at least one byte: the first 31 bytes of the id, or all of it
-- if it is shorter, stand before the chain's byte, and zeros before them fill the array up to 32 bytes.
pub derive_resource_id-layout :
    (chain : ℕ) (id : List ℕ)
    → id ≢ []
    → derive_resource_id chain id
      ≡ replicate (31 - min (length id) 31) 0 ++ (take 31 id ++ chain ∷ [])
unfolding derive_resource_id
derive_resource_id-layout chain [] h = absurd (h refl)
derive_resource_id-layout chain (b ∷ id) h =
    let n = range_of (b ∷ id) in
    let (small, within) = range_of_bounds (b ∷ id) in
    rw (start_layout n chain small) (
      copy_loop-fills n n (b ∷ id) (replicate (31 - n) 0) (chain ∷ []) (omega arith) small within
        (length-replicate (31 - n) 0)
      ∙ ap (λ (m : ℕ). replicate (31 - m) 0 ++ (take m (b ∷ id) ++ chain ∷ []))
          (range_of-min (b ∷ id))
      ∙ ap (λ (xs : List ℕ). replicate (31 - min (length (b ∷ id)) 31) 0 ++ (xs ++ chain ∷ []))
          (take-min 31 (b ∷ id)))
