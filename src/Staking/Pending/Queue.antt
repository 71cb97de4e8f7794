-- ===== src/Staking/Pending/Queue.antt =====
-- The queue of pending stakes: its order, and the amounts that wait in it.
use mathlib.Core.List.{Perm, perm_middle, append-nil}
use mathlib.Core.List.Perm
use can_bus.Base.{
  ℕ, suc, ◌+◌, ◌≤◌, ◌<◌, ◌≡◌, refl, List, [], ◌∷◌, ◌++◌, leb, ltb, ◌==◌, if◌then◌else◌, All, sum_of,
  Bool-cases, inl, inr, arith,
}
use can_bus.Staking.State.{StakingInfoWithOwner}
use can_bus.Staking.Pending.{sort_insert, sort, enqueue}

abbrev pub Queue : Type 0
Queue = List StakingInfoWithOwner

abbrev pub time_of : StakingInfoWithOwner → ℕ
time_of x = x.staking_info.effective_time

-- What entry `x` adds to pool `p`, and to the position of account `a` in pool `p`.
abbrev pub share_of : ℕ → StakingInfoWithOwner → ℕ
share_of p x = if p == x.pool_id then x.staking_info.amount else 0

abbrev pub user_share_of : ℕ → ℕ → StakingInfoWithOwner → ℕ
user_share_of a p x = if a == x.who then share_of p x else 0

abbrev pub queued : ℕ → Queue → ℕ
queued p = sum_of (share_of p)

abbrev pub user_queued : ℕ → ℕ → Queue → ℕ
user_queued a p = sum_of (user_share_of a p)

-- The earliest effective time first.
abbrev pub IsSorted : Queue → Type 0
IsSorted [] = Unit
IsSorted (x ∷ xs) = All (λ y. time_of x ≤ time_of y) xs × IsSorted xs

-- The entries that are not effective at block `n`, in their order.
unfoldable pub later : ℕ → Queue → Queue
later n [] = []
later n (x ∷ xs) = let rest = later n xs in if ltb n (time_of x) then x ∷ rest else rest

All-time_mono :
    (m n : ℕ) (xs : Queue) → m ≤ n → All (λ y. n ≤ time_of y) xs → All (λ y. m ≤ time_of y) xs
All-time_mono m n [] h a = tt
All-time_mono m n (x ∷ xs) h a = (omega arith, All-time_mono m n xs h a.1)

sort_insert-All :
    (m : ℕ) (x : StakingInfoWithOwner) (xs : Queue)
    → m ≤ time_of x
    → All (λ y. m ≤ time_of y) xs
    → All (λ y. m ≤ time_of y) (sort_insert x xs)
unfolding sort_insert
sort_insert-All m x [] h a = (h, tt)
sort_insert-All m x (y ∷ ys) h a = ground (arith, sort_insert-All m x ys h a.1)

sort_insert-IsSorted :
    (x : StakingInfoWithOwner) (xs : Queue) → IsSorted xs → IsSorted (sort_insert x xs)
unfolding sort_insert
sort_insert-IsSorted x [] s = (tt, tt)
sort_insert-IsSorted x (y ∷ ys) s = ground (
  arith,
  sort_insert-IsSorted x ys s.1,
  sort_insert-All (time_of y) x ys,
  All-time_mono (time_of x) (time_of y) ys,
)

sort-IsSorted : (xs : Queue) → IsSorted (sort xs)
unfolding sort
sort-IsSorted [] = tt
sort-IsSorted (x ∷ xs) = sort_insert-IsSorted x (sort xs) (sort-IsSorted xs)

sort_insert-perm : (x : StakingInfoWithOwner) (xs : Queue) → Perm (sort_insert x xs) (x ∷ xs)
unfolding sort_insert
sort_insert-perm x [] = Perm.refl (x ∷ [])
sort_insert-perm x (y ∷ ys) = elim (Bool-cases (leb (time_of x) (time_of y))) [
  | inl first ↦ rw first (Perm.refl (x ∷ y ∷ ys))
  | inr after ↦ rw after (Perm.trans (Perm.cons y (sort_insert-perm x ys)) (Perm.swap x y ys))
]

sort-perm : (xs : Queue) → Perm (sort xs) xs
unfolding sort
sort-perm [] = Perm.refl []
sort-perm (x ∷ xs) = Perm.trans (sort_insert-perm x (sort xs)) (Perm.cons x (sort-perm xs))

sum_of-sort_insert :
    (f : StakingInfoWithOwner → ℕ) (x : StakingInfoWithOwner) (xs : Queue)
    → sum_of f (sort_insert x xs) ≡ f x + sum_of f xs
unfolding sort_insert
sum_of-sort_insert f x [] = refl
sum_of-sort_insert f x (y ∷ ys) = ground (arith, sum_of-sort_insert f x ys)

sum_of-sort : (f : StakingInfoWithOwner → ℕ) (xs : Queue) → sum_of f (sort xs) ≡ sum_of f xs
unfolding sort
sum_of-sort f [] = refl
sum_of-sort f (x ∷ xs) = omega (arith, sum_of-sort_insert f x (sort xs), sum_of-sort f xs)

sum_of-push :
    (f : StakingInfoWithOwner → ℕ) (x : StakingInfoWithOwner) (xs : Queue)
    → sum_of f (xs ++ x ∷ []) ≡ sum_of f xs + f x
sum_of-push f x [] = omega arith
sum_of-push f x (y ∷ ys) = omega (arith, sum_of-push f x ys)

pub sum_of-enqueue :
    (f : StakingInfoWithOwner → ℕ) (x : StakingInfoWithOwner) (xs : Queue)
    → sum_of f (enqueue x xs) ≡ sum_of f xs + f x
unfolding enqueue
sum_of-enqueue f x xs = rw (sum_of-sort f (xs ++ x ∷ [])) (sum_of-push f x xs)

-- A new order joins the queue: nothing is lost or doubled, and the earliest effective time stands
-- first, whatever the order of the queue was.
pub enqueue-IsSorted :
    (x : StakingInfoWithOwner) (xs : Queue) → IsSorted (enqueue x xs) × Perm (enqueue x xs) (x ∷ xs)
unfolding enqueue
enqueue-IsSorted x xs = (
  sort-IsSorted (xs ++ x ∷ []),
  rw append-nil at (Perm.trans (sort-perm (xs ++ x ∷ [])) (perm_middle xs [])),
)

later_none : (n : ℕ) (xs : Queue) → All (λ y. n < time_of y) xs → later n xs ≡ xs
unfolding later
later_none n [] h = refl
later_none n (x ∷ xs) h = ground (arith, later_none n xs h.1)

-- Behind an entry that is not effective there is none that is.
pub later_sorted :
    (n : ℕ) (x : StakingInfoWithOwner) (xs : Queue)
    → IsSorted (x ∷ xs)
    → n < time_of x
    → later n (x ∷ xs) ≡ x ∷ xs
later_sorted n x xs s h = later_none n (x ∷ xs) (h, All-time_mono (suc n) (time_of x) xs h s.0)

later-All :
    (m n : ℕ) (xs : Queue) → All (λ y. m ≤ time_of y) xs → All (λ y. m ≤ time_of y) (later n xs)
unfolding later
later-All m n [] h = tt
later-All m n (x ∷ xs) h = ground (arith, later-All m n xs h.1)

pub later-IsSorted : (n : ℕ) (xs : Queue) → IsSorted xs → IsSorted (later n xs)
unfolding later
later-IsSorted n [] s = tt
later-IsSorted n (x ∷ xs) s =
    ground (arith, later-All (time_of x) n xs s.0, later-IsSorted n xs s.1)
