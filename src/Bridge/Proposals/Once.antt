-- ===== src/Bridge/Proposals/Once.antt =====
-- When the voters on a proposal are all different.
use mathlib.Core.List.{append_assoc, append-nil}
use can_bus.Base.{
  ℕ, ◌∙◌, Bool-cases, inl, inr, ◌≡◌, refl, Bool, true, false, ◌||◌, Option, none, some, List, [],
  ◌∷◌, ◌++◌, ◌==◌, contains, IsDistinct, arith,
}
use can_bus.Frame.Storage.{StorageMap, StorageDoubleMap, insert, insert₂}
use can_bus.Bridge.Votes.{ProposalVotes, has_voted, try_to_complete}
use can_bus.Bridge.Proposals.{votes_or_new, push_vote}

-- The voters on both sides are all different.
abbrev pub IsOnce : ProposalVotes → Type 0
IsOnce v = IsDistinct (v.votes_for ++ v.votes_against)

contains-append :
    (a : ℕ) (xs ys : List ℕ) → contains a (xs ++ ys) ≡ (contains a xs || contains a ys)
contains-append a [] ys = refl
contains-append a (x ∷ xs) ys = ground (arith, contains-append a xs ys)

IsDistinct-insert :
    (a : ℕ) (xs ys : List ℕ)
    → IsDistinct (xs ++ ys)
    → contains a (xs ++ ys) ≡ false
    → IsDistinct (xs ++ a ∷ ys)
IsDistinct-insert a [] ys d h = (h, d)
IsDistinct-insert a (x ∷ xs) ys d h =
    ground
      (arith, IsDistinct-insert a xs ys d.1, contains-append x xs (a ∷ ys), contains-append x xs ys)

pub push_vote-IsOnce :
    (v : ProposalVotes) (who : ℕ) (in_favour : Bool)
    → IsOnce v
    → has_voted v who ≡ false
    → IsOnce (push_vote v who in_favour)
push_vote-IsOnce v who true d h =
    let new : contains who (v.votes_for ++ v.votes_against) ≡ false =
      contains-append who v.votes_for v.votes_against ∙ h in
    rw (append_assoc v.votes_for (who ∷ []) v.votes_against)
      (IsDistinct-insert who v.votes_for v.votes_against d new)
push_vote-IsOnce v who false d h =
    let new : contains who (v.votes_for ++ v.votes_against) ≡ false =
      contains-append who v.votes_for v.votes_against ∙ h in
    let all = v.votes_for ++ v.votes_against in
    rw (← append_assoc v.votes_for v.votes_against (who ∷ []))
      (IsDistinct-insert who all [] (rw (append-nil all) d) (rw (append-nil all) new))

pub try_to_complete-IsOnce :
    (v : ProposalVotes) (n m : ℕ) → IsOnce v → IsOnce (try_to_complete v n m).0
unfolding try_to_complete
try_to_complete-IsOnce v n m d = ground arith

abbrev pub IsOnceAt : Option ProposalVotes → Type 0
IsOnceAt none = Unit
IsOnceAt (some v) = IsOnce v

pub votes_or_new-IsOnce :
    (o : Option ProposalVotes) (n : ℕ) → IsOnceAt o → IsOnce (votes_or_new o n)
votes_or_new-IsOnce none n h = tt
votes_or_new-IsOnce (some v) n h = h

-- All stored votes of a map.
abbrev pub IsOnceIn : StorageMap (StorageDoubleMap (Option ProposalVotes)) → Type 0
IsOnceIn m = (i j k : ℕ) → IsOnceAt (m i j k)

pub insert-IsOnceIn :
    (i j k : ℕ) (v : ProposalVotes) (m : StorageMap (StorageDoubleMap (Option ProposalVotes)))
    → IsOnce v
    → IsOnceIn m
    → IsOnceIn (insert i (insert₂ j k (some v) (m i)) m)
insert-IsOnceIn i j k v m new old a b d = elim (Bool-cases (a == i)) [
  | inr e ↦ rw e (old a b d)
  | inl e ↦ rw e (elim (Bool-cases (b == j)) [
    | inr f ↦ rw f (old i b d)
    | inl f ↦ rw f (elim (Bool-cases (d == k)) [ inl g ↦ rw g new | inr g ↦ rw g (old i b d) ])
  ])
]
