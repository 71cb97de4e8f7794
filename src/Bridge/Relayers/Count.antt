-- ===== src/Bridge/Relayers/Count.antt =====
-- The number of relayers that pallets/bridge/src/lib.rs keeps beside the set of them.
use can_bus.Base.{
  ℕ, suc, ◌%◌, ◌^◌, ◌≡◌, ◌⊎◌, inl, inr, refl, true, false, List, [], ◌∷◌, length, contains,
  IsDistinct, ◌==◌, if◌then◌else◌, arith,
}
use can_bus.Frame.Call.{ok}
use can_bus.Bridge.State.{Storage}
use can_bus.Bridge.Relayers.{register_relayer, unregister_relayer}

-- `Vec::retain(|x| x != a)` on a list without repetition.
erase : ℕ → List ℕ → List ℕ
erase a [] = []
erase a (x ∷ xs) = if a == x then xs else x ∷ erase a xs

erase_others : (a b : ℕ) (xs : List ℕ) → (b == a) ≡ false → contains b (erase a xs) ≡ contains b xs
unfolding erase
erase_others a b [] h = refl
erase_others a b (x ∷ xs) h = ground (arith, erase_others a b xs h)

erase_self : (a : ℕ) (xs : List ℕ) → IsDistinct xs → contains a (erase a xs) ≡ false
unfolding erase
erase_self a [] d = refl
erase_self a (x ∷ xs) d = ground (arith, erase_self a xs d.1)

erase-IsDistinct : (a : ℕ) (xs : List ℕ) → IsDistinct xs → IsDistinct (erase a xs)
unfolding erase
erase-IsDistinct a [] d = tt
erase-IsDistinct a (x ∷ xs) d = ground (arith, erase-IsDistinct a xs d.1, erase_others a x xs)

length-erase : (a : ℕ) (xs : List ℕ) → contains a xs ≡ true → suc (length (erase a xs)) ≡ length xs
unfolding erase
length-erase a [] h = absurd (ground arith)
length-erase a (x ∷ xs) h = ground (arith, length-erase a xs)

module _ {W : Type 0} where
  -- The relayers are those of a list without repetition, and the counter is its length on u32.
  pub record IsCounted (s : Storage W) : Type 0 where
    pub members : List ℕ
    pub distinct : IsDistinct members
    pub listed : (a : ℕ) → s.relayers a ≡ contains a members
    pub counted : s.relayer_count ≡ length members % 2 ^ 32

  register_relayer-IsCounted :
      (a : ℕ) (s s' : Storage W) → register_relayer a s ≡ (ok tt, s') → IsCounted s → IsCounted s'
  unfolding register_relayer
  register_relayer-IsCounted a s s' h v = record {
    members = a ∷ v.members;
    distinct = (ground (arith, v.listed a), v.distinct);
    listed = λ b. ground (arith, v.listed b);
    counted = ground (arith, v.counted);
  }

  unregister_relayer-IsCounted :
      (a : ℕ) (s s' : Storage W) → unregister_relayer a s ≡ (ok tt, s') → IsCounted s → IsCounted s'
  unfolding unregister_relayer
  unregister_relayer-IsCounted a s s' h v =
      let known : contains a v.members ≡ true = ground (arith, v.listed a) in
      record {
        members = erase a v.members;
        distinct = erase-IsDistinct a v.members v.distinct;
        listed = λ b.
            ground
              (arith, v.listed b, erase_self a v.members v.distinct, erase_others a b v.members);
        counted = ground (arith, v.counted, length-erase a v.members known);
      }

  -- Adding a relayer and removing one, where it succeeds, keeps the counter equal to the number of
  -- relayers, modulo 2^32.
  pub administration-IsCounted :
      (a : ℕ) (s s' : Storage W)
      → (register_relayer a s ≡ (ok tt, s')) ⊎ (unregister_relayer a s ≡ (ok tt, s'))
      → IsCounted s
      → IsCounted s'
  administration-IsCounted a s s' (inl h) v = register_relayer-IsCounted a s s' h v
  administration-IsCounted a s s' (inr h) v = unregister_relayer-IsCounted a s s' h v
