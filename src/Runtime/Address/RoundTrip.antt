-- ===== src/Runtime/Address/RoundTrip.antt =====
-- Assets and their addresses.
use native.Mathlib.Nat.{pow-suc, mul_comm, mul-le-mul_left}
use can_bus.Base.{
  ℕ, zero, suc, ◌+◌, ◌-◌, ◌*◌, ◌/◌, ◌%◌, ◌^◌, ◌<◌, ◌≤◌, ◌≡◌, ◌∙◌, refl, sym, ap, some, List, [],
  ◌∷◌, ◌++◌, take, drop, bytes_eq, bytes_eq→eq, length, length-append, All, Bool-cases, inl, inr,
  arith,
}
use can_bus.Runtime.Address.{
  asset_precompile_address_prefix, to_be_bytes, from_be_bytes, address_to_asset_id,
  asset_id_to_address,
}

from_be_bytes-snoc :
    (before b : ℕ) (xs : List ℕ)
    → from_be_bytes before (xs ++ b ∷ []) ≡ from_be_bytes before xs * 256 + b
unfolding from_be_bytes
from_be_bytes-snoc before b [] = refl
from_be_bytes-snoc before b (x ∷ xs) = from_be_bytes-snoc (before * 256 + x) b xs

from_be_bytes-to_be_bytes : (k n : ℕ) → n < 256 ^ k → from_be_bytes 0 (to_be_bytes k n) ≡ n
unfolding from_be_bytes to_be_bytes
from_be_bytes-to_be_bytes zero n h = omega arith
from_be_bytes-to_be_bytes (suc k) n h =
    let small : n / 256 < 256 ^ k = omega (arith, h, pow-suc 256 k) in
    let ih = from_be_bytes-to_be_bytes k (n / 256) small in
    omega (arith, from_be_bytes-snoc 0 (n % 256) (to_be_bytes k (n / 256)), ih)

length-to_be_bytes : (k n : ℕ) → length (to_be_bytes k n) ≡ k
unfolding to_be_bytes
length-to_be_bytes zero n = refl
length-to_be_bytes (suc k) n = omega (
  arith,
  length-append {0} (to_be_bytes k (n / 256)) (n % 256 ∷ []),
  length-to_be_bytes k (n / 256),
)

All-append :
    (xs ys : List ℕ) → All (λ b. b < 256) xs → All (λ b. b < 256) ys → All (λ b. b < 256) (xs ++ ys)
All-append [] ys hx hy = hy
All-append (x ∷ xs) ys hx hy = (hx.0, All-append xs ys hx.1 hy)

to_be_bytes-All : (k n : ℕ) → All (λ b. b < 256) (to_be_bytes k n)
unfolding to_be_bytes
to_be_bytes-All zero n = tt
to_be_bytes-All (suc k) n =
    All-append (to_be_bytes k (n / 256)) (n % 256 ∷ []) (to_be_bytes-All k (n / 256))
      (omega arith, tt)

-- Byte lists of one length that make the same number are the same.
from_be_bytes-injective :
    (xs ys : List ℕ) (a b : ℕ)
    → length xs ≡ length ys
    → All (λ b. b < 256) xs
    → All (λ b. b < 256) ys
    → from_be_bytes a xs ≡ from_be_bytes b ys
    → (a ≡ b) × (xs ≡ ys)
unfolding from_be_bytes
from_be_bytes-injective [] [] a b l hx hy e = (e, refl)
from_be_bytes-injective [] (y ∷ ys) a b l hx hy e = absurd (omega (arith, l))
from_be_bytes-injective (x ∷ xs) [] a b l hx hy e = absurd (omega (arith, l))
from_be_bytes-injective (x ∷ xs) (y ∷ ys) a b l hx hy e =
    let (heads, tails) =
      from_be_bytes-injective xs ys (a * 256 + x) (b * 256 + y) (omega (arith, l)) hx.1 hy.1 e in
    let first : x ≡ y = omega (arith, heads, hx.0, hy.0) in
    (omega (arith, heads, hx.0, hy.0), ground arith)

from_be_bytes-lt :
    (xs : List ℕ) (a : ℕ) → All (λ b. b < 256) xs → from_be_bytes a xs < (a + 1) * 256 ^ length xs
unfolding from_be_bytes
from_be_bytes-lt [] a h = omega arith
from_be_bytes-lt (x ∷ xs) a h =
    let ih = from_be_bytes-lt xs (a * 256 + x) h.1 in
    let grown : 256 ^ length xs * (a * 256 + x + 1) ≤ 256 ^ length xs * ((a + 1) * 256) =
      mul-le-mul_left (256 ^ length xs) (omega (arith, h.0)) in
    let p = 256 ^ length xs in
    let level : p * ((a + 1) * 256) ≡ (a + 1) * (256 * p) = ground arith in
    let turned : (a * 256 + x + 1) * p ≡ p * (a * 256 + x + 1) = mul_comm (a * 256 + x + 1) p in
    omega (arith, ih, grown, level, turned, ap (λ k. (a + 1) * k) (pow-suc 256 (length xs)))

take-append-drop : (k : ℕ) (xs : List ℕ) → take k xs ++ drop k xs ≡ xs
take-append-drop zero xs = refl
take-append-drop (suc k) [] = refl
take-append-drop (suc k) (x ∷ xs) = ap (λ ys. x ∷ ys) (take-append-drop k xs)

drop-All : (k : ℕ) (xs : List ℕ) → All (λ b. b < 256) xs → All (λ b. b < 256) (drop k xs)
drop-All zero xs h = h
drop-All (suc k) [] h = tt
drop-All (suc k) (x ∷ xs) h = drop-All k xs h.1

length-drop : (k : ℕ) (xs : List ℕ) → length (drop k xs) ≡ length xs - k
length-drop zero xs = omega arith
length-drop (suc k) [] = omega arith
length-drop (suc k) (x ∷ xs) = omega (arith, length-drop k xs)

-- An asset id of 128 bits is the id of the address that it is given.
pub address_to_asset_id-asset_id_to_address :
    (n : ℕ) → n < 2 ^ 128 → address_to_asset_id (asset_id_to_address n) ≡ some n
unfolding address_to_asset_id asset_id_to_address
address_to_asset_id-asset_id_to_address n small = ap some (from_be_bytes-to_be_bytes 16 n small)

-- An address of 20 bytes that has an asset id has one of 128 bits, and it is the address which
-- that id is given. So no two addresses are the same asset.
pub asset_id_to_address-address_to_asset_id :
    (address : List ℕ) (n : ℕ)
    → length address ≡ 20
    → All (λ b. b < 256) address
    → address_to_asset_id address ≡ some n
    → (n < 2 ^ 128) × (asset_id_to_address n ≡ address)
unfolding address_to_asset_id asset_id_to_address
asset_id_to_address-address_to_asset_id address n l h e =
    elim (Bool-cases (bytes_eq asset_precompile_address_prefix (take 4 address))) [
      | inl match ↦
          let low = drop 4 address in
          let long : length low ≡ 16 = omega (arith, length-drop 4 address, l) in
          let number : from_be_bytes 0 low ≡ n = ground arith in
          let below = from_be_bytes-lt low 0 (drop-All 4 address h) in
          let small : n < 2 ^ 128 = omega (arith, below, number, ap (λ (k : ℕ). 256 ^ k) long) in
          let (_, bytes) =
            from_be_bytes-injective (to_be_bytes 16 n) low 0 0
              (omega (arith, length-to_be_bytes 16 n, long)) (to_be_bytes-All 16 n)
              (drop-All 4 address h) (from_be_bytes-to_be_bytes 16 n small ∙ sym number) in
          let prefix = bytes_eq→eq asset_precompile_address_prefix (take 4 address) match in
          (
            small,
            ap (λ (ys : List ℕ). asset_precompile_address_prefix ++ ys) bytes
                ∙ ap (λ (ys : List ℕ). ys ++ low) prefix
                ∙ take-append-drop 4 address,
          )
      | inr other ↦ ground arith
    ]
