-- ===== src/Bridge/Resource.antt =====
-- `derive_resource_id` of pallets/bridge/src/lib.rs. Bytes are numbers, an array is a list.
pub mod Layout
use can_bus.Base.{
  ℕ, zero, suc, ◌-◌, List, [], ◌∷◌, length, get_or, set, replicate, ltb, if◌then◌else◌,
}

-- The loop, with `k` rounds left: `i` is `range - k`.
unfoldable pub copy_loop : ℕ → ℕ → List ℕ → List ℕ → List ℕ
copy_loop range zero id r_id = r_id
copy_loop range (suc k) id r_id =
    let i = range - suc k in copy_loop range k id (set r_id (30 - i) (get_or id (range - 1 - i) 0))

-- `if id.len() > 31 { 31 } else { id.len() }`
unfoldable pub range_of : List ℕ → ℕ
range_of id = if ltb 31 (length id) then 31 else length id

unfoldable pub derive_resource_id : ℕ → List ℕ → List ℕ
unfolding copy_loop range_of
derive_resource_id chain [] = replicate 32 0
derive_resource_id chain (b ∷ id) =
    copy_loop (range_of (b ∷ id)) (range_of (b ∷ id)) (b ∷ id) (set (replicate 32 0) 31 chain)
