-- ===== src/Frame/Storage.antt =====
-- Storage maps as functions from keys. A missing key reads as the map's default, which is `none`
-- for an `OptionQuery` map and zero or `false` for a `ValueQuery` one.
use can_bus.Base.{ℕ, ◌==◌, if◌then◌else◌}

abbrev pub StorageMap : Type 0 → Type 0
StorageMap V = ℕ → V

abbrev pub StorageDoubleMap : Type 0 → Type 0
StorageDoubleMap V = ℕ → ℕ → V

module _ {V : Type 0} where
  abbrev pub insert : ℕ → V → StorageMap V → StorageMap V
  insert k v m j = if j == k then v else m j

  abbrev pub insert₂ : ℕ → ℕ → V → StorageDoubleMap V → StorageDoubleMap V
  insert₂ k l v m i j = if i == k then (if j == l then v else m i j) else m i j
