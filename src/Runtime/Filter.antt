-- ===== src/Runtime/Filter.antt =====
-- The filter of runtime/src/precompiles.rs on the calls that the dispatch precompile passes on.
use can_bus.Base.{
  ℕ, Bool, true, false, Option, none, some, ◌≡◌, refl, ◌&&◌, not, if◌then◌else◌, arith,
}

-- `Pays` and `DispatchClass` of frame_support.
pub data Pays : Type 0 where
  yes no : Pays

pub data DispatchClass : Type 0 where
  normal operational mandatory : DispatchClass

pub record DispatchInfo : Type 0 where
  pub class : DispatchClass
  pub pays_fee : Pays

-- The calls that the code tells apart: those of pallet_assets, and those of the other pallets.
pub data RuntimeCall : Type 0 where
  assets_transfer : ℕ → ℕ → ℕ → RuntimeCall
  assets_other other_pallet : ℕ → RuntimeCall

-- The texts of `ExitError::Other`.
pub data Refusal : Type 0 where
  invalid_call call_filtered_out : Refusal

abbrev is_yes : Pays → Bool
is_yes yes = true
is_yes no = false

abbrev is_normal : DispatchClass → Bool
is_normal normal = true
is_normal operational = false
is_normal mandatory = false

-- `WhitelistedCalls::contains`
abbrev pub whitelisted : RuntimeCall → Bool
whitelisted (assets_transfer id target amount) = true
whitelisted (assets_other n) = false
whitelisted (other_pallet n) = false

module _ {RuntimeCall : Type 0} (get_dispatch_info : RuntimeCall → DispatchInfo)
    (contains : RuntimeCall → Bool) where
  unfoldable pub validate_before_dispatch : RuntimeCall → Option Refusal
  validate_before_dispatch call =
      let info = get_dispatch_info call in
      let paid_normal_call = is_yes info.pays_fee && is_normal info.class in
      if not paid_normal_call
      then some invalid_call
      else if contains call
      then none
      else some call_filtered_out

is_yes-eq : (p : Pays) → is_yes p ≡ true → p ≡ yes
is_yes-eq yes e = refl
is_yes-eq no e = absurd (ground arith)

is_normal-eq : (k : DispatchClass) → is_normal k ≡ true → k ≡ normal
is_normal-eq normal e = refl
is_normal-eq operational e = absurd (ground arith)
is_normal-eq mandatory e = absurd (ground arith)

whitelisted-eq :
    (call : RuntimeCall)
    → whitelisted call ≡ true
    → (id target amount : ℕ) × (call ≡ assets_transfer id target amount)
whitelisted-eq (assets_transfer id target amount) e = (id, target, amount, refl)
whitelisted-eq (assets_other n) e = absurd (ground arith)
whitelisted-eq (other_pallet n) e = absurd (ground arith)

module _ (get_dispatch_info : RuntimeCall → DispatchInfo) where
  -- A call passes the filter of the dispatch precompile exactly if it is a transfer of an asset that
  -- pays its fee and is of the normal class.
  pub validate_before_dispatch_passes :
      (call : RuntimeCall)
      → (validate_before_dispatch get_dispatch_info whitelisted call ≡ none
          → ((id target amount : ℕ) × (call ≡ assets_transfer id target amount))
            × ((get_dispatch_info call).pays_fee ≡ yes)
            × ((get_dispatch_info call).class ≡ normal))
        × ((id target amount : ℕ)
            → call ≡ assets_transfer id target amount
            → (get_dispatch_info call).pays_fee ≡ yes
            → (get_dispatch_info call).class ≡ normal
            → validate_before_dispatch get_dispatch_info whitelisted call ≡ none)
  unfolding validate_before_dispatch
  validate_before_dispatch_passes call =
      let info = get_dispatch_info call in
      (
        (λ e. (
          whitelisted-eq call (ground arith),
          is_yes-eq info.pays_fee (ground arith),
          is_normal-eq info.class (ground arith),
        )),
        (λ id target amount c p k. rw (p, k, c) refl),
      )
