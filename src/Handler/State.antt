-- ===== src/Handler/State.antt =====
-- The storage, events and configuration of pallets/assets-handler/src/lib.rs. A resource id is its
-- 32 bytes.
use can_bus.Base.{ℕ, Option, List, ◌∷◌, bytes_eq, if◌then◌else◌}
use can_bus.Frame.Call.{Call, modify}
use can_bus.Frame.Tokens.{Tokens}

-- With `asset` none the resource is the native token.
pub record AssetInfo : Type 0 where
  pub fee : ℕ
  pub asset : Option ℕ

pub data Event : Type 0 where
  resource_updated : List ℕ → AssetInfo → Event
  resource_removed : List ℕ → Event
  token_bridge_in : Option ℕ → ℕ → ℕ → Event
  token_bridge_out : Option ℕ → ℕ → ℕ → ℕ → Event

pub record Storage (W : Type 0) : Type 0 where
  pub resource_to_asset_info : List ℕ → Option AssetInfo
  pub world : W
  -- The newest event stands first.
  pub events : List Event

pub record Config : Type 1 where
  pub tokens : Tokens
  pub treasury_account : ℕ

abbrev pub put_resource :
    List ℕ → Option AssetInfo → (List ℕ → Option AssetInfo) → List ℕ → Option AssetInfo
put_resource k v m j = if bytes_eq j k then v else m j

module _ {W : Type 0} where
  abbrev pub deposit_event : Event → Call (Storage W) (Unit {0})
  deposit_event e = modify (λ s. record s { events = e ∷ s.events })

  -- A call of a token pallet.
  abbrev pub on_world : {A : Type 0} → Call W A → Call (Storage W) A
  on_world m s = let (r, w) = m s.world in (r, record s { world = w })
