-- ===== src/Handler/Calls.antt =====
-- The calls of pallets/assets-handler/src/lib.rs, and its `BridgeHandler`.
use can_bus.Base.{ℕ, Option, none, some, List, ltb, checked_sub}
use can_bus.Frame.Error.{handler, arithmetic, overflow, invalid_resource_id, cannot_pay_as_fee}
use can_bus.Frame.Call.{Call, Origin, fail, gets, modify, ok_or, ensure, ensure_root, ◌>>=◌, ◌>>◌}
use can_bus.Handler.State.{
  AssetInfo, Storage, Config, put_resource, deposit_event, on_world, resource_updated,
  resource_removed, token_bridge_in, token_bridge_out,
}

module _ {W : Type 0} where
  unfoldable pub set_resource : Origin → List ℕ → AssetInfo → Call (Storage W) (Unit {0})
  set_resource origin resource_id asset = do
    ensure_root origin
    modify (λ s. record s {
      resource_to_asset_info = put_resource resource_id (some asset) s.resource_to_asset_info;
    })
    deposit_event (resource_updated resource_id asset)

  unfoldable pub remove_resource : Origin → List ℕ → Call (Storage W) (Unit {0})
  remove_resource origin resource_id = do
    ensure_root origin
    modify (λ s. record s {
      resource_to_asset_info = put_resource resource_id none s.resource_to_asset_info;
    })
    deposit_event (resource_removed resource_id)

module _ (c : Config) where
  open c use {tokens, treasury_account}

  abbrev pub S : Type 0
  S = Storage tokens.World

  -- The two arms for a known resource differ in the token pallet alone, which `asset` names.
  unfoldable pub bridge_in_with : Option AssetInfo → ℕ → ℕ → Call S ℕ
  bridge_in_with none who amount = fail (handler invalid_resource_id)
  bridge_in_with (some info) who amount = do
    deposit_event (token_bridge_in info.asset who amount)
    on_world (tokens.mint_into info.asset who amount)

  unfoldable pub prepare_token_bridge_in : List ℕ → ℕ → ℕ → Call S ℕ
  unfolding bridge_in_with
  prepare_token_bridge_in resource_id who amount = do
    asset_info ← gets (λ s. s.resource_to_asset_info resource_id)
    bridge_in_with asset_info who amount

  unfoldable pub bridge_out_with : Option AssetInfo → ℕ → ℕ → Call S ℕ
  bridge_out_with none who amount = fail (handler invalid_resource_id)
  bridge_out_with (some info) who amount = do
    deposit_event (token_bridge_out info.asset who amount info.fee)
    burn_amount ← on_world (tokens.burn_from info.asset who amount)
    ensure (ltb info.fee burn_amount) (handler cannot_pay_as_fee)
    on_world (tokens.mint_into info.asset treasury_account info.fee)
    ok_or (checked_sub burn_amount info.fee) (arithmetic overflow)

  unfoldable pub prepare_token_bridge_out : List ℕ → ℕ → ℕ → Call S ℕ
  unfolding bridge_out_with
  prepare_token_bridge_out resource_id who amount = do
    asset_info ← gets (λ s. s.resource_to_asset_info resource_id)
    bridge_out_with asset_info who amount
