-- ===== src/Transfer/Calls.antt =====
-- The calls of pallets/bridge-transfer/src/lib.rs, over the bridge's storage with the assets
-- handler's inside. `members` is `TransferNativeMembers::contains`.
use can_bus.Base.{ℕ, Bool, List}
use can_bus.Frame.Error.{bad_origin}
use can_bus.Frame.Call.{Call, Origin, pure, ensure, ensure_signed, transactional, ◌>>=◌, ◌>>◌}
use can_bus.Bridge.State as Bridge
use can_bus.Bridge.Relayers.{signal_transfer_fungible, ensure_bridge}
use can_bus.Handler.State as Handler
use can_bus.Handler.Calls.{prepare_token_bridge_in, prepare_token_bridge_out}

module _ (h : Handler.Config) where
  -- The storage of the bridge and of the assets handler.
  abbrev pub S : Type 0
  S = Bridge.Storage (Handler.Storage h.tokens.World)

  unfoldable pub transfer_assets : (ℕ → Bool) → Origin → ℕ → List ℕ → ℕ → List ℕ → Call S (Unit {0})
  transfer_assets members origin amount recipient dest_id resource_id = transactional do
    source ← ensure_signed origin
    ensure (members source) bad_origin
    actual_dest_amount ← Bridge.on_world (prepare_token_bridge_out h resource_id source amount)
    signal_transfer_fungible dest_id resource_id recipient actual_dest_amount

  unfoldable pub transfer :
      Bridge.Config (Handler.Storage h.tokens.World) → Origin → ℕ → ℕ → List ℕ → Call S (Unit {0})
  transfer c origin to amount rid =
      transactional do
        ensure_bridge c origin
        Bridge.on_world (prepare_token_bridge_in h rid to amount)
        pure tt
