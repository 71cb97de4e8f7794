-- ===== src/Precompile/Bridge.antt =====
-- precompiles/bridge-transfer/src/lib.rs: `transferAssets` for contracts.
pub mod Conserves
use can_bus.Base.{ℕ, Bool, List}
use can_bus.Frame.Call.{signed}
use can_bus.Handler.State as Handler
use can_bus.Transfer.Calls as Transfer
use can_bus.Precompile.Host.{Host, Evm, value_is_too_large, balance_type, try_into, ◌>>=◌, ◌>>◌}

module _ (handler : Handler.Config) (members : ℕ → Bool) (host : Host (Transfer.S handler)) where
  open host use {Handle, caller, into_account_id}

  unfoldable pub transfer_assets : ℕ → ℕ → List ℕ → List ℕ → Evm Handle (Unit {0})
  transfer_assets amount dest_id resource_id recipient = do
    converted ← try_into 128 amount (value_is_too_large balance_type)
    host.try_dispatch (
        Transfer.transfer_assets handler members (signed (into_account_id caller)) converted
          recipient dest_id resource_id)
