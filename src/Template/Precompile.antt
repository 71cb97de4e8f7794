-- ===== src/Template/Precompile.antt =====
-- precompiles/template/src/lib.rs: the pallet's calls for contracts.
use can_bus.Base.{ℕ, none}
use can_bus.Frame.Call.{signed}
use can_bus.Precompile.Host.{Host, Evm, Log, selector_log_something, ◌>>◌}
use can_bus.Template as Pallet

module _ (host : Host Pallet.Storage) where
  open host use {Handle, caller, address, into_account_id, view}

  unfoldable pub do_something_inner : ℕ → Evm Handle (Unit {0})
  do_something_inner something =
      host.try_dispatch (Pallet.do_something (signed (into_account_id caller)) something)

  abbrev pub log_something : ℕ → Log
  log_something something = record {
    address = address;
    topic0 = selector_log_something;
    topic1 = caller;
    topic2 = none;
    value = something;
  }

  unfoldable pub do_something : ℕ → Evm Handle (Unit {0})
  unfolding do_something_inner
  do_something something = do
    do_something_inner something
    host.record_log_costs_manual 2 4
    host.record_log (log_something something)

  unfoldable pub cause_error : Evm Handle (Unit {0})
  cause_error = host.try_dispatch (Pallet.cause_error (signed (into_account_id caller)))
