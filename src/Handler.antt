-- ===== src/Handler.antt =====
-- pallets/assets-handler/src/lib.rs: what a bridge transfer does to balances.
pub mod State
pub mod Fees
pub mod Calls
