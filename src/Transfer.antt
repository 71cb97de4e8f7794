-- ===== src/Transfer.antt =====
-- pallets/bridge-transfer/src/lib.rs: the two calls that move tokens over the bridge.
pub mod Conserves
pub mod RoundTrip
pub mod Calls
