-- ===== src/Runtime.antt =====
-- runtime/src/lib.rs and runtime/src/precompiles.rs: the parts of the runtime that compute.
pub mod Address
pub mod Filter
pub mod Mint
pub mod Rewards
pub mod Crossing
