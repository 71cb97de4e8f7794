-- ===== src/Precompile.antt =====
-- The precompiles, by which contracts of the EVM reach the pallets: precompiles/*/src/lib.rs.
pub mod Host
pub mod Erc20
pub mod Staking
pub mod Bridge
