-- ===== src/Precompile/Staking.antt =====
-- precompiles/stable-staking/src/lib.rs: the calls and the storage of the staking pallet for contracts.
pub mod Calls
pub mod Views
pub mod Sound
