-- ===== src/Mint.antt =====
-- pallets/halving-mint/src/lib.rs: the native token is minted block by block, at a rate that halves.
pub mod State
pub mod Supply
pub mod Calls
pub mod History
