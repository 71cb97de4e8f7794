-- ===== src/Precompile/Erc20.antt =====
-- precompiles/assets-erc20/src/lib.rs: each asset of pallet_assets as an ERC-20 token.
pub mod Assets
pub mod Calls
pub mod Views
