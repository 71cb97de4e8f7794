-- ===== src/Tests.antt =====
-- Runs of the theorems on concrete states.
pub mod Data
pub mod Host
pub mod Staking
pub mod Stakes
pub mod Solvency
pub mod Bridge
pub mod Transfer
pub mod Mint
pub mod Precompile
pub mod Runtime
pub mod Crossing
pub mod Template
