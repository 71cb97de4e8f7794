-- ===== src/Staking.antt =====
-- pallets/stable-staking/src/lib.rs: pools in which a stable token is staked for rewards.
pub mod Info
pub mod State
pub mod Epoch
pub mod Pending
pub mod Claim
pub mod Calls
pub mod Ledger
pub mod Solvency
