-- ===== src/Bridge.antt =====
-- pallets/bridge/src/lib.rs: relayers vote on proposals of other chains, and transfers to other
-- chains are signalled under consecutive nonces.
pub mod Resource
pub mod Votes
pub mod State
pub mod Relayers
pub mod Proposals
pub mod Calls
pub mod History
