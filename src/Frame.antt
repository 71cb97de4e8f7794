-- ===== src/Frame.antt =====
-- What the pallets take from FRAME: dispatch errors and the actions of a handler, storage maps,
-- origins, and the token pallets that the sources call.
pub mod Error
pub mod Call
pub mod Storage
pub mod Tokens
pub mod Perquintill
