-- ===== src/Relay.antt =====
-- server/lib/relay.js: the room, its admission gate, the frames that it forwards, the handshake and
-- the housekeeping.
pub mod State
pub mod Room
pub mod Gate
pub mod Frames
pub mod Abuse
pub mod Handshake
pub mod Housekeeping
pub mod Server
pub mod Invariant
