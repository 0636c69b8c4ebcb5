-- ===== src/Code.antt =====
-- lib/protocol.js: the connection code, which carries the relay's address and the room's key.
pub mod Base32
pub mod Letters
pub mod Body
pub mod Address
