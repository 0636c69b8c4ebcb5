-- ===== src/Protocol/Limits.antt =====
-- server/lib/protocol.js: `LIMITS`, of which lib/protocol.js has a copy, and the caps of the out-of-character channel, `OOC`.
use vibed_st_muliplayer.Base.{ℕ, ◌*◌}

abbrev pub max_frame_bytes : ℕ
max_frame_bytes = 4 * 1024 * 1024

abbrev pub chunk_bytes : ℕ
chunk_bytes = 256 * 1024

abbrev pub ping_interval_ms : ℕ
ping_interval_ms = 15000

abbrev pub ping_timeout_ms : ℕ
ping_timeout_ms = 45000

abbrev pub rate_messages : ℕ
rate_messages = 60

abbrev pub rate_window_ms : ℕ
rate_window_ms = 10000

abbrev pub rate_bytes : ℕ
rate_bytes = 8 * 1024 * 1024

abbrev pub max_peers : ℕ
max_peers = 8

abbrev pub max_lobby : ℕ
max_lobby = 6

abbrev pub lobby_timeout_ms : ℕ
lobby_timeout_ms = 90000

abbrev pub max_pending : ℕ
max_pending = 16

abbrev pub max_handshake_failures : ℕ
max_handshake_failures = 5

abbrev pub handshake_block_ms : ℕ
handshake_block_ms = 60000

abbrev pub counter_window : ℕ
counter_window = 64

-- `OOC`
abbrev pub ooc_max_length : ℕ
ooc_max_length = 2000

abbrev pub ooc_history : ℕ
ooc_history = 200
