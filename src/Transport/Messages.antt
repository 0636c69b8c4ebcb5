-- ===== src/Transport/Messages.antt =====
-- lib/transport.js: the handshake messages and frames that `#onMessage` handles.
use vibed_st_muliplayer.Base.{
  ℕ, String, Bool, true, false, ◌&&◌, Option, none, some, [], ◌∷◌, if◌then◌else◌, ◌==◌, length,
  is_some,
}
use vibed_st_muliplayer.Base.Int.{sub_ℕ}
use vibed_st_muliplayer.Relay.State.{Bytes}
use vibed_st_muliplayer.Relay.Handshake.{Ephemeral, bytes_equal}
use vibed_st_muliplayer.Replay.{fresh, accept}
use vibed_st_muliplayer.Secrets.{
  Derived, Primitives, derive_client, compute_confirmation, derive_room_id,
}
use vibed_st_muliplayer.Transport.{
  State, Reason, Socket, Signal, Text, Output, Act, ◌>>◌, emit, is, set_state, hang_up, send_json,
}

-- A payload out of `openFrame`: a pong with its time, if it has one, or any other.
pub data Payload : Type 0 where
  pong : Option ℕ → Payload
  other : String → Payload

-- What a socket brings. Fields are decoded; `none` where `fromBase64` or `openFrame` throws. `reject`
-- has no reason where the message has none. `unexpected` is a text of no known kind.
pub data Inbound : Type 0 where
  challenge : Option Bytes → Option Bytes → Inbound
  accepted : Option Bytes → Inbound
  reject : Option Reason → Inbound
  unexpected : Inbound
  frame : Option (ℕ × Payload) → Inbound

-- `FATAL_REASONS`
abbrev pub is_fatal : Reason → Bool
is_fatal Reason.rate_limited = false
is_fatal Reason.room_full = false
is_fatal Reason.timeout = false
is_fatal _ = true

-- `catch` of `#startHandshake` and of `#onMessage`
unfoldable pub give_up : Act
unfolding hang_up
give_up = emit Signal.error >> hang_up 4400

unfoldable pub protocol_error : Act
unfolding give_up
protocol_error t = give_up (record t { auto_reconnect = false })

abbrev pub prepared : Socket → Socket
prepared s = record s { preparing = false }

-- `#onReject`
abbrev pub or_malformed : Option Reason → Reason
or_malformed none = Reason.malformed
or_malformed (some r) = r

unfoldable pub on_reject : Option Reason → Act
on_reject r t = emit (Signal.rejected (or_malformed r)) (record t {
  handshake_timer = false;
  auto_reconnect = if is_fatal (or_malformed r) then false else t.auto_reconnect;
})

abbrev pub sent_at : Option ℕ → ℕ → ℕ
sent_at none now = now
sent_at (some at) now = at

-- A payload that passed the replay window.
abbrev pub on_payload : Payload → ℕ → Act
on_payload (Payload.pong at) now t =
    (record t { rtt = some (sub_ℕ now (sent_at at now)); last_pong_at = now }, [])
on_payload (Payload.other text) now t = (t, Output.signal (Signal.message text) ∷ [])

unfoldable pub on_frame : Option (ℕ × Payload) → ℕ → Act
unfolding protocol_error accept
on_frame none now t = protocol_error t
on_frame (some (counter, payload)) now t =
    if (accept t.replay counter).1
    then on_payload payload now (record t { replay = (accept t.replay counter).0 })
    else protocol_error t

-- The end of `#handleAccepted`.
unfoldable pub open_with : Derived → ℕ → Act
open_with d now t = (set_state State.open_session >> emit Signal.opened) (record t {
  handshake_timer = false;
  ever_opened = true;
  failed_dials = 0;
  keys = some d.keys;
  send_counter = 0;
  replay = fresh;
  pending = none;
  pending_keys = none;
  opened_at = some now;
  last_pong_at = now;
  heartbeat_timer = true;
})

module _ (p : Primitives) where
  -- The rest of `#startHandshake`.
  unfoldable pub say_hello : Option Ephemeral → Act
  unfolding give_up send_json
  say_hello none t = give_up t
  say_hello (some e) t =
      send_json (Text.hello e.public_key e.nonce (derive_room_id p t.psk) t.host_token)
        (record t { pending = some e })

  unfoldable pub on_prepared : Option Socket → Option Ephemeral → Act
  unfolding say_hello
  on_prepared none e t = (t, [])
  on_prepared (some s) e t =
      if s.preparing then say_hello e (record t { socket = some (prepared s) }) else (t, [])

  -- The end of `#handleChallenge`.
  unfoldable pub confirm_with : Option Derived → Act
  unfolding protocol_error send_json
  confirm_with none t = protocol_error t
  confirm_with (some d) t =
      send_json (Text.confirm (compute_confirmation p d.keys.confirm_key d.transcript "client"))
        (record t { pending_keys = some d })

  -- `#handleChallenge`
  unfoldable pub handle_challenge : Option Ephemeral → Option Bytes → Option Bytes → Act
  unfolding protocol_error confirm_with
  handle_challenge (some e) (some pub_key) (some nonce) t =
      if length pub_key == 65 && length nonce == 16
      then confirm_with (derive_client p e.secret e.public_key pub_key e.nonce nonce t.psk) t
      else protocol_error t
  handle_challenge _ _ _ t = protocol_error t

  -- `#handleAccepted`
  unfoldable pub handle_accepted : Option Derived → Option Bytes → ℕ → Act
  unfolding protocol_error bytes_equal
  handle_accepted (some d) (some mac) now t =
      if bytes_equal (compute_confirmation p d.keys.confirm_key d.transcript "server") mac
      then open_with d now t
      else protocol_error t
  handle_accepted _ _ now t = protocol_error t

  -- `#onMessage`
  unfoldable pub on_message : Inbound → ℕ → Act
  unfolding handle_challenge handle_accepted on_reject on_frame protocol_error
  on_message (Inbound.challenge key nonce) now t = handle_challenge t.pending key nonce t
  on_message (Inbound.accepted mac) now t = handle_accepted t.pending_keys mac now t
  on_message (Inbound.reject r) now t = on_reject r t
  on_message Inbound.unexpected now t = protocol_error t
  on_message (Inbound.frame f) now t =
      if is t.state State.open_session && is_some t.keys then on_frame f now t else protocol_error t
