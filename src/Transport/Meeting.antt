-- ===== src/Transport/Meeting.antt =====
-- lib/transport.js and server/lib/relay.js: a client that has the connection code, and the relay, through
-- the whole handshake.
pub mod Success
pub mod Refusal
use vibed_st_muliplayer.Base.{ℕ, true, Option, none, some, List, [], ◌∷◌}
use vibed_st_muliplayer.Relay.State.{Bytes, Relay, Effect, Control}
use vibed_st_muliplayer.Relay.State.{Reason as RelayReason}
use vibed_st_muliplayer.Relay.Handshake.{Conn, Ephemeral}
use vibed_st_muliplayer.Relay.Server.{Incoming, on_text}
use vibed_st_muliplayer.Relay.Server.{Text as RelayText}
use vibed_st_muliplayer.Secrets.{Primitives, node_crypto}
use vibed_st_muliplayer.Transport.{Transport, Reason, Text, Output, Act}
use vibed_st_muliplayer.Transport.Messages.{Inbound}
use vibed_st_muliplayer.Transport.Lifecycle.{new_transport}
use vibed_st_muliplayer.Transport.Handlers.{Event, run, step}

-- The text of the browser as the relay reads it.
abbrev pub as_heard : Text → RelayText
as_heard (Text.hello key nonce room token) = RelayText.hello (record {
  revision = "STMP/1.4.0";
  public_key = some key;
  nonce = some nonce;
  room = some room;
  token = token;
})
as_heard (Text.confirm mac) = RelayText.confirm mac

abbrev pub reason_heard : RelayReason → Reason
reason_heard RelayReason.bad_revision = Reason.bad_revision
reason_heard RelayReason.unknown_room = Reason.unknown_room
reason_heard RelayReason.bad_mac = Reason.bad_mac
reason_heard RelayReason.rate_limited = Reason.rate_limited
reason_heard RelayReason.room_full = Reason.room_full
reason_heard RelayReason.timeout = Reason.timeout
reason_heard RelayReason.malformed = Reason.malformed
reason_heard RelayReason.server_closing = Reason.server_closing

-- The text of the relay as the browser reads it.
abbrev pub as_answered : Control → Inbound
as_answered (Control.challenge key nonce) = Inbound.challenge (some key) (some nonce)
as_answered (Control.accepted mac) = Inbound.accepted (some mac)
as_answered (Control.reject r) = Inbound.reject (some (reason_heard r))

-- The text that each side sends in its turn.
unfoldable pub said : List Output → Option Text
said [] = none
said (Output.send_text text ∷ os) = some text
said (_ ∷ os) = said os

unfoldable pub answered : List Effect → Option Control
answered [] = none
answered (Effect.send_json socket text ∷ es) = some text
answered (_ ∷ es) = answered es

module _ (p : Primitives) where
  unfoldable pub relay_turn : Option Text → Conn → Incoming → Relay → Relay × List Effect × Conn
  relay_turn none c m r = (r, [], c)
  relay_turn (some text) c m r = on_text (node_crypto p) c (as_heard text) c.stage m r

  unfoldable pub client_turn : Option Control → ℕ → Act
  client_turn none now t = (t, [])
  client_turn (some text) now t = step p (Event.receives t.dialled (as_answered text) now) t

  -- The browser dials; then each side has two turns.
  unfoldable pub meet :
      Bytes
      → Option Bytes
      → Ephemeral
      → Conn
      → Incoming
      → Incoming
      → ℕ
      → Relay
      → Transport × Relay × Conn
  meet psk token e c first second now r =
      let t1 =
        run p (Event.dials true 0 0 ∷ Event.opens 1 ∷ Event.prepares 1 (some e) ∷ [])
          (new_transport psk token true) in
      let r1 = relay_turn (said t1.1) c first r in
      let t2 = client_turn (answered r1.1) now t1.0 in
      let r2 = relay_turn (said t2.1) r1.2 second r1.0 in
      let t3 = client_turn (answered r2.1) now t2.0 in (t3.0, r2.0, r2.2)
