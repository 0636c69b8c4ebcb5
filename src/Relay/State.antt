-- ===== src/Relay/State.antt =====
-- server/lib/relay.js: the state of the relay and of a peer, what it sends, and the combinators of
-- its handlers. What a handler sends it sends at once; Relay/Server has
-- the frames whose handler waits for an inflation.
use vibed_st_muliplayer.Base.{ℕ, String, Bool, Option, List, [], ◌++◌}
use vibed_st_muliplayer.Protocol.{Op, Role}
use vibed_st_muliplayer.Replay.{Window}
use vibed_st_muliplayer.Limiter.{Bucket}
use vibed_st_muliplayer.Parity.{Strictness, Entry, Report, Diff}

-- A peer's id holds the number that `peerCounter` had; the number stands for the id.
abbrev pub PeerId : Type 0
PeerId = ℕ

abbrev pub Bytes : Type 0
Bytes = List ℕ

-- `peer.parity.status`
pub data Status : Type 0 where
  pending ok invalid waiting_host mismatch : Status

pub record Peer : Type 0 where
  pub id : PeerId
  pub socket : ℕ
  pub ip : String
  pub role : Role
  pub name : String
  pub admitted : Bool
  pub replay : Window
  pub message_bucket : Bucket
  pub byte_bucket : Bucket
  pub status : Status
  pub report : Option Report
  pub rtt : Option ℕ
  pub last_seen : ℕ
  pub joined_at : ℕ
  pub bytes_in : ℕ

-- A report as a frame carries it. `none` is a report with no text hash or no list of extensions;
-- an entry is `none` where it is null, and its fields are `String(entry.… ?? '')`.
pub record RawReport : Type 0 where
  pub strictness : Strictness
  pub hash : String
  pub extensions : List (Option Entry)

-- The payload of a decrypted frame: the fields that the relay reads, and the rest unread.
pub record Payload : Type 0 where
  pub op : Op
  pub t : Option ℕ
  pub name : Option String
  pub report : Option RawReport
  pub to : Option PeerId
  pub text : String
  pub typing : Bool
  pub persona : Option String
  pub rest : String

-- A player-chat message as the relay stamps it.
pub record OocMessage : Type 0 where
  pub id : String
  pub author : PeerId
  pub name : String
  pub role : Role
  pub text : String
  pub sent_at : ℕ

-- A persona as the relay stamps it.
pub record Persona : Type 0 where
  pub author : PeerId
  pub name : String
  pub role : Role
  pub persona : String

-- `Peer.summary()`
pub record Summary : Type 0 where
  pub id : PeerId
  pub name : String
  pub role : Role
  pub rtt : Option ℕ

-- What the relay sends to a peer. `forwarded` is a peer's payload, with the `from` and the `name`
-- that the relay puts over the payload's own, if it does.
pub data Message : Type 0 where
  welcome : PeerId → Bytes → String → Role → String → Bool → List Summary → Message
  welcome_update : Option String → Message
  roster : List Summary → Message
  peer_join : Summary → Message
  peer_leave : Summary → Message
  kicked : Message
  ping : ℕ → Message
  pong : Option ℕ → Message
  parity_challenge : Strictness → Message
  parity_passed : Message
  parity_failed : Diff → Message
  ooc : OocMessage → Message
  ooc_history : List OocMessage → Message
  ooc_typing : PeerId → String → Message
  chat_typing : PeerId → String → Bool → Message
  persona : Persona → Message
  cards_want_republish : PeerId → Message
  forwarded : Payload → Option PeerId → Option String → Message
  error : String → Message

-- `REJECT_REASON`, of those that the relay gives.
pub data Reason : Type 0 where
  bad_revision unknown_room bad_mac rate_limited room_full timeout malformed server_closing : Reason

-- The texts of the handshake.
pub data Control : Type 0 where
  challenge : Bytes → Bytes → Control
  accepted : Bytes → Control
  reject : Reason → Control

-- What a handler does outside the relay: `#send` to a peer, `#sendJson` to a socket, and closing
-- a socket with a code, at once or after a short wait.
pub data Effect : Type 0 where
  send : PeerId → Message → Effect
  send_json : ℕ → Control → Effect
  close : ℕ → ℕ → Effect
  destroy : ℕ → Effect

pub record Offender : Type 0 where
  pub ip : String
  pub failures : ℕ
  pub blocked_until : ℕ

pub record Relay : Type 0 where
  pub running : Bool
  pub room_name : String
  pub max_peers : ℕ
  pub require_parity : Bool
  pub strictness : Strictness
  pub psk : Bytes
  pub room_id : Bytes
  pub host_token : Bytes
  pub peers : List Peer
  pub host : Option PeerId
  pub host_report : Option Report
  pub ooc_history : List OocMessage
  pub personas : List (PeerId × Persona)
  pub pending : List ℕ
  pub offenders : List Offender
  pub bans : List String
  pub peer_counter : ℕ

-- A handler: the new state, and what it does in order.
abbrev pub Handler : Type 0
Handler = Relay → Relay × List Effect

infixl 5 ◌>>◌
abbrev pub ◌>>◌ : Handler → Handler → Handler
◌>>◌ f g r = ((g (f r).0).0, (f r).1 ++ (g (f r).0).1)

-- A handler that looks at the state first.
abbrev pub reading : (Relay → Handler) → Handler
reading f r = f r r

abbrev pub skip : Handler
skip r = (r, [])

abbrev pub emit : List Effect → Handler
emit es r = (r, es)
