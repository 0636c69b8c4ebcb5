-- ===== src/Relay/Handshake.antt =====
-- server/lib/relay.js: connections, and the handshake that makes a peer of one.
pub mod Entry
pub mod Overfull
use vibed_st_muliplayer.Base.{
  ℕ, suc, String, Bool, true, false, not, ◌&&◌, ◌||◌, Option, none, some, List, [], ◌∷◌, ◌++◌,
  if◌then◌else◌, leb, ◌==◌, filter, length, is_some,
}
use vibed_st_muliplayer.Base.Texts.{same}
use vibed_st_muliplayer.Protocol.{Role}
use vibed_st_muliplayer.Protocol.Limits
use vibed_st_muliplayer.Replay.{fresh}
use vibed_st_muliplayer.Limiter.{message_bucket, byte_bucket}
use vibed_st_muliplayer.Relay.State.{
  PeerId, Bytes, Peer, Status, Message, Reason, Control, Effect, Relay, Handler, ◌>>◌, reading,
  emit,
}
use vibed_st_muliplayer.Relay.Room.{find_peer, put_peer, set_peer, roster_of, host_name, admit}
use vibed_st_muliplayer.Relay.Abuse.{note_failure, drop_offender, is_banned, is_blocked}

-- `HKDF` over the ECDH secret, cut into keys, with the hash of the transcript.
pub record Session : Type 0 where
  pub keys : Bytes
  pub transcript : Bytes

-- The cryptography of node, which this repository does not implement.
pub record Crypto : Type 0 where
  pub room_of : Bytes → Bytes
  pub derive : (secret own peer own_nonce peer_nonce psk : Bytes) → Option Session
  pub confirmation : Session → String → Bytes

-- `state.stage`, with the session and the claim to the host slot that `HELLO` leaves in `state`.
pub data Stage : Type 0 where
  hello : Stage
  confirm : Session → Bool → Stage

-- A connection: its socket, the `state` of its handshake, and whether the socket has closed.
pub record Conn : Type 0 where
  pub socket : ℕ
  pub ip : String
  pub stage : Stage
  pub peer : Option PeerId
  pub closed : Bool

-- The fields of a `HELLO`, decoded: `none` is a field that is no text, or not there.
pub record Hello : Type 0 where
  pub revision : String
  pub public_key : Option Bytes
  pub nonce : Option Bytes
  pub room : Option Bytes
  pub token : Option Bytes

-- The key pair and the nonce that the relay draws for one connection.
pub record Ephemeral : Type 0 where
  pub secret : Bytes
  pub public_key : Bytes
  pub nonce : Bytes

unfoldable pub bytes_equal : Bytes → Bytes → Bool
bytes_equal [] [] = true
bytes_equal (a ∷ xs) (b ∷ ys) = a == b && bytes_equal xs ys
bytes_equal [] (b ∷ ys) = false
bytes_equal (a ∷ xs) [] = false

-- `decodeBase64`: the bytes, if they are as many as expected.
unfoldable pub exactly : ℕ → Option Bytes → Option Bytes
exactly n none = none
exactly n (some bs) = if length bs == n then some bs else none

abbrev pub is_loopback : String → Bool
is_loopback ip = same ip "127.0.0.1" || same ip "::1" || same ip "::ffff:127.0.0.1"

-- `#checkHostToken`
unfoldable pub holds_token : Option Bytes → Bytes → Bool
unfolding bytes_equal
holds_token none token = false
holds_token (some t) token = bytes_equal t token

-- `#admittedCount` and `#lobbyCount`
unfoldable pub admitted_count : List Peer → ℕ
admitted_count [] = 0
admitted_count (p ∷ ps) = if p.admitted then suc (admitted_count ps) else admitted_count ps

unfoldable pub lobby_count : List Peer → ℕ
lobby_count [] = 0
lobby_count (p ∷ ps) = if p.admitted then lobby_count ps else suc (lobby_count ps)

-- `#rejectSocket`
abbrev pub reject_socket : ℕ → Reason → Handler
reject_socket socket reason r = (
  record r { pending = filter (λ s. not (s == socket)) r.pending },
  Effect.send_json socket (Control.reject reason) ∷ Effect.close socket 4401 ∷ [],
)

-- A failure of the other side, which counts against its address.
abbrev pub fail : Conn → ℕ → Reason → Handler
fail c now reason =
    (λ r. (record r { offenders = note_failure c.ip now r.offenders }, []))
    >> reject_socket c.socket reason

-- The `upgrade` listener and `#onConnection`: the new connection, if it is let in.
unfoldable pub on_upgrade : ℕ → String → ℕ → Relay → Relay × List Effect × Option Conn
unfolding is_banned is_blocked
on_upgrade socket ip now r =
    if is_banned ip r.bans || is_blocked ip now r.offenders
    then (r, Effect.destroy socket ∷ [], none)
    else if leb Limits.max_pending (length r.pending)
    then (r, Effect.destroy socket ∷ [], none)
    else (
      record r { pending = r.pending ++ socket ∷ [] },
      [],
      some (record { socket = socket; ip = ip; stage = Stage.hello; peer = none; closed = false }),
    )

-- The connection stays at its stage.
abbrev pub staying : Conn → Relay × List Effect → Relay × List Effect × Stage
staying c out = (out.0, out.1, c.stage)

-- The result of `HELLO` for the session that the keys give.
abbrev pub challenged :
    Conn → Ephemeral → ℕ → Bool → Option Session → Relay → Relay × List Effect × Stage
challenged c e now wants_host none r = staying c (fail c now Reason.malformed r)
challenged c e now wants_host (some session) r = (
  r,
  Effect.send_json c.socket (Control.challenge e.public_key e.nonce) ∷ [],
  Stage.confirm session wants_host,
)

module _ (crypto : Crypto) where
  -- `deriveSessionKeys`: the point is uncompressed, and on the curve.
  unfoldable pub derive_session : Ephemeral → Bytes → Bytes → Bytes → Option Session
  derive_session e [] nonce psk = none
  derive_session e (b ∷ bs) nonce psk =
      if b == 0x04 && length bs == 64
      then crypto.derive e.secret e.public_key (b ∷ bs) e.nonce nonce psk
      else none

  -- `HELLO` once its fields are decoded and its room is known.
  unfoldable pub challenge :
      Conn → Hello → Ephemeral → ℕ → Bytes → Bytes → Relay → Relay × List Effect × Stage
  unfolding derive_session holds_token admitted_count lobby_count note_failure
  challenge c h e now peer_key nonce r =
      let session = derive_session e peer_key nonce r.psk in
      let claims = holds_token h.token r.host_token && is_loopback c.ip in
      if leb r.max_peers (admitted_count r.peers)
      then staying c (reject_socket c.socket Reason.room_full r)
      else if leb Limits.max_lobby (lobby_count r.peers)
      then staying c (reject_socket c.socket Reason.rate_limited r)
      else challenged c e now claims session r

  unfoldable pub check_room :
      Conn
      → Hello
      → Ephemeral
      → ℕ
      → Option Bytes
      → Option Bytes
      → Option Bytes
      → Relay
      → Relay × List Effect × Stage
  unfolding challenge
  check_room c h e now (some key) (some nonce) (some room) r =
      if bytes_equal room r.room_id
      then challenge c h e now key nonce r
      else staying c (fail c now Reason.unknown_room r)
  check_room c h e now _ _ _ r = staying c (fail c now Reason.malformed r)

  -- `#onHello`
  unfoldable pub on_hello : Conn → Hello → Ephemeral → ℕ → Relay → Relay × List Effect × Stage
  unfolding check_room exactly
  on_hello c h e now r =
      if same h.revision "STMP/1.4.0"
      then check_room c h e now (exactly 65 h.public_key) (exactly 16 h.nonce) (exactly 8 h.room) r
      else staying c (reject_socket c.socket Reason.bad_revision r)

  -- `new Peer(socket, state.ip)` with the role that it gets.
  unfoldable pub new_peer : Conn → Bool → ℕ → Relay → Peer
  unfolding message_bucket byte_bucket
  new_peer c wants_host now r = record {
    id = suc r.peer_counter;
    socket = c.socket;
    ip = c.ip;
    role = if wants_host && not (is_some r.host) then Role.host else Role.client;
    name = "Player";
    admitted = false;
    replay = fresh;
    message_bucket = message_bucket now;
    byte_bucket = byte_bucket now;
    status = Status.pending;
    report = none;
    rtt = none;
    last_seen = now;
    joined_at = now;
    bytes_in = 0;
  }

  -- The peer enters the map, in the host slot if that is free and the peer may have it.
  unfoldable pub enter : Conn → Bool → Peer → Handler
  unfolding drop_offender
  enter c wants_host p r = (
    record r {
      pending = filter (λ s. not (s == c.socket)) r.pending;
      offenders = drop_offender c.ip r.offenders;
      host = if wants_host && not (is_some r.host) then some p.id else r.host;
      peers = r.peers ++ p ∷ [];
      peer_counter = suc r.peer_counter;
    },
    [],
  )

  abbrev pub host_or_default : Option String → String
  host_or_default none = "Host"
  host_or_default (some name) = name

  -- What the new peer is told, and its way into the room.
  unfoldable pub greet : Conn → Session → Peer → Handler
  unfolding roster_of find_peer admit put_peer
  greet c session p =
      emit
        (Effect.send_json c.socket (Control.accepted (crypto.confirmation session "server")) ∷ [])
      >> (reading λ r. emit (
          Effect.send p.id (
            Message.welcome p.id r.room_id r.room_name p.role (host_or_default (host_name r))
              r.require_parity (roster_of r.peers))
          ∷ []))
      >> (reading λ r.
          if r.require_parity
          then emit (Effect.send p.id (Message.parity_challenge r.strictness) ∷ [])
          else set_peer (record p { status = Status.ok })
            >> admit (record p { status = Status.ok }))

  -- `#onConfirm`; the third part is the peer that the socket now belongs to.
  unfoldable pub on_confirm :
      Conn → Session → Bool → Bytes → ℕ → Relay → Relay × List Effect × Option PeerId
  unfolding bytes_equal new_peer enter greet note_failure
  on_confirm c session wants_host mac now r =
      let p = new_peer c wants_host now r in
      let seated = (enter c wants_host p >> greet c session p) r in
      let refused = fail c now Reason.bad_mac r in
      if bytes_equal (crypto.confirmation session "client") mac
      then (seated.0, seated.1, some p.id)
      else (refused.0, refused.1, c.peer)
