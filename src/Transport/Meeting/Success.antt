-- ===== src/Transport/Meeting/Success.antt =====
-- lib/transport.js and server/lib/relay.js: the handshake of a client that has the code comes to an end,
-- with the same secrets on both sides.
use vibed_st_muliplayer.Secrets.Agreement.{crossed}
use vibed_st_muliplayer.Transport.Meeting.{meet}
use vibed_st_muliplayer.Secrets.Agreement.{IsCrossed}
use vibed_st_muliplayer.Base.{ap}
use vibed_st_muliplayer.Relay.Server.{on_text}
use vibed_st_muliplayer.Base.{suc, none}
use vibed_st_muliplayer.Relay.Server.{Incoming}
use vibed_st_muliplayer.Secrets.{server_keys}
use vibed_st_muliplayer.Transport.Messages.{open_with}
use vibed_st_muliplayer.Transport.Meeting.{answered, relay_turn}
use vibed_st_muliplayer.Base.{String}
use vibed_st_muliplayer.Secrets.{client_keys, Derived, derive_client, compute_confirmation}
use vibed_st_muliplayer.Transport.{Ready, set_state, send_json}
use vibed_st_muliplayer.Base.{subst}
use vibed_st_muliplayer.Secrets.{derive_server}
use vibed_st_muliplayer.Relay.Handshake.{exactly, derive_session}
use vibed_st_muliplayer.Base.{◌&&◌}
use vibed_st_muliplayer.Secrets.{transcript_of, okm_of}
use vibed_st_muliplayer.Base.{
  ℕ, ◌<◌, ◌≡◌, refl, Bool, true, false, Option, some, List, [], ◌∷◌, arith, length, leb,
}
use vibed_st_muliplayer.Relay.State.{Bytes, Relay, Effect, Control}
use vibed_st_muliplayer.Relay.Handshake.{
  Conn, Stage, Ephemeral, Hello, Session, on_hello, bytes_equal, admitted_count, lobby_count,
  holds_token, is_loopback,
}
use vibed_st_muliplayer.Secrets.{Primitives, node_crypto, derive_room_id}
use vibed_st_muliplayer.Transport.{State, Transport, Text, Output}
use vibed_st_muliplayer.Transport.Lifecycle.{new_transport}
use vibed_st_muliplayer.Transport.Handlers.{step, Event, run}
use vibed_st_muliplayer.Transport.Meeting.{client_turn, said}

-- The key pair of the browser, whose public key is an uncompressed point.
abbrev pub pair : Bytes → Bytes → Bytes → Ephemeral
pair secret bs nonce = record { secret = secret; public_key = 4 ∷ bs; nonce = nonce }

-- Two key pairs fit each other, and the relay's room has a place.
pub record CanMeet (p : Primitives) (secret bs nonce : Bytes) (f : Ephemeral) (shared : Bytes)
    (r : Relay) : Type 0 where
  pub point_size : length bs ≡ 64
  pub nonce_size : length nonce ≡ 16
  pub relay_point_size : length f.public_key ≡ 65
  pub relay_nonce_size : length f.nonce ≡ 16
  pub forth : p.ecdh secret f.public_key ≡ some shared
  pub back : p.ecdh f.secret (4 ∷ bs) ≡ some shared
  pub room : derive_room_id p r.psk ≡ r.room_id
  pub room_size : length (derive_room_id p r.psk) ≡ 8
  pub seats : admitted_count r.peers < r.max_peers
  pub lobby : lobby_count r.peers < 6

-- The key material that both come to.
unfoldable pub session_of : Primitives → Bytes → Ephemeral → Ephemeral → Bytes → Session
session_of p psk e f shared =
    let transcript = transcript_of p e.public_key f.public_key e.nonce f.nonce in
    record { keys = okm_of p shared psk transcript; transcript = transcript }

bytes_equal_refl : (bs : Bytes) → bytes_equal bs bs ≡ true
unfolding bytes_equal
bytes_equal_refl [] = refl
bytes_equal_refl (b ∷ bs) = ground (arith, bytes_equal_refl bs)

bytes_equal_of : (xs bs : Bytes) → xs ≡ bs → bytes_equal xs bs ≡ true
bytes_equal_of xs bs h = subst (λ (x : Bytes). bytes_equal xs x ≡ true) h (bytes_equal_refl xs)

exactly_of : (n : ℕ) (bs : Bytes) → length bs ≡ n → exactly n (some bs) ≡ some bs
unfolding exactly
exactly_of n bs h = ground arith

answered_json :
    (socket : ℕ) (text : Control) (es : List Effect)
    → answered (Effect.send_json socket text ∷ es) ≡ some text
unfolding answered
answered_json socket text es = refl

said_text : (text : Text) (os : List Output) → said (Output.send_text text ∷ os) ≡ some text
unfolding said
said_text text os = refl

module _ (p : Primitives) (secret bs nonce : Bytes) (f : Ephemeral) (shared : Bytes)
    (token : Option Bytes) (r : Relay) (m : CanMeet p secret bs nonce f shared r) where
  -- The claim to the host slot that the `HELLO` makes.
  abbrev pub claim : Conn → Bool
  claim c = holds_token token r.host_token && is_loopback c.ip

  server_session :
      derive_session (node_crypto p) f (4 ∷ bs) nonce r.psk
      ≡ some (session_of p r.psk (pair secret bs nonce) f shared)
  unfolding derive_session session_of derive_server
  server_session = rw (m.point_size, m.back) refl

  hello : Hello
  hello = record {
    revision = "STMP/1.4.0";
    public_key = some (4 ∷ bs);
    nonce = some nonce;
    room = some (derive_room_id p r.psk);
    token = token;
  }

  -- The relay's first turn.
  challenges :
      (c : Conn) (now : ℕ)
      → on_hello (node_crypto p) c hello f now r ≡ (
        r,
        Effect.send_json c.socket (Control.challenge f.public_key f.nonce) ∷ [],
        Stage.confirm (session_of p r.psk (pair secret bs nonce) f shared) (claim c),
      )
  unfolding on_hello hello session_of derive_server
  challenges c now =
      let known = bytes_equal_of (derive_room_id p r.psk) r.room_id m.room in
      let seat : leb r.max_peers (admitted_count r.peers) ≡ false = ground (arith, m.seats) in
      let place : leb 6 (lobby_count r.peers) ≡ false = ground (arith, m.lobby) in
      rw (m.point_size, m.nonce_size, m.room_size, known, seat, place, m.point_size, m.back) refl

  -- The browser's first turn, which ends with its `HELLO`.
  abbrev dialling : Transport × List Output
  dialling =
      run p
        (Event.dials true 0 0 ∷ Event.opens 1 ∷ Event.prepares 1 (some (pair secret bs nonce)) ∷ [])
        (new_transport r.psk token true)

  said-hello : said dialling.1 ≡ some (Text.hello (4 ∷ bs) nonce (derive_room_id p r.psk) token)
  unfolding run step said set_state send_json new_transport
  said-hello = refl

  -- The browser as it waits for the challenge.
  greeting : Transport
  unfolding new_transport
  greeting = record (new_transport r.psk token true) {
    state = State.handshaking;
    socket = some (record { id = 1; ready = Ready.up; preparing = false });
    dialled = 1;
    handshake_timer = true;
    pending = some (pair secret bs nonce);
  }

  dialling_lem : dialling.0 ≡ greeting
  unfolding run step greeting set_state send_json
  dialling_lem = refl

  -- What the browser derives.
  derived : Derived
  unfolding session_of
  derived =
      let session = session_of p r.psk (pair secret bs nonce) f shared in
      record { keys = client_keys session.keys; transcript = session.transcript }

  derived_lem : derive_client p secret (4 ∷ bs) f.public_key nonce f.nonce r.psk ≡ some derived
  unfolding derive_client derived
  derived_lem = rw m.forth refl

  confirming : Transport
  unfolding greeting
  confirming = record greeting { pending_keys = some derived }

  mac_of : String → Bytes
  unfolding derived
  mac_of who = compute_confirmation p derived.keys.confirm_key derived.transcript who

  confirms :
      (now : ℕ)
      → client_turn p (some (Control.challenge f.public_key f.nonce)) now greeting
        ≡ (confirming, Output.send_text (Text.confirm (mac_of "client")) ∷ [])
  unfolding client_turn step greeting confirming mac_of
  confirms now = rw (m.relay_point_size, m.relay_nonce_size, derived_lem) refl

  session : Session
  session = session_of p r.psk (pair secret bs nonce) f shared

  -- The connection as `HELLO` leaves it.
  asked : Conn → Conn
  asked c = record c { stage = Stage.confirm session (claim c) }

  same_mac : (who : String) → (node_crypto p).confirmation session who ≡ mac_of who
  unfolding mac_of session derived server_keys client_keys
  same_mac who = refl

  known :
      (who : String) → bytes_equal ((node_crypto p).confirmation session who) (mac_of who) ≡ true
  known who = bytes_equal_of ((node_crypto p).confirmation session who) (mac_of who) (same_mac who)

  -- The relay's second turn: the connection becomes a peer's, and hears that it is accepted.
  accepts :
      (c : Conn) (i : Incoming)
      → let out = relay_turn p (some (Text.confirm (mac_of "client"))) (asked c) i r in
        (answered out.1 ≡ some (Control.accepted (mac_of "server")))
        × (out.2.peer ≡ some (suc r.peer_counter))
        × (out.2.stage ≡ Stage.confirm session (claim c))
  unfolding relay_turn on_text asked answered
  accepts c i =
      rw (known "client")
        (ap (λ (b : Bytes). some (Control.accepted b)) (same_mac "server"), refl, refl)

  opened : ℕ → Transport
  unfolding greeting derived
  opened now = record greeting {
    state = State.open_session;
    pending = none;
    keys = some derived.keys;
    ever_opened = true;
    opened_at = some now;
    last_pong_at = now;
    heartbeat_timer = true;
    handshake_timer = false;
  }

  opens :
      (now : ℕ)
      → (client_turn p (some (Control.accepted (mac_of "server"))) now confirming).0 ≡ opened now
  unfolding client_turn step confirming opened greeting mac_of new_transport set_state open_with
  opens now = rw (bytes_equal_refl (mac_of "server")) refl

  -- The relay's first turn, as a turn.
  challenge_turn :
      (c : Conn) (i : Incoming)
      → relay_turn p
          (some (Text.hello (4 ∷ bs) nonce (derive_room_id p r.psk) token))
          (record c { stage = Stage.hello })
          (record i { ephemeral = f })
          r
        ≡ (r, Effect.send_json c.socket (Control.challenge f.public_key f.nonce) ∷ [], asked c)
  unfolding relay_turn on_text hello asked session
  challenge_turn c i =
      ap (λ (out : Relay × List Effect × Stage). (out.0, out.1, record c { stage = out.2 }))
        (challenges (record c { stage = Stage.hello }) i.frame.now)

  -- A browser that has the relay's connection code and a relay whose room and lobby have a place come
  -- through the handshake, if ECDH gives both one secret and their keys and nonces have the right
  -- sizes: the browser's session is open, the relay has made the connection a peer's, and the keys that
  -- each sends with are those that the other receives with.
  pub handshake_succeeds :
      (c : Conn) (first second : Incoming) (now : ℕ)
      → let out =
          meet p r.psk token
            (pair secret bs nonce)
            (record c { stage = Stage.hello })
            (record first { ephemeral = f })
            second
            now
            r in
        (out.0.state ≡ State.open_session)
        × (out.2.peer ≡ some (suc r.peer_counter))
        × ((s : Session) × (out.2.stage ≡ Stage.confirm s (claim c))
            × (out.0.keys ≡ some (client_keys s.keys))
            × IsCrossed (client_keys s.keys) (server_keys s.keys))
  unfolding meet
  handshake_succeeds c first second now =
      let turn = accepts c second in
      rw
        (
          said-hello,
          dialling_lem,
          challenge_turn c first,
          answered_json,
          confirms now,
          said_text,
          turn.0,
          opens now,
        )
        (unfold opened greeting derived new_transport session in
          (refl, turn.1, (session, turn.2, refl, crossed session.keys)))
