-- ===== src/Relay/Frames.antt =====
-- server/lib/relay.js, `#onPeerFrame`, `#onOoc` and `#onPersona`: what becomes of a peer's frame.
pub mod Authorship
pub mod Confinement
pub mod Delivery
pub mod Quieting
use vibed_st_muliplayer.Base.{
  ℕ, ◌+◌, ◌-◌, String, Bool, not, ◌&&◌, Option, none, some, List, [], ◌∷◌, ◌++◌, if◌then◌else◌,
  length, drop, ltb,
}
use vibed_st_muliplayer.Base.Texts.{same, cut, or_else, is_empty, without_nul, trim}
use vibed_st_muliplayer.Protocol.{
  Op, is_host, client_allowed, to_host_only, echo_to_sender, stamp_identity,
}
use vibed_st_muliplayer.Protocol.Limits
use vibed_st_muliplayer.Replay.{accept}
use vibed_st_muliplayer.Limiter.{spend}
use vibed_st_muliplayer.Relay.State.{
  PeerId, Peer, Persona, Payload, OocMessage, Message, Effect, Relay, Handler, ◌>>◌, reading, skip,
  emit,
}
use vibed_st_muliplayer.Relay.Room.{
  find_peer, put_peer, set_peer, put_persona, broadcast, broadcast_roster, broadcast_host_name,
}
use vibed_st_muliplayer.Relay.Gate.{protocol_error, on_parity_report}

-- A frame off the wire: whether it is binary and compressed, its size, the time, the random part of an
-- id, and what `openFrame` makes of it: `none` where it throws, and else the counter and the payload, which is
-- `none` where it has no text opcode.
pub record Frame : Type 0 where
  pub binary : Bool
  pub compressed : Bool
  pub size : ℕ
  pub now : ℕ
  pub stamp : String
  pub opened : Option (ℕ × Option Payload)

-- `payload.name ?? 'Player'`, cut, and never empty.
abbrev pub announced : Option String → String
announced none = "Player"
announced (some name) = or_else (cut 40 name) "Player"

-- The `ROSTER` case.
unfoldable pub rename : Peer → Option String → Handler
unfolding put_peer broadcast_roster broadcast_host_name
rename p name =
    if same p.name (announced name)
    then skip
    else set_peer (record p { name = announced name })
      >> (if is_host p.role then broadcast_host_name else skip)
      >> broadcast_roster

-- The `PONG` case.
unfoldable pub measure : Peer → ℕ → Option ℕ → Handler
unfolding put_peer
measure p now none = skip
measure p now (some t) = set_peer (record p { rtt = some (now - t) })

-- `payload.text`, cleaned.
unfoldable pub ooc_text : String → String
unfolding trim without_nul
ooc_text text = trim (cut Limits.ooc_max_length (without_nul text))

-- The push and the splice: the oldest messages beyond the cap go.
unfoldable pub push_bounded : List OocMessage → OocMessage → List OocMessage
push_bounded old m =
    let all = old ++ m ∷ [] in
    if ltb Limits.ooc_history (length all) then drop (length all - Limits.ooc_history) all else all

abbrev pub remember : OocMessage → Handler
remember m r = (record r { ooc_history = push_bounded r.ooc_history m }, [])

-- Stored, and echoed to the whole room.
unfoldable pub post : OocMessage → Handler
unfolding push_bounded broadcast
post m =
    remember m
    >> broadcast (Message.ooc m) (if echo_to_sender Op.ooc_message then none else some m.author)

-- `#onOoc`
unfoldable pub on_ooc : Peer → ℕ → String → String → Handler
unfolding ooc_text post
on_ooc p now stamp text =
    if is_empty (ooc_text text)
    then skip
    else post (record {
      id = stamp;
      author = p.id;
      name = p.name;
      role = p.role;
      text = ooc_text text;
      sent_at = now;
    })

abbrev pub wear : Persona → Handler
wear v r = (record r { personas = put_persona v.author v r.personas }, [])

unfoldable pub publish : Persona → Handler
unfolding broadcast put_persona
publish v = wear v >> broadcast (Message.persona v) none

-- `#onPersona`
unfoldable pub on_persona : Peer → Option String → Handler
unfolding publish
on_persona p none = skip
on_persona p (some persona) =
    publish (record { author = p.id; name = p.name; role = p.role; persona = persona })

-- To the recipient that the host names, if it is in the room.
unfoldable pub deliver : Message → Option Peer → List Effect
deliver m none = []
deliver m (some target) = if target.admitted then Effect.send target.id m ∷ [] else []

abbrev pub stamped_frame : Peer → Payload → Message
stamped_frame p f =
    if stamp_identity f.op
    then Message.forwarded f (some p.id) (some p.name)
    else Message.forwarded f none none

-- To everybody but the sender, or to `payload.to` alone.
unfoldable pub address : Message → PeerId → Option PeerId → Handler
unfolding deliver broadcast find_peer
address m sender none = broadcast m (some sender)
address m sender (some i) = reading λ r. emit (deliver m (find_peer i r.peers))

unfoldable pub host_frame : Peer → Payload → Handler
unfolding address
host_frame p f = address (stamped_frame p f) p.id f.to

unfoldable pub to_host : Peer → Payload → Option PeerId → List Effect
to_host p f none = Effect.send p.id (Message.error "The host is not connected right now.") ∷ []
to_host p f (some h) = Effect.send h (Message.forwarded f (some p.id) none) ∷ []

-- `{ ...payload, from: peer.id }`: the payload goes out as it came, with the name and the role that it
-- may hold, which nothing checks; the relay sets `from` alone.
unfoldable pub client_frame : Peer → Payload → Handler
unfolding to_host broadcast
client_frame p f =
    let direct : Handler = reading λ r. emit (to_host p f r.host) in
    if to_host_only f.op
    then direct
    else broadcast (Message.forwarded f (some p.id) none) (some p.id)

-- The frames that only a seated peer may send.
unfoldable pub room_frame : Peer → ℕ → String → Payload → Op → Handler
unfolding on_ooc on_persona host_frame client_frame broadcast
room_frame p now stamp f Op.ooc_message = on_ooc p now stamp f.text
room_frame p now stamp f Op.ooc_typing = broadcast (Message.ooc_typing p.id p.name) (some p.id)
room_frame p now stamp f Op.persona_state = on_persona p f.persona
room_frame p now stamp f Op.chat_typing =
    broadcast (Message.chat_typing p.id p.name f.typing) (some p.id)
room_frame p now stamp f _ = if is_host p.role then host_frame p f else client_frame p f

-- The `switch` on the opcode.
unfoldable pub on_op : Peer → ℕ → String → Payload → Op → Handler
unfolding rename measure on_parity_report room_frame
on_op p now stamp f Op.ping = emit (Effect.send p.id (Message.pong f.t) ∷ [])
on_op p now stamp f Op.pong = measure p now f.t
on_op p now stamp f Op.roster = rename p f.name
on_op p now stamp f Op.parity_report = on_parity_report p f.report
on_op p now stamp f op = if p.admitted then room_frame p now stamp f op else skip

unfoldable pub on_payload : Peer → ℕ → String → Option Payload → Handler
unfolding on_op
on_payload p now stamp none = protocol_error p
on_payload p now stamp (some f) =
    if not (is_host p.role) && not (client_allowed f.op) then skip else on_op p now stamp f f.op

-- After decryption: the replay guard, then the payload.
unfoldable pub on_opened : Peer → ℕ → ℕ → String → Option (ℕ × Option Payload) → Handler
unfolding on_payload put_peer accept
on_opened p now size stamp none = protocol_error p
on_opened p now size stamp (some (counter, payload)) =
    let (replay, fresh) = accept p.replay counter in
    let seen = record p { replay = replay; last_seen = now; bytes_in = p.bytes_in + size } in
    if fresh
    then set_peer seen >> on_payload seen now stamp payload
    else set_peer (record p { replay = replay }) >> protocol_error p

-- `#onPeerFrame` until it waits for `openFrame`, with the peer that it goes on with, if it does.
unfoldable pub begin_frame : Peer → Frame → Relay → Relay × List Effect × Option Peer
unfolding put_peer spend
begin_frame p frame r =
    let (messages, bytes, granted) = spend p.message_bucket p.byte_bucket frame.now frame.size in
    let charged = record p { message_bucket = messages; byte_bucket = bytes } in
    let refused = (set_peer charged >> protocol_error charged) r in
    if not frame.binary
    then (r, (protocol_error p r).1, none)
    else if granted
    then ((set_peer charged r).0, [], some charged)
    else (refused.0, refused.1, none)

-- `#onPeerFrame` of a frame that is not compressed: `openFrame` waits for nothing, and nothing comes
-- between. Relay/Server has the others, which `begin_frame` and `on_opened` handle in two events.
unfoldable pub on_peer_frame : Peer → Frame → Handler
unfolding on_opened put_peer spend
on_peer_frame p frame =
    let (messages, bytes, granted) = spend p.message_bucket p.byte_bucket frame.now frame.size in
    let charged = record p { message_bucket = messages; byte_bucket = bytes } in
    if not frame.binary
    then protocol_error p
    else set_peer charged
      >> (if granted
          then on_opened charged frame.now frame.size frame.stamp frame.opened
          else protocol_error charged)
