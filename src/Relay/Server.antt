-- ===== src/Relay/Server.antt =====
-- server/lib/relay.js, `#onSocketMessage` and the listeners: the relay under the events that reach it.
pub mod Rotation
pub mod Reseating
use vibed_st_muliplayer.Base.{
  true, is_some, ℕ, String, Bool, Option, none, some, List, [], ◌∷◌, ◌++◌, if◌then◌else◌, filter,
  not, ◌==◌, ◌&&◌, ◌||◌, map,
}
use vibed_st_muliplayer.Relay.State.{PeerId, Bytes, Peer, Reason, Effect, Relay, Handler}
use vibed_st_muliplayer.Relay.Room.{find_peer, remove_peer}
use vibed_st_muliplayer.Relay.Frames.{Frame, begin_frame, on_opened, on_peer_frame}
use vibed_st_muliplayer.Relay.Handshake.{
  Crypto, Conn, Stage, Hello, Ephemeral, fail, reject_socket, on_upgrade, on_hello, on_confirm,
}
use vibed_st_muliplayer.Relay.Housekeeping.{Options, sweep, kick, unban, start, rotate, stop}

-- What a text frame holds: `unreadable` is anything that is neither of the two handshake messages.
pub data Text : Type 0 where
  hello : Hello → Text
  confirm : Bytes → Text
  unreadable : Text

-- A frame that arrives, as a peer's frame and as a text, and what the relay would draw for it.
pub record Incoming : Type 0 where
  pub frame : Frame
  pub text : Text
  pub ephemeral : Ephemeral

-- A peer's frame that is being inflated. The peer is the object, as the relay saw it last: it goes on
-- where the peer has left.
pub record Opening : Type 0 where
  pub socket : ℕ
  pub peer : Peer
  pub frame : Frame

pub record Server : Type 0 where
  pub relay : Relay
  pub conns : List Conn
  pub opening : List Opening

-- `arrives` is the turn of a message in the chain of its socket, `opens` the end of the inflation of
-- a compressed frame, with the time.
pub data Event : Type 0 where
  connects : ℕ → String → ℕ → Event
  arrives : ℕ → Incoming → Event
  opens : ℕ → ℕ → Event
  closes : ℕ → Event
  expires : ℕ → Event
  sweeps : ℕ → Event
  kicks : PeerId → Bool → Event
  unbans : String → Event
  starts : Options → Bytes → Bytes → Event
  rotates : Bytes → Bytes → Event
  stops : Event

unfoldable pub find_conn : ℕ → List Conn → Option Conn
find_conn s [] = none
find_conn s (c ∷ cs) = if c.socket == s then some c else find_conn s cs

unfoldable pub put_conn : Conn → List Conn → List Conn
put_conn c [] = []
put_conn c (d ∷ ds) = if d.socket == c.socket then c ∷ ds else d ∷ put_conn c ds

-- `socket.__peerId ? this.peers.get(socket.__peerId) : null`
unfoldable pub peer_of : Option PeerId → List Peer → Option Peer
unfolding find_peer
peer_of none ps = none
peer_of (some i) ps = find_peer i ps

-- The `close` listener.
unfoldable pub on_close : ℕ → Option PeerId → Handler
unfolding remove_peer
on_close s none r = (record r { pending = filter (λ x. not (x == s)) r.pending }, [])
on_close s (some i) r = remove_peer i (record r { pending = filter (λ x. not (x == s)) r.pending })

unfoldable pub admit_conn : List Conn → Option Conn → List Conn
admit_conn cs none = cs
admit_conn cs (some c) = cs ++ c ∷ []

-- The closures of a closed socket live on: messages that its chain still holds have their turn.
unfoldable pub conn_close : Option Conn → ℕ → Server → Server × List Effect
unfolding on_close put_conn
conn_close none s v = (v, [])
conn_close (some c) s v =
    let out = on_close s c.peer v.relay in
    (record v { relay = out.0; conns = put_conn (record c { closed = true }) v.conns }, out.1)

-- The handshake timer, which is cleared when the socket has become a peer's, and when it closes.
unfoldable pub on_timeout : Option Conn → Handler
on_timeout none r = (r, [])
on_timeout (some c) r =
    if is_some c.peer || c.closed then (r, []) else reject_socket c.socket Reason.timeout r

abbrev pub on_relay : Handler → Server → Server × List Effect
on_relay f v = (record v { relay = (f v.relay).0 }, (f v.relay).1)

-- What throws changes nothing: `start` where the relay is running, `rotate` where it is not.
abbrev pub or_unchanged : Server → Option (Relay × List Effect) → Server × List Effect
or_unchanged v none = (v, [])
or_unchanged v (some (r, es)) = (record v { relay = r }, es)

unfoldable pub find_opening : ℕ → List Opening → Option Opening
find_opening s [] = none
find_opening s (o ∷ os) = if o.socket == s then some o else find_opening s os

abbrev pub or_last : Peer → Option Peer → Peer
or_last last none = last
or_last last (some p) = p

-- The peers of the frames that are being inflated, as they are now.
unfoldable pub refreshed : Server → Server
unfolding find_peer
refreshed v = record v {
  opening =
      map (λ (o : Opening). record o { peer = or_last o.peer (find_peer o.peer.id v.relay.peers) })
        v.opening;
}

abbrev pub defer : ℕ → Frame → Option Peer → List Opening → List Opening
defer s frame none os = os
defer s frame (some p) os = os ++ record { socket = s; peer = p; frame = frame } ∷ []

-- A compressed frame of a peer, until it is being inflated.
unfoldable pub begin_opening : Conn → Frame → Option Peer → Server → Server × List Effect
unfolding begin_frame
begin_opening c frame none v = (v, [])
begin_opening c frame (some p) v =
    let out = begin_frame p frame v.relay in
    (record v { relay = out.0; opening = defer c.socket frame out.2 v.opening }, out.1)

-- The rest of `#onPeerFrame`, whether the peer is still in the room or not.
unfoldable pub end_opening : Option Opening → ℕ → Server → Server × List Effect
unfolding on_opened find_peer
end_opening none now v = (v, [])
end_opening (some o) now v =
    let p = or_last o.peer (find_peer o.peer.id v.relay.peers) in
    let out = on_opened p now o.frame.size o.frame.stamp o.frame.opened v.relay in
    (
      record v {
        relay = out.0;
        opening = filter (λ (x : Opening). not (x.socket == o.socket)) v.opening;
      },
      out.1,
    )

module _ (crypto : Crypto) where
  -- The handshake messages, each at its stage; all else is a failure of the address.
  unfoldable pub on_text : Conn → Text → Stage → Incoming → Relay → Relay × List Effect × Conn
  unfolding on_hello on_confirm
  on_text c (Text.hello h) Stage.hello m r =
      let out = on_hello crypto c h m.ephemeral m.frame.now r in
      (out.0, out.1, record c { stage = out.2 })
  on_text c (Text.confirm mac) (Stage.confirm session wants_host) m r =
      let out = on_confirm crypto c session wants_host mac m.frame.now r in
      (out.0, out.1, record c { peer = out.2 })
  on_text c _ _ m r = let out = fail c m.frame.now Reason.malformed r in (out.0, out.1, c)

  unfoldable pub unhandshaken : Conn → Incoming → Relay → Relay × List Effect × Conn
  unfolding on_text
  unhandshaken c m r =
      let out = fail c m.frame.now Reason.malformed r in
      if m.frame.binary then (out.0, out.1, c) else on_text c m.text c.stage m r

  -- `#onSocketMessage`
  unfoldable pub on_socket_message :
      Conn → Incoming → Option Peer → Relay → Relay × List Effect × Conn
  unfolding on_peer_frame unhandshaken
  on_socket_message c m none r = unhandshaken c m r
  on_socket_message c m (some p) r = let out = on_peer_frame p m.frame r in (out.0, out.1, c)

  unfoldable pub conn_message : Option Conn → Incoming → Server → Server × List Effect
  unfolding on_socket_message put_conn peer_of begin_opening find_opening
  conn_message none m s = (s, [])
  conn_message (some c) m s =
      let o = peer_of c.peer s.relay.peers in
      let out = on_socket_message c m o s.relay in
      -- The chain of the socket starts no frame of the peer before the one that is being inflated is
      -- done.
      if is_some o && is_some (find_opening c.socket s.opening)
      then (s, [])
      else if is_some o && m.frame.compressed
      then begin_opening c m.frame o s
      else (record s { relay = out.0; conns = put_conn out.2 s.conns }, out.1)

  unfoldable pub act : Server → Event → Server × List Effect
  unfolding on_upgrade admit_conn conn_message conn_close on_timeout find_conn sweep kick unban
      start rotate stop find_opening end_opening
  act v (Event.connects s ip now) =
      let out = on_upgrade s ip now v.relay in
      (record v { relay = out.0; conns = admit_conn v.conns out.2 }, out.1)
  act v (Event.arrives s m) = conn_message (find_conn s v.conns) m v
  act v (Event.opens s now) = end_opening (find_opening s v.opening) now v
  act v (Event.closes s) = conn_close (find_conn s v.conns) s v
  act v (Event.expires s) = on_relay (on_timeout (find_conn s v.conns)) v
  act v (Event.sweeps now) = on_relay (sweep now) v
  act v (Event.kicks i ban) = on_relay (kick i ban) v
  act v (Event.unbans ip) = on_relay (unban ip) v
  act v (Event.starts options psk token) =
      or_unchanged v (start options psk (crypto.room_of psk) token v.relay)
  act v (Event.rotates psk token) = or_unchanged v (rotate psk (crypto.room_of psk) token v.relay)
  act v Event.stops = on_relay stop v

  -- One event.
  unfoldable pub step : Server → Event → Server × List Effect
  unfolding act refreshed
  step v e = let out = act v e in (refreshed out.0, out.1)

  unfoldable pub run : Server → List Event → Server
  unfolding step
  run v [] = v
  run v (e ∷ es) = run (step v e).0 es
