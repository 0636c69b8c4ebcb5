-- ===== src/Relay/Room.antt =====
-- server/lib/relay.js: the map of peers, sending, the roster, admission and departure.
pub mod Peers
pub mod Sends
pub mod Seats
use vibed_st_muliplayer.Base.{
  ℕ, ◌+◌, String, Bool, true, false, not, ◌&&◌, ◌||◌, Option, none, some, List, [], ◌∷◌, ◌++◌, ◌==◌,
  if◌then◌else◌, holds, filter, suc,
}
use vibed_st_muliplayer.Protocol.{Role, is_host}
use vibed_st_muliplayer.Parity.{Diff}
use vibed_st_muliplayer.Relay.State.{
  PeerId, Peer, Persona, Summary, OocMessage, Message, Effect, Relay, Handler, ◌>>◌, reading, skip,
  emit,
}

-- `this.peers.get(id)`
unfoldable pub find_peer : PeerId → List Peer → Option Peer
find_peer i [] = none
find_peer i (p ∷ ps) = if p.id == i then some p else find_peer i ps

-- The peers with this one in place of the one with its id: peers are shared objects, changed in place.
unfoldable pub put_peer : Peer → List Peer → List Peer
put_peer p [] = []
put_peer p (q ∷ qs) = if q.id == p.id then p ∷ qs else q ∷ put_peer p qs

-- `this.peers.delete(id)`
unfoldable pub drop_peer : PeerId → List Peer → List Peer
drop_peer i [] = []
drop_peer i (p ∷ ps) = if p.id == i then ps else p ∷ drop_peer i ps

-- `this.personas.set(id, …)` and `this.personas.delete(id)`
unfoldable pub put_persona : PeerId → Persona → List (PeerId × Persona) → List (PeerId × Persona)
put_persona i v [] = (i, v) ∷ []
put_persona i v ((j, w) ∷ m) = if j == i then (i, v) ∷ m else (j, w) ∷ put_persona i v m

unfoldable pub drop_persona : PeerId → List (PeerId × Persona) → List (PeerId × Persona)
drop_persona i [] = []
drop_persona i ((j, w) ∷ m) = if j == i then m else (j, w) ∷ drop_persona i m

abbrev pub set_peer : Peer → Handler
set_peer p r = (record r { peers = put_peer p r.peers }, [])

-- `Peer.summary()`
abbrev pub summary : Peer → Summary
summary p = record { id = p.id; name = p.name; role = p.role; rtt = p.rtt }

-- `#broadcast`: to every admitted peer but the excepted one.
unfoldable pub broadcast_to : Message → Option PeerId → List Peer → List Effect
broadcast_to m except [] = []
broadcast_to m except (p ∷ ps) =
    if p.admitted && not (holds except p.id)
    then Effect.send p.id m ∷ broadcast_to m except ps
    else broadcast_to m except ps

unfoldable pub broadcast : Message → Option PeerId → Handler
broadcast m except r = (r, broadcast_to m except r.peers)

unfoldable pub roster_of : List Peer → List Summary
roster_of [] = []
roster_of (p ∷ ps) = if p.admitted then summary p ∷ roster_of ps else roster_of ps

unfoldable pub broadcast_roster : Handler
unfolding broadcast
broadcast_roster = reading λ r. broadcast (Message.roster (roster_of r.peers)) none

-- `this.host?.name`
abbrev pub host_name : Relay → Option String
host_name r = elim r.host [
  | none ↦ none
  | some h ↦ elim (find_peer h r.peers) [ none ↦ none | some p ↦ some p.name ]
]

unfoldable pub broadcast_host_name : Handler
unfolding broadcast
broadcast_host_name = reading λ r. broadcast (Message.welcome_update (host_name r)) none

unfoldable pub send_personas : PeerId → List (PeerId × Persona) → List Effect
send_personas i [] = []
send_personas i ((j, v) ∷ m) =
    if j == i then send_personas i m else Effect.send i (Message.persona v) ∷ send_personas i m

unfoldable pub send_history : PeerId → List OocMessage → List Effect
send_history i [] = []
send_history i (m ∷ ms) = Effect.send i (Message.ooc_history (m ∷ ms)) ∷ []

-- The host is asked to share its cards again, unless the newcomer is the host.
unfoldable pub ask_republish : Peer → Option PeerId → List Effect
ask_republish p none = []
ask_republish p (some h) =
    if is_host p.role then [] else Effect.send h (Message.cards_want_republish p.id) ∷ []

-- What follows when a peer has been seated.
unfoldable pub announce : Peer → Handler
unfolding broadcast broadcast_roster send_personas send_history ask_republish
announce p =
    emit (Effect.send p.id Message.parity_passed ∷ [])
    >> broadcast (Message.peer_join (summary p)) (some p.id)
    >> broadcast_roster
    >> (reading λ r. emit (send_history p.id r.ooc_history))
    >> (reading λ r. emit (send_personas p.id r.personas))
    >> (reading λ r. emit (ask_republish p r.host))

-- `#admit`
unfoldable pub admit : Peer → Handler
unfolding announce put_peer
admit p =
    if p.admitted
    then skip
    else set_peer (record p { admitted = true }) >> announce (record p { admitted = true })

-- What the others hear when an admitted peer has left.
unfoldable pub announce_leave : Peer → Handler
unfolding broadcast broadcast_roster
announce_leave p =
    if p.admitted then broadcast (Message.peer_leave (summary p)) none >> broadcast_roster else skip

-- The host slot falls free with the host.
unfoldable pub vacate : PeerId → Handler
vacate i r = if holds r.host i then (record r { host = none; host_report = none }, []) else (r, [])

abbrev pub forget : PeerId → Handler
forget i r = (record r { peers = drop_peer i r.peers; personas = drop_persona i r.personas }, [])

-- `#removePeer`
unfoldable pub remove_peer : PeerId → Handler
unfolding announce_leave vacate drop_peer drop_persona find_peer
remove_peer i r = elim (find_peer i r.peers) [
  | none ↦ (r, [])
  | some p ↦ (forget i >> vacate i >> announce_leave p) r
]
