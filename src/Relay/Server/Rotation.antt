-- ===== src/Relay/Server/Rotation.antt =====
-- server/lib/relay.js, `rotate` and what follows it: what a new connection code leaves behind.
use vibed_st_muliplayer.Relay.Server.{refreshed, act}
use vibed_st_muliplayer.Base.{ℕ, ◌≡◌, refl, ◌∙◌, true, Option, none, some, List, [], ◌∷◌}
use vibed_st_muliplayer.Relay.State.{PeerId, Bytes, Relay}
use vibed_st_muliplayer.Relay.Room.{find_peer, remove_peer}
use vibed_st_muliplayer.Relay.Handshake.{Crypto, Conn}
use vibed_st_muliplayer.Relay.Housekeeping.{rotate}
use vibed_st_muliplayer.Relay.Server.{
  Server, Event, find_conn, or_unchanged, step, run, conn_close, on_close,
}

-- The sockets of the list close, one after the other.
abbrev pub closings : List ℕ → List Event
closings [] = []
closings (s ∷ ss) = Event.closes s ∷ closings ss

-- With no peer in the room, a socket that closes takes no persona with it.
on_close-keeps :
    (s : ℕ) (o : Option PeerId) (r : Relay)
    → r.peers ≡ []
    → ((on_close s o r).0.peers ≡ []) × ((on_close s o r).0.personas ≡ r.personas)
unfolding on_close remove_peer find_peer
on_close-keeps s none r e = (e, refl)
on_close-keeps s (some i) r e = simp e (refl, refl)

conn_close-keeps :
    (o : Option Conn) (s : ℕ) (v : Server)
    → v.relay.peers ≡ []
    → ((conn_close o s v).0.relay.peers ≡ [])
      × ((conn_close o s v).0.relay.personas ≡ v.relay.personas)
unfolding conn_close
conn_close-keeps none s v e = (e, refl)
conn_close-keeps (some c) s v e = on_close-keeps s c.peer v.relay e

module _ (crypto : Crypto) where
  closings-keep :
      (ss : List ℕ) (v : Server)
      → v.relay.peers ≡ []
      → (run crypto v (closings ss)).relay.personas ≡ v.relay.personas
  unfolding run step act refreshed
  closings-keep [] v e = refl
  closings-keep (s ∷ ss) v e =
      let (gone, kept) = conn_close-keeps (find_conn s v.conns) s v e in
      closings-keep ss (refreshed (conn_close (find_conn s v.conns) s v).0) gone ∙ kept

-- The relay right after the rotation.
pub rotate-clears :
    (v : Server) (psk room token : Bytes)
    → v.relay.running ≡ true
    → let w = (or_unchanged v (rotate psk room token v.relay)).0 in
      (w.relay.peers ≡ [])
      × (w.relay.host ≡ none)
      × (w.relay.personas ≡ v.relay.personas)
      × (w.relay.peer_counter ≡ v.relay.peer_counter)
      × (w.conns ≡ v.conns)
unfolding rotate
rotate-clears v psk room token on = simp on (refl, refl, refl, refl, refl)

-- A new connection code throws every peer out of the room, but whichever sockets close after it, the
-- personas of all those peers stay, for `#admit` to hand to whoever comes next.
pub rotate-personas :
    (crypto : Crypto) (v : Server) (psk token : Bytes) (ss : List ℕ)
    → v.relay.running ≡ true
    → (run crypto v (Event.rotates psk token ∷ closings ss)).relay.personas ≡ v.relay.personas
unfolding run step act refreshed
rotate-personas crypto v psk token ss on =
    let w = (or_unchanged v (rotate psk (crypto.room_of psk) token v.relay)).0 in
    let (gone, _, kept, _, _) = rotate-clears v psk (crypto.room_of psk) token on in
    closings-keep crypto ss (refreshed w) gone ∙ kept
