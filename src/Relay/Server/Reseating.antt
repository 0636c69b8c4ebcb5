-- ===== src/Relay/Server/Reseating.antt =====
-- server/lib/relay.js, `#onConfirm` after `rotate`: a handshake of the old code, once more.
use vibed_st_muliplayer.Relay.Server.{refreshed, act}
use vibed_st_muliplayer.Base.{
  not, is_some, ◌++◌, ◌&&◌, arith, if◌then◌else◌, suc, ℕ, ◌≡◌, refl, ap, ◌∙◌, Bool, true, false,
  Option, none, some, List, [], ◌∷◌,
}
use vibed_st_muliplayer.Relay.State.{◌>>◌, Message, emit, skip, Status, PeerId, Bytes, Peer, Relay}
use vibed_st_muliplayer.Relay.Room.{broadcast_roster, broadcast, announce, admit, find_peer}
use vibed_st_muliplayer.Relay.Handshake.{
  Crypto, Conn, Stage, Session, new_peer, bytes_equal, on_confirm, enter, greet,
}
use vibed_st_muliplayer.Relay.Housekeeping.{rotate}
use vibed_st_muliplayer.Relay.Room.{set_peer}
use vibed_st_muliplayer.Relay.Room.Peers.{ids, ids-put}
use vibed_st_muliplayer.Relay.Server.{
  conn_message, peer_of, on_text, unhandshaken, on_socket_message, Effect, Handler, Server, Event,
  Incoming, Text, find_conn, or_unchanged, step, run,
}
use vibed_st_muliplayer.Relay.Server.Rotation.{rotate-clears}

bytes_equal_refl : (bs : Bytes) → bytes_equal bs bs ≡ true
unfolding bytes_equal
bytes_equal_refl [] = refl
bytes_equal_refl (b ∷ bs) = ground (arith, bytes_equal_refl bs)

-- The same peers, and the same host.
abbrev IsFilled : Relay → Relay × List Effect → Type 0
IsFilled r out = (ids out.0.peers ≡ ids r.peers) × (out.0.host ≡ r.host)

if-IsFilled :
    (b : Bool) (f g : Handler) (r s : Relay)
    → IsFilled r (f s)
    → IsFilled r (g s)
    → IsFilled r ((if b then f else g) s)
if-IsFilled true f g r s x y = x
if-IsFilled false f g r s x y = y

admit-IsFilled : (p : Peer) (r : Relay) → IsFilled r (admit p r)
unfolding admit announce broadcast broadcast_roster
admit-IsFilled p r =
    if-IsFilled p.admitted skip
      (set_peer (record p { admitted = true }) >> announce (record p { admitted = true })) r r
      (refl, refl) (ids-put (record p { admitted = true }) r.peers, refl)

ids-only : (p : Peer) (ps : List Peer) → ps ≡ [] → ids (ps ++ p ∷ []) ≡ p.id ∷ []
ids-only p ps e = simp e refl

slot_of :
    (wants : Bool) (n : PeerId) (o : Option PeerId)
    → o ≡ none
    → (if wants && not (is_some o) then some n else o) ≡ (if wants then some n else none)
slot_of wants n none e = ground arith
slot_of wants n (some h) e = cc

module _ (crypto : Crypto) (c : Conn) (session : Session) where
  greet-IsFilled : (p : Peer) (r : Relay) → IsFilled r (greet crypto c session p r)
  unfolding greet
  greet-IsFilled p r =
      let good = record p { status = Status.ok } in
      let (seated, slot) = admit-IsFilled good (set_peer good r).0 in
      if-IsFilled r.require_parity
        (emit (Effect.send p.id (Message.parity_challenge r.strictness) ∷ []))
        (set_peer good >> admit good) r r (refl, refl) (seated ∙ ids-put good r.peers, slot)

  enter-empty :
      (wants : Bool) (now : ℕ) (r : Relay)
      → r.peers ≡ []
      → r.host ≡ none
      → let s = (enter crypto c wants (new_peer crypto c wants now r) r).0 in
        (ids s.peers ≡ suc r.peer_counter ∷ [])
        × (s.host ≡ (if wants then some (suc r.peer_counter) else none))
  unfolding enter new_peer
  enter-empty wants now r e h = (
    ids-only (new_peer crypto c wants now r) r.peers e,
    slot_of wants (suc r.peer_counter) r.host h,
  )

  confirmed :
      (wants : Bool) (now : ℕ) (r : Relay)
      → r.peers ≡ []
      → r.host ≡ none
      → let s =
          (on_confirm crypto c session wants (crypto.confirmation session "client") now r).0 in
        (ids s.peers ≡ suc r.peer_counter ∷ [])
        × (s.host ≡ (if wants then some (suc r.peer_counter) else none))
  unfolding on_confirm
  confirmed wants now r e h =
      let p = new_peer crypto c wants now r in
      let (alone, slot) = enter-empty wants now r e h in
      let (same_ids, same_host) = greet-IsFilled p (enter crypto c wants p r).0 in
      simp (bytes_equal_refl (crypto.confirmation session "client"))
        (same_ids ∙ alone, same_host ∙ slot)

module _ (crypto : Crypto) (c : Conn) (session : Session) (wants : Bool) (m : Incoming) (r : Relay)
    (gone : r.peers ≡ []) (slot : r.host ≡ none) where
  -- The room holds one new peer, in the host slot if it may have it.
  abbrev IsReseated : Relay → Type 0
  IsReseated s =
      (ids s.peers ≡ suc r.peer_counter ∷ [])
      × (s.host ≡ (if wants then some (suc r.peer_counter) else none))

  on_text-reseats :
      (t : Text) (st : Stage)
      → t ≡ Text.confirm (crypto.confirmation session "client")
      → st ≡ Stage.confirm session wants
      → IsReseated (on_text crypto c t st m r).0
  unfolding on_text
  on_text-reseats t st text stage =
      rw text (rw stage (confirmed crypto c session wants m.frame.now r gone slot))

  unhandshaken-reseats :
      m.frame.binary ≡ false
      → m.text ≡ Text.confirm (crypto.confirmation session "client")
      → c.stage ≡ Stage.confirm session wants
      → IsReseated (unhandshaken crypto c m r).0
  unfolding unhandshaken
  unhandshaken-reseats plain text stage = simp plain (on_text-reseats m.text c.stage text stage)

nobody :
    (o : Option PeerId) (i : PeerId) (ps : List Peer) → o ≡ some i → ps ≡ [] → peer_of o ps ≡ none
unfolding peer_of find_peer
nobody o i ps owner empty = rw (owner, empty) refl

conn-reseats :
    (crypto : Crypto) (c : Conn) (session : Session) (wants : Bool) (m : Incoming) (w : Server)
    (o : Option Conn) (i n : PeerId)
    → w.relay.peers ≡ []
    → w.relay.host ≡ none
    → w.relay.peer_counter ≡ n
    → o ≡ some c
    → c.peer ≡ some i
    → m.frame.binary ≡ false
    → m.text ≡ Text.confirm (crypto.confirmation session "client")
    → c.stage ≡ Stage.confirm session wants
    → let after = (conn_message crypto o m w).0.relay in
      (ids after.peers ≡ suc n ∷ []) × (after.host ≡ (if wants then some (suc n) else none))
unfolding conn_message on_socket_message
conn-reseats crypto c session wants m w o i n gone slot count here owner plain text stage =
    rw here (
      rw (nobody c.peer i w.relay.peers owner gone) (
        rw (← count)
          (unhandshaken-reseats crypto c session wants m w.relay gone slot plain text stage)))

-- A socket that had a peer before the code was rotated, and that is still open, is back in the room
-- when its `CONFIRM` is sent once more: it is checked against the keys of the old code, and a peer
-- that had shown the host's token holds the host slot again.
pub rotate-reseats :
    (crypto : Crypto) (v : Server) (psk token : Bytes) (c : Conn) (i : PeerId) (session : Session)
    (wants : Bool) (s : ℕ) (m : Incoming)
    → v.relay.running ≡ true
    → find_conn s v.conns ≡ some c
    → c.peer ≡ some i
    → c.stage ≡ Stage.confirm session wants
    → m.frame.binary ≡ false
    → m.text ≡ Text.confirm (crypto.confirmation session "client")
    → let n = suc v.relay.peer_counter in
      let after = (run crypto v (Event.rotates psk token ∷ Event.arrives s m ∷ [])).relay in
      (ids after.peers ≡ n ∷ []) × (after.host ≡ (if wants then some n else none))
unfolding run step act refreshed
rotate-reseats crypto v psk token c i session wants s m on here owner stage plain text =
    let w = (or_unchanged v (rotate psk (crypto.room_of psk) token v.relay)).0 in
    let (gone, slot, _, counter, conns) = rotate-clears v psk (crypto.room_of psk) token on in
    conn-reseats crypto c session wants m (refreshed w) (find_conn s w.conns) i v.relay.peer_counter
      gone slot counter (ap (find_conn s) conns ∙ here) owner plain text stage
