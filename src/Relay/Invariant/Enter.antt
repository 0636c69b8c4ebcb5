-- ===== src/Relay/Invariant/Enter.antt =====
-- An arrival keeps the relay sound.
use vibed_st_muliplayer.Base.{
  ◌==◌, ==_iff, ℕ, suc, ◌≡◌, refl, Bool, true, false, not, ◌&&◌, Option, none, some, List, [], ◌∷◌,
  ◌++◌, arith, All, All-append, if◌then◌else◌, Bool-cases, inl, inr, ◌⊎◌, Option-cases, has,
  has-append, Nodup, is_some,
}
use vibed_st_muliplayer.Relay.State.{PeerId, Bytes, Peer, Status, Message, Effect, Relay, ◌>>◌}
use vibed_st_muliplayer.Relay.Room.{find_peer, set_peer, admit}
use vibed_st_muliplayer.Relay.Room.Peers.{ids}
use vibed_st_muliplayer.Relay.Handshake.{
  Crypto, Conn, Session, new_peer, enter, greet, bytes_equal, on_confirm,
}
use vibed_st_muliplayer.Relay.Invariant.{IsInPlace, IsSound, IsLive}
use vibed_st_muliplayer.Relay.Invariant.Frames.{Keeps, Keeps-then, Keeps-if, admit-Keeps}

ids-append : (ps : List Peer) (p : Peer) → ids (ps ++ p ∷ []) ≡ ids ps ++ p.id ∷ []
ids-append [] p = refl
ids-append (q ∷ ps) p = rw (ids-append ps p)

Nodup-snoc : (xs : List ℕ) (n : ℕ) → Nodup xs → has n xs ≡ false → Nodup (xs ++ n ∷ [])
Nodup-snoc [] n h k = (refl, tt)
Nodup-snoc (x ∷ xs) n h k = ground (arith, Nodup-snoc xs n h.1, has-append x xs (n ∷ []))

module _ (c : ℕ) (h : Option PeerId) where
  -- An id beyond the counter is new.
  fresh_id : (ps : List Peer) → All (IsInPlace c h) ps → has (suc c) (ids ps) ≡ false
  fresh_id [] a = refl
  fresh_id (p ∷ ps) a = ground (arith, fresh_id ps a.1, (a.0).0)

  find-append :
      (ps : List Peer) (p : Peer)
      → p.id ≡ suc c
      → All (IsInPlace c h) ps
      → find_peer p.id (ps ++ p ∷ []) ≡ some p
  unfolding find_peer
  find-append [] p e a = ground arith
  find-append (q ∷ ps) p e a = ground (arith, find-append ps p e a.1, (a.0).0)

  -- The others keep their places: the newcomer takes the slot only where it is free.
  places :
      (h' : Option PeerId) (ps : List Peer)
      → (h' ≡ h) ⊎ ((h ≡ none) × (h' ≡ some (suc c)))
      → All (IsInPlace c h) ps
      → All (IsInPlace (suc c) h') ps
  places h' [] e a = tt
  places h' (p ∷ ps) e a =
      ((ground (arith, (a.0).0), ground (arith, (a.0).0, (a.0).1)), places h' ps e a.1)

module _ {strict : Bool} (crypto : Crypto) (c : Conn) (wants_host : Bool) (now : ℕ) (r : Relay)
    (v : IsSound strict r) where
  abbrev newcomer : Peer
  newcomer = new_peer crypto c wants_host now r

  newcomer-id : newcomer.id ≡ suc r.peer_counter
  unfolding new_peer
  newcomer-id = refl

  slot : Option PeerId
  slot = if wants_host && not (is_some r.host) then some newcomer.id else r.host

  slot_cases : (slot ≡ r.host) ⊎ ((r.host ≡ none) × (slot ≡ some (suc r.peer_counter)))
  unfolding slot new_peer
  slot_cases = ground arith

  -- The number of the newcomer is not the holder's.
  held_is_old : (h : PeerId) → r.host ≡ some h → (h == suc r.peer_counter) ≡ false
  held_is_old h e = ground (
    arith,
    v.connected h e,
    fresh_id r.peer_counter r.host r.peers v.in_place,
    ==_iff h (suc r.peer_counter),
  )

  newcomer-placed : IsInPlace (suc r.peer_counter) slot newcomer
  unfolding new_peer slot
  newcomer-placed = elim (Option-cases r.host) [
    | inl free ↦ (omega arith, ground arith)
    | inr (h, taken) ↦ (omega arith, ground (arith, held_is_old h taken))
  ]

  slot_connected : (h : PeerId) → slot ≡ some h → has h (ids r.peers ++ newcomer.id ∷ []) ≡ true
  slot_connected h k =
      ground (
        arith,
        has-append h (ids r.peers) (newcomer.id ∷ []),
        newcomer-id,
        slot_cases,
        v.connected h,
      )

  slot_free : strict ≡ true → slot ≡ none → r.host_report ≡ none
  slot_free s k = ground (arith, slot_cases, v.baseline s)

  enter-IsSound : IsSound strict (enter crypto c wants_host newcomer r).0
  unfolding enter slot
  enter-IsSound = record {
    in_place =
        All-append (IsInPlace (suc r.peer_counter) slot) r.peers (newcomer ∷ [])
          (places r.peer_counter r.host slot r.peers slot_cases v.in_place) (newcomer-placed, tt);
    distinct = rw (ids-append r.peers newcomer) (
        Nodup-snoc (ids r.peers) newcomer.id v.distinct
          (rw newcomer-id (fresh_id r.peer_counter r.host r.peers v.in_place)));
    connected = λ h k. rw (ids-append r.peers newcomer) (slot_connected h k);
    baseline = slot_free;
    history = v.history;
  }

  enter-IsLive : IsLive newcomer (enter crypto c wants_host newcomer r).0
  unfolding enter
  enter-IsLive = find-append r.peer_counter r.host r.peers newcomer newcomer-id v.in_place

  -- The greeting, and the admission where the room asks for no report.
  greet-Keeps : (session : Session) (p : Peer) → Keeps strict p (greet crypto c session p)
  unfolding greet
  greet-Keeps session p s l w =
      let good = record p { status = Status.ok } in
      Keeps-if p s.require_parity
        (λ t. (t, Effect.send p.id (Message.parity_challenge s.strictness) ∷ []))
        (set_peer good >> admit good) (λ t k x. x)
        (Keeps-then p good (admit good) refl refl (admit-Keeps good)) s l w

-- A confirmation, true or false, keeps the relay sound.
pub on_confirm-IsSound :
    {strict : Bool} (crypto : Crypto) (c : Conn) (session : Session) (wants_host : Bool)
    (mac : Bytes) (now : ℕ) (r : Relay)
    → IsSound strict r
    → IsSound strict (on_confirm crypto c session wants_host mac now r).0
unfolding on_confirm
on_confirm-IsSound crypto c session wants_host mac now r v =
    elim (Bool-cases (bytes_equal (crypto.confirmation session "client") mac)) [
      | inl proved ↦ simp proved (
          greet-Keeps crypto c wants_host now r v session (new_peer crypto c wants_host now r) _
            (inl (enter-IsLive crypto c wants_host now r v))
            (enter-IsSound crypto c wants_host now r v))
      | inr wrong ↦ simp wrong (record {
        in_place = v.in_place;
        distinct = v.distinct;
        connected = v.connected;
        baseline = v.baseline;
        history = v.history;
      })
    ]
