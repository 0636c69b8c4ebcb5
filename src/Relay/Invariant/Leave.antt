-- ===== src/Relay/Invariant/Leave.antt =====
-- A departure keeps the relay sound.
use vibed_st_muliplayer.Base.{Bool}
use vibed_st_muliplayer.Base.{
  subst, ◌==◌, ==_iff, ◌≢◌, ℕ, ◌≡◌, refl, true, false, none, some, List, [], ◌∷◌, arith, All,
  Bool-cases, inl, inr, Option-cases, has, Nodup, holds,
}
use vibed_st_muliplayer.Relay.State.{PeerId, Peer, Relay, Handler, ◌>>◌}
use vibed_st_muliplayer.Relay.Room.{
  find_peer, drop_peer, broadcast, broadcast_roster, forget, vacate, announce_leave, remove_peer,
}
use vibed_st_muliplayer.Relay.Room.Peers.{ids, All-drop}
use vibed_st_muliplayer.Relay.Invariant.{IsInPlace, IsSound}

has-drop :
    (i j : PeerId) (ps : List Peer) → has j (ids (drop_peer i ps)) ≡ true → has j (ids ps) ≡ true
unfolding drop_peer
has-drop i j [] h = h
has-drop i j (p ∷ ps) h = ground (arith, has-drop i j ps)

has-drop_ne :
    (i j : PeerId) (ps : List Peer)
    → has j (ids ps) ≡ true
    → i ≢ j
    → has j (ids (drop_peer i ps)) ≡ true
unfolding drop_peer
has-drop_ne i j [] h n = h
has-drop_ne i j (p ∷ ps) h n = ground (arith, has-drop_ne i j ps)

drop-Nodup : (i : PeerId) (ps : List Peer) → Nodup (ids ps) → Nodup (ids (drop_peer i ps))
unfolding drop_peer
drop-Nodup i [] h = tt
drop-Nodup i (p ∷ ps) h = ground (arith, drop-Nodup i ps h.1, has-drop i p.id ps)

All-others :
    (c : ℕ) (i : PeerId) (ps : List Peer)
    → has i (ids ps) ≡ false
    → All (IsInPlace c (some i)) ps
    → All (IsInPlace c none) ps
All-others c i [] n a = tt
All-others c i (p ∷ ps) n a =
    (((a.0).0, ground (arith, (a.0).1)), All-others c i ps (ground arith) a.1)

-- Once the holder of the slot is gone, nobody else has its role.
All-vacated :
    (c : ℕ) (i : PeerId) (ps : List Peer)
    → Nodup (ids ps)
    → All (IsInPlace c (some i)) ps
    → All (IsInPlace c none) (drop_peer i ps)
unfolding drop_peer
All-vacated c i [] n a = tt
All-vacated c i (p ∷ ps) n a = elim (Bool-cases (p.id == i)) [
  | inl hit ↦
      let e : p.id ≡ i = (==_iff p.id i).0 hit in simp hit (All-others c i ps (rw (← e) n.0) a.1)
  | inr miss ↦ simp miss (((a.0).0, ground (arith, (a.0).1)), All-vacated c i ps n.1 a.1)
]

announce_leave-state : (p : Peer) (r : Relay) → (announce_leave p r).0 ≡ r
unfolding announce_leave broadcast broadcast_roster
announce_leave-state p r = ground arith

forgotten : PeerId → Handler
forgotten i = forget i >> vacate i

forgotten-IsSound :
    {strict : Bool} (i : PeerId) (r : Relay) → IsSound strict r → IsSound strict (forgotten i r).0
unfolding forgotten vacate
forgotten-IsSound i r v = elim (Bool-cases (holds r.host i)) [
  | inl hosts ↦
      let e : r.host ≡ some i = ground arith in
      simp hosts (record {
        in_place =
            All-vacated r.peer_counter i r.peers v.distinct
              (subst (λ h. All (IsInPlace r.peer_counter h) r.peers) e v.in_place);
        distinct = drop-Nodup i r.peers v.distinct;
        connected = λ h k. cc;
        baseline = λ s k. refl;
        history = v.history;
      })
  | inr other ↦ simp other (record {
    in_place = All-drop (IsInPlace r.peer_counter r.host) i r.peers v.in_place;
    distinct = drop-Nodup i r.peers v.distinct;
    connected = λ h k. has-drop_ne i h r.peers (v.connected h k) (λ e. ground arith);
    baseline = v.baseline;
    history = v.history;
  })
]

pub remove_peer-IsSound :
    {strict : Bool} (i : PeerId) (r : Relay) → IsSound strict r → IsSound strict (remove_peer i r).0
unfolding remove_peer forgotten
remove_peer-IsSound i r v = elim (Option-cases (find_peer i r.peers)) [
  | inl gone ↦ rw (gone, remove_peer) v
  | inr (p, here) ↦
      rw (here, remove_peer, announce_leave-state p (forgotten i r).0) (forgotten-IsSound i r v)
]
