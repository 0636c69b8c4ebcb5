-- ===== src/Relay/Frames/Quieting.antt =====
-- server/lib/relay.js, `#onPeerFrame` and `#onOoc`: what is announced twice, and what is kept of a text.
use vibed_st_muliplayer.Base.{
  sym, ap, arith, ◌∷◌, List, false, ◌≡◌, refl, String, Option, some, [], inl, inr, Bool-cases,
}
use vibed_st_muliplayer.Base.Texts.{same_refl, same, same→eq}
use vibed_st_muliplayer.Protocol.{is_host}
use vibed_st_muliplayer.Relay.State.{Peer, Relay}
use vibed_st_muliplayer.Relay.Room.{
  broadcast, broadcast_roster, broadcast_host_name, put_peer, find_peer,
}
use vibed_st_muliplayer.Relay.Frames.{
  broadcast, broadcast_host_name, broadcast_roster, announced, rename,
}

renamed_peers :
    (p : Peer) (name : Option String) (r : Relay)
    → same p.name (announced name) ≡ false
    → (rename p name r).0.peers ≡ put_peer (record p { name = announced name }) r.peers
unfolding rename broadcast_roster broadcast_host_name broadcast
renamed_peers p name r new = elim (Bool-cases (is_host p.role)) [
  | inl host ↦ simp new (simp host refl)
  | inr client ↦ simp new (simp client refl)
]

-- The peer that is put is found.
found_again :
    (p q : Peer) (ps : List Peer)
    → find_peer p.id ps ≡ some q
    → find_peer p.id (put_peer p ps) ≡ some p
unfolding find_peer put_peer
found_again p q [] h = cc
found_again p q (x ∷ ps) h = ground (arith, found_again p q ps)

-- After an announcement the peer has the announced name.
rename-name :
    (p q : Peer) (name : Option String) (r : Relay)
    → find_peer p.id r.peers ≡ some p
    → find_peer p.id (rename p name r).0.peers ≡ some q
    → q.name ≡ announced name
unfolding rename
rename-name p q name r h k = elim (Bool-cases (same p.name (announced name))) [
  | inl again ↦ let e : p ≡ q = cc in simp (← e) (same→eq p.name (announced name) again)
  | inr new ↦
      let p' : Peer = record p { name = announced name } in
      let found : find_peer p.id (put_peer p' r.peers) ≡ some p' = found_again p' p r.peers h in
      let k' : find_peer p.id (put_peer p' r.peers) ≡ some q =
        rw (← renamed_peers p name r new) k in
      let e : p' ≡ q = cc in ap (λ x. x.name) (sym e)
]

rename-quiet :
    (q : Peer) (name : Option String) (r : Relay)
    → q.name ≡ announced name
    → rename q name r ≡ (r, [])
unfolding rename
rename-quiet q name r e = simp e (simp (same_refl (announced name)) refl)

-- A peer that announces the same name again is not heard: once the announcement has been handled, the
-- same announcement by the peer as it now stands changes nothing and sends nothing.
pub rename_twice :
    (p q : Peer) (name : Option String) (r : Relay)
    → find_peer p.id r.peers ≡ some p
    → find_peer p.id (rename p name r).0.peers ≡ some q
    → rename q name (rename p name r).0 ≡ ((rename p name r).0, [])
rename_twice p q name r h k = rename-quiet q name (rename p name r).0 (rename-name p q name r h k)
