-- ===== src/Relay/Handshake/Overfull.antt =====
-- server/lib/relay.js, `#admit` against `maxPeers`: what the count at `HELLO` does not bound.
use vibed_st_muliplayer.Base.{refl, arith, List, suc, ◌≡◌, true, false, some, [], ◌∷◌}
use vibed_st_muliplayer.Relay.State.{Peer, Relay, Status}
use vibed_st_muliplayer.Relay.Room.{find_peer, put_peer}
use vibed_st_muliplayer.Parity.{diff_reports}
use vibed_st_muliplayer.Relay.Gate.{resolve_parity}
use vibed_st_muliplayer.Relay.Room.{admit, announce, broadcast, broadcast_roster, find_peer}
use vibed_st_muliplayer.Relay.Handshake.{admitted_count}

count-put :
    (p q : Peer) (ps : List Peer)
    → find_peer p.id ps ≡ some q
    → q.admitted ≡ false
    → p.admitted ≡ true
    → admitted_count (put_peer p ps) ≡ suc (admitted_count ps)
unfolding admitted_count find_peer put_peer
count-put p q [] h n a = cc
count-put p q (x ∷ ps) h n a = ground (arith, count-put p q ps)

put_put : (p q : Peer) (ps : List Peer) → p.id ≡ q.id → put_peer p (put_peer q ps) ≡ put_peer p ps
unfolding put_peer
put_put p q [] e = refl
put_put p q (x ∷ ps) e = ground (arith, put_put p q ps)

-- Admission does not look at `maxPeers`: a peer in the lobby whose report agrees with the baseline is
-- seated, and the room then holds one peer more, however many it held before.
pub resolve_parity-admitted_count :
    (p : Peer) (r : Relay)
    → find_peer p.id r.peers ≡ some p
    → p.admitted ≡ false
    → (diff_reports r.host_report p.report).ok ≡ true
    → admitted_count (resolve_parity p r).0.peers ≡ suc (admitted_count r.peers)
unfolding resolve_parity admit announce broadcast broadcast_roster
resolve_parity-admitted_count p r h n ok = simp ok (
    simp n (
      let waiting : Peer = record p { status = Status.ok; admitted = false } in
      let seated : Peer = record p { status = Status.ok; admitted = true } in
      rw (put_put seated waiting r.peers refl) (count-put seated p r.peers h n refl)))
