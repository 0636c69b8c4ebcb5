-- ===== src/Relay/Room/Seats.antt =====
-- The room as its players see it: who is seated, who hosts, and what is remembered.
use vibed_st_muliplayer.Base.{
  ◌≡◌, refl, ◌∙◌, Option, none, some, List, [], ◌∷◌, arith, if◌then◌else◌,
}
use vibed_st_muliplayer.Relay.State.{Peer, Summary, Relay}
use vibed_st_muliplayer.Relay.Room.{find_peer, put_peer, set_peer, roster_of, summary}
use vibed_st_muliplayer.Relay.Room.Peers.{find-put}

-- The entry of a peer in the roster, if it has one.
abbrev pub seat : Peer → Option Summary
seat p = if p.admitted then some (summary p) else none

pub roster_of-put :
    (p q : Peer) (ps : List Peer)
    → find_peer p.id ps ≡ some q
    → seat p ≡ seat q
    → roster_of (put_peer p ps) ≡ roster_of ps
unfolding find_peer put_peer roster_of
roster_of-put p q [] h e = refl
roster_of-put p q (x ∷ xs) h e = ground (arith, roster_of-put p q xs)

pub find-put_self :
    (p q : Peer) (ps : List Peer)
    → find_peer p.id ps ≡ some q
    → find_peer p.id (put_peer p ps) ≡ some p
find-put_self p q ps h = ground (arith, find-put p.id p ps)

-- Nothing has changed that the players see.
pub record IsSameRoom (r s : Relay) : Type 0 where
  pub roster : roster_of s.peers ≡ roster_of r.peers
  pub host : s.host ≡ r.host
  pub host_report : s.host_report ≡ r.host_report
  pub ooc_history : s.ooc_history ≡ r.ooc_history
  pub personas : s.personas ≡ r.personas

pub IsSameRoom-refl : (r : Relay) → IsSameRoom r r
IsSameRoom-refl r = record {
  roster = refl;
  host = refl;
  host_report = refl;
  ooc_history = refl;
  personas = refl;
}

pub IsSameRoom-trans : {r s t : Relay} → IsSameRoom r s → IsSameRoom s t → IsSameRoom r t
IsSameRoom-trans a b = record {
  roster = b.roster ∙ a.roster;
  host = b.host ∙ a.host;
  host_report = b.host_report ∙ a.host_report;
  ooc_history = b.ooc_history ∙ a.ooc_history;
  personas = b.personas ∙ a.personas;
}

pub set_peer-IsSameRoom :
    (p q : Peer) (r : Relay)
    → find_peer p.id r.peers ≡ some q
    → seat p ≡ seat q
    → IsSameRoom r (set_peer p r).0
set_peer-IsSameRoom p q r h e = record {
  roster = roster_of-put p q r.peers h e;
  host = refl;
  host_report = refl;
  ooc_history = refl;
  personas = refl;
}
