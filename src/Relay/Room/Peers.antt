-- ===== src/Relay/Room/Peers.antt =====
-- The map of peers under its operations.
use vibed_st_muliplayer.Base.{
  inr, inl, Bool-cases, All, ◌≡◌, refl, Option, none, some, List, [], ◌∷◌, arith, if◌then◌else◌,
  ◌==◌,
}
use vibed_st_muliplayer.Protocol.{Role}
use vibed_st_muliplayer.Relay.State.{PeerId, Peer}
use vibed_st_muliplayer.Relay.Room.{drop_peer, find_peer, put_peer}

pub find-put :
    (i : PeerId) (p : Peer) (ps : List Peer)
    → find_peer i (put_peer p ps) ≡ (
        if p.id == i
        then (elim (find_peer i ps) [ none ↦ none | some q ↦ some p ])
        else find_peer i ps)
unfolding find_peer put_peer
find-put i p [] = ground arith
find-put i p (q ∷ qs) = ground (arith, find-put i p qs)

abbrev pub ids : List Peer → List PeerId
ids [] = []
ids (p ∷ ps) = p.id ∷ ids ps

-- The role of the peer with this id.
unfoldable pub role_of : PeerId → List Peer → Option Role
role_of i [] = none
role_of i (p ∷ ps) = if p.id == i then some p.role else role_of i ps

pub ids-put : (p : Peer) (ps : List Peer) → ids (put_peer p ps) ≡ ids ps
unfolding put_peer
ids-put p [] = refl
ids-put p (q ∷ qs) = ground (arith, ids-put p qs)

pub role_of-put :
    (i : PeerId) (p : Peer) (ps : List Peer)
    → role_of p.id ps ≡ some p.role
    → role_of i (put_peer p ps) ≡ role_of i ps
unfolding put_peer role_of
role_of-put i p [] h = refl
role_of-put i p (q ∷ qs) h = ground (arith, role_of-put i p qs)

pub role_of-find :
    (i : PeerId) (p : Peer) (ps : List Peer)
    → find_peer i ps ≡ some p
    → (role_of i ps ≡ some p.role) × (p.id ≡ i)
unfolding find_peer role_of
role_of-find i p [] h = cc
role_of-find i p (q ∷ qs) h = ground (arith, role_of-find i p qs)

-- What holds of every peer, and of one that is put in place of another.
module _ {κ} (P : Peer → Type κ) where
  pub All-put : (p : Peer) (ps : List Peer) → P p → All P ps → All P (put_peer p ps)
  unfolding put_peer
  All-put p [] h a = tt
  All-put p (q ∷ qs) h a = elim (Bool-cases (q.id == p.id)) [
    | inl hit ↦ rw hit (h, a.1)
    | inr miss ↦ rw miss (a.0, All-put p qs h a.1)
  ]

  pub All-find : (i : PeerId) (p : Peer) (ps : List Peer) → All P ps → find_peer i ps ≡ some p → P p
  unfolding find_peer
  All-find i p [] a h = cc
  All-find i p (q ∷ qs) a h = elim (Bool-cases (q.id == i)) [
    | inl hit ↦ let e : q ≡ p = ground arith in rw (← e) a.0
    | inr miss ↦ All-find i p qs a.1 (ground arith)
  ]

  pub All-drop : (i : PeerId) (ps : List Peer) → All P ps → All P (drop_peer i ps)
  unfolding drop_peer
  All-drop i [] a = tt
  All-drop i (q ∷ qs) a = elim (Bool-cases (q.id == i)) [
    | inl hit ↦ rw hit a.1
    | inr miss ↦ rw miss (a.0, All-drop i qs a.1)
  ]
