-- ===== src/Relay/Invariant.antt =====
-- What holds of the relay in every state that it reaches.
pub mod Frames
pub mod Leave
pub mod Enter
pub mod Sockets
pub mod Reach
use vibed_st_muliplayer.Base.{
  ℕ, ◌≤◌, ◌≡◌, ◌⊎◌, refl, Bool, true, false, Option, none, some, List, [], ◌∷◌, arith, All, Nodup,
  has, holds, length, All-map,
}
use vibed_st_muliplayer.Protocol.{Role, is_host}
use vibed_st_muliplayer.Relay.State.{PeerId, Peer, Relay}
use vibed_st_muliplayer.Relay.Room.{find_peer, put_peer, set_peer}
use vibed_st_muliplayer.Relay.Room.Peers.{ids, ids-put, All-put, All-find, role_of-find}

-- A peer's id was given out, and it has the host's role exactly if it holds the host slot.
abbrev pub IsInPlace : ℕ → Option PeerId → Peer → Type 0
IsInPlace counter h p = (p.id ≤ counter) × (is_host p.role ≡ holds h p.id)

-- Ids are distinct and were given out; the host slot is held by a connected peer, the only one with
-- the host's role, or by nobody, and then there is no baseline, if `strict` is true; the history
-- stays within its cap.
pub record IsSound (strict : Bool) (r : Relay) : Type 0 where
  pub in_place : All (IsInPlace r.peer_counter r.host) r.peers
  pub distinct : Nodup (ids r.peers)
  pub connected : (h : PeerId) → r.host ≡ some h → has h (ids r.peers) ≡ true
  pub baseline : strict ≡ true → r.host ≡ none → r.host_report ≡ none
  pub history : length r.ooc_history ≤ 200

abbrev pub IsLive : Peer → Relay → Type 0
IsLive p r = find_peer p.id r.peers ≡ some p

-- The peer is connected, or, where `strict` is false, has left.
abbrev pub IsKnown : Bool → Peer → Relay → Type 0
IsKnown strict p r = IsLive p r ⊎ ((find_peer p.id r.peers ≡ none) × (strict ≡ false))

-- A peer in place of itself, with the same role.
pub set_peer-IsSound :
    {strict : Bool} (p q : Peer) (r : Relay)
    → find_peer p.id r.peers ≡ some q
    → p.role ≡ q.role
    → IsSound strict r
    → IsSound strict (set_peer p r).0
set_peer-IsSound p q r l e v =
    let (given, slot) = All-find (IsInPlace r.peer_counter r.host) p.id q r.peers v.in_place l in
    let same_id : q.id ≡ p.id = (role_of-find p.id q r.peers l).1 in
    let placed : IsInPlace r.peer_counter r.host p =
      (rw (← same_id) given, rw (e, ← same_id) slot) in
    record {
      in_place = All-put (IsInPlace r.peer_counter r.host) p r.peers placed v.in_place;
      distinct = rw (ids-put p r.peers) v.distinct;
      connected = λ h k. rw (ids-put p r.peers) (v.connected h k);
      baseline = v.baseline;
      history = v.history;
    }
