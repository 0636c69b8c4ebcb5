-- ===== src/Relay/Invariant/Sockets.antt =====
-- What arrives on a socket keeps the relay sound.
use vibed_st_muliplayer.Base.{
  filter, ◌==◌, ℕ, ◌≡◌, refl, String, Bool, true, false, not, Option, none, some, List, arith,
  if◌then◌else◌, Bool-cases, inl, inr,
}
use vibed_st_muliplayer.Base.Texts.{same}
use vibed_st_muliplayer.Relay.State.{PeerId, Bytes, Peer, Relay, Effect, Reason}
use vibed_st_muliplayer.Relay.Room.{find_peer}
use vibed_st_muliplayer.Relay.Room.Peers.{role_of-find}
use vibed_st_muliplayer.Relay.Handshake.{
  Crypto, Conn, Session, Stage, Hello, Ephemeral, fail, exactly, reject_socket, bytes_equal,
  staying, challenged, challenge, check_room, on_hello, on_upgrade,
}
use vibed_st_muliplayer.Relay.Server.{
  Text, Incoming, peer_of, on_text, unhandshaken, on_socket_message, on_close,
}
use vibed_st_muliplayer.Relay.Invariant.{IsSound}
use vibed_st_muliplayer.Relay.Invariant.Frames.{on_peer_frame-IsSound}
use vibed_st_muliplayer.Relay.Invariant.Leave.{remove_peer-IsSound}
use vibed_st_muliplayer.Relay.Invariant.Enter.{on_confirm-IsSound}

-- The relay of the handshake's steps that change no peer.
pub record IsUntouched (r s : Relay) : Type 0 where
  pub peers : s.peers ≡ r.peers
  pub host : s.host ≡ r.host
  pub host_report : s.host_report ≡ r.host_report
  pub ooc_history : s.ooc_history ≡ r.ooc_history
  pub peer_counter : s.peer_counter ≡ r.peer_counter

pub IsUntouched-IsSound :
    {strict : Bool} (r s : Relay) → IsUntouched r s → IsSound strict r → IsSound strict s
IsUntouched-IsSound r s u v = record {
  in_place = rw (u.peers, u.host, u.peer_counter) v.in_place;
  distinct = rw u.peers v.distinct;
  connected = λ h k. rw u.peers (v.connected h (rw (← u.host) k));
  baseline = λ s k. rw u.host_report (v.baseline s (rw (← u.host) k));
  history = rw u.ooc_history v.history;
}

pub IsUntouched-refl : (r : Relay) → IsUntouched r r
IsUntouched-refl r = ground arith

pub on_upgrade-IsSound :
    {strict : Bool} (s : ℕ) (ip : String) (now : ℕ) (r : Relay)
    → IsSound strict r
    → IsSound strict (on_upgrade s ip now r).0
unfolding on_upgrade
on_upgrade-IsSound s ip now r v = IsUntouched-IsSound r (on_upgrade s ip now r).0 (ground arith) v

failed : (c : Conn) (now : ℕ) (reason : Reason) (r : Relay) → IsUntouched r (fail c now reason r).0
failed c now reason r = ground arith

turned_away : (s : ℕ) (reason : Reason) (r : Relay) → IsUntouched r (reject_socket s reason r).0
turned_away s reason r = ground arith

if-IsUntouched {ℓ} :
    {A : Type ℓ} (r : Relay) (b : Bool) (x y : Relay × List Effect × A)
    → IsUntouched r x.0
    → IsUntouched r y.0
    → IsUntouched r (if b then x else y).0
if-IsUntouched r true x y u w = u
if-IsUntouched r false x y u w = w

module _ (crypto : Crypto) (c : Conn) (e : Ephemeral) (now : ℕ) (r : Relay) where
  challenged-IsUntouched :
      (claims : Bool) (o : Option Session) → IsUntouched r (challenged c e now claims o r).0
  challenged-IsUntouched claims none = failed c now Reason.malformed r
  challenged-IsUntouched claims (some session) = IsUntouched-refl r

  challenge-IsUntouched :
      (h : Hello) (key nonce : Bytes) → IsUntouched r (challenge crypto c h e now key nonce r).0
  unfolding challenge
  challenge-IsUntouched h key nonce =
      if-IsUntouched r _ (staying c (reject_socket c.socket Reason.room_full r)) _
        (turned_away c.socket Reason.room_full r)
        (if-IsUntouched r _ (staying c (reject_socket c.socket Reason.rate_limited r)) _
          (turned_away c.socket Reason.rate_limited r) (challenged-IsUntouched _ _))

  check_room-IsUntouched :
      (h : Hello) (key nonce room : Option Bytes)
      → IsUntouched r (check_room crypto c h e now key nonce room r).0
  unfolding check_room
  check_room-IsUntouched h (some key) (some nonce) (some room) =
      if-IsUntouched r (bytes_equal room r.room_id) (challenge crypto c h e now key nonce r) _
        (challenge-IsUntouched h key nonce) (failed c now Reason.unknown_room r)
  check_room-IsUntouched h _ _ _ = failed c now Reason.malformed r

  on_hello-IsUntouched : (h : Hello) → IsUntouched r (on_hello crypto c h e now r).0
  unfolding on_hello
  on_hello-IsUntouched h =
      if-IsUntouched r (same h.revision "STMP/1.4.0")
        (check_room crypto c h e now (exactly 65 h.public_key) (exactly 16 h.nonce)
          (exactly 8 h.room) r)
        (staying c (reject_socket c.socket Reason.bad_revision r))
        (check_room-IsUntouched h (exactly 65 h.public_key) (exactly 16 h.nonce) (exactly 8 h.room))
        (turned_away c.socket Reason.bad_revision r)

module _ (crypto : Crypto) where
  on_text-IsSound :
      {strict : Bool} (c : Conn) (t : Text) (g : Stage) (m : Incoming) (r : Relay)
      → IsSound strict r
      → IsSound strict (on_text crypto c t g m r).0
  unfolding on_text
  on_text-IsSound c (Text.hello h) Stage.hello m r v =
      IsUntouched-IsSound r (on_hello crypto c h m.ephemeral m.frame.now r).0
        (on_hello-IsUntouched crypto c m.ephemeral m.frame.now r h) v
  on_text-IsSound c (Text.confirm mac) (Stage.confirm session w) m r v =
      on_confirm-IsSound crypto c session w mac m.frame.now r v
  on_text-IsSound c _ _ m r v =
      IsUntouched-IsSound r (fail c m.frame.now Reason.malformed r).0
        (failed c m.frame.now Reason.malformed r) v

  unhandshaken-IsSound :
      {strict : Bool} (c : Conn) (m : Incoming) (r : Relay)
      → IsSound strict r
      → IsSound strict (unhandshaken crypto c m r).0
  unfolding unhandshaken
  unhandshaken-IsSound c m r v = elim (Bool-cases m.frame.binary) [
    | inl binary ↦ simp binary (
        IsUntouched-IsSound r (fail c m.frame.now Reason.malformed r).0
          (failed c m.frame.now Reason.malformed r) v)
    | inr text ↦ simp text (on_text-IsSound c m.text c.stage m r v)
  ]

  pub on_socket_message-IsSound :
      {strict : Bool} (c : Conn) (m : Incoming) (o : Option Peer) (r : Relay)
      → ((p : Peer) → o ≡ some p → find_peer p.id r.peers ≡ some p)
      → IsSound strict r
      → IsSound strict (on_socket_message crypto c m o r).0
  unfolding on_socket_message
  on_socket_message-IsSound c m none r l v = unhandshaken-IsSound c m r v
  on_socket_message-IsSound c m (some p) r l v =
      on_peer_frame-IsSound p m.frame r (inl (l p refl)) v

pub peer_of-live :
    (o : Option PeerId) (ps : List Peer) (p : Peer)
    → peer_of o ps ≡ some p
    → find_peer p.id ps ≡ some p
unfolding peer_of
peer_of-live none ps p e = cc
peer_of-live (some i) ps p e = simp (role_of-find i p ps e).1 e

pub on_close-IsSound :
    {strict : Bool} (s : ℕ) (o : Option PeerId) (r : Relay)
    → IsSound strict r
    → IsSound strict (on_close s o r).0
unfolding on_close
on_close-IsSound s none r v = record {
  in_place = v.in_place;
  distinct = v.distinct;
  connected = v.connected;
  baseline = v.baseline;
  history = v.history;
}
on_close-IsSound s (some i) r v =
    remove_peer-IsSound i (record r { pending = filter (λ x. not (x == s)) r.pending })
      (record {
        in_place = v.in_place;
        distinct = v.distinct;
        connected = v.connected;
        baseline = v.baseline;
        history = v.history;
      })
