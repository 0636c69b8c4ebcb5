-- ===== src/Relay/Handshake/Entry.antt =====
-- What a connection must have shown before the relay makes a peer of it.
use vibed_st_muliplayer.Base.{
  ap, ℕ, ◌<◌, ◌≡◌, ◌≢◌, refl, Bool, true, false, ◌&&◌, Option, none, some, List, [], ◌∷◌, arith,
  if◌then◌else◌, leb, ==_iff, ◌∙◌, sym,
}
use vibed_st_muliplayer.Base.Texts.{same, same→eq}
use vibed_st_muliplayer.Relay.State.{Bytes, Relay, Effect, Reason}
use vibed_st_muliplayer.Relay.Handshake.{
  Crypto, Session, Conn, Stage, Hello, Ephemeral, bytes_equal, exactly, is_loopback, holds_token,
  admitted_count, lobby_count, fail, reject_socket, staying, challenged, challenge, check_room,
  on_hello,
}

pub bytes_equal→eq : (xs ys : Bytes) → bytes_equal xs ys ≡ true → xs ≡ ys
unfolding bytes_equal
bytes_equal→eq [] [] h = refl
bytes_equal→eq (x ∷ xs) (y ∷ ys) h = ground (arith, ==_iff x y, bytes_equal→eq xs ys)
bytes_equal→eq [] (y ∷ ys) h = cc
bytes_equal→eq (x ∷ xs) [] h = cc

holds_token→eq : (t : Option Bytes) (token : Bytes) → holds_token t token ≡ true → t ≡ some token
unfolding holds_token
holds_token→eq none token h = cc
holds_token→eq (some t) token h = ap some (bytes_equal→eq t token h)

-- What an accepted `HELLO` shows: the room's id, and a room and a lobby that have a place left; a
-- claim to the host slot comes from this machine, with the token that the host's browser has.
pub record IsWelcome (r : Relay) (c : Conn) (h : Hello) (claims : Bool) : Type 0 where
  pub revision : h.revision ≡ "STMP/1.4.0"
  pub room : h.room ≡ some r.room_id
  pub seats : admitted_count r.peers < r.max_peers
  pub lobby : lobby_count r.peers < 6
  pub token : claims ≡ true → h.token ≡ some r.host_token
  pub loopback : claims ≡ true → is_loopback c.ip ≡ true

exactly→eq : (n : ℕ) (o : Option Bytes) (bs : Bytes) → exactly n o ≡ some bs → o ≡ some bs
unfolding exactly
exactly→eq n none bs e = cc
exactly→eq n (some xs) bs e = ground arith

-- A choice whose first side cannot give the result took the second.
second_side :
    (b : Bool) (x y : Relay × List Effect × Stage) (g : Stage)
    → x.2 ≢ g
    → (if b then x else y).2 ≡ g
    → (b ≡ false) × (y.2 ≡ g)
second_side true x y g n k = absurd (n k)
second_side false x y g n k = (refl, k)

first_side :
    (b : Bool) (x y : Relay × List Effect × Stage) (g : Stage)
    → y.2 ≢ g
    → (if b then x else y).2 ≡ g
    → (b ≡ true) × (x.2 ≡ g)
first_side true x y g n k = (refl, k)
first_side false x y g n k = absurd (n k)

module _ (crypto : Crypto) (c : Conn) (h : Hello) (e : Ephemeral) (now : ℕ) (r : Relay)
    (start : c.stage ≡ Stage.hello) {session : Session} {claims : Bool} where
  not_staying : (out : Relay × List Effect) → (staying c out).2 ≢ Stage.confirm session claims
  not_staying out k = cc (sym start ∙ k)

  challenged-claims :
      (b : Bool) (o : Option Session)
      → (challenged c e now b o r).2 ≡ Stage.confirm session claims
      → b ≡ claims
  challenged-claims b none k = absurd (not_staying (fail c now Reason.malformed r) k)
  challenged-claims b (some s) k = cc

  challenge-shows :
      (key nonce : Bytes)
      → (challenge crypto c h e now key nonce r).2 ≡ Stage.confirm session claims
      → (admitted_count r.peers < r.max_peers)
        × (lobby_count r.peers < 6)
        × ((holds_token h.token r.host_token && is_loopback c.ip) ≡ claims)
  unfolding challenge
  challenge-shows key nonce k =
      let (open_seat, k2) =
        second_side (leb r.max_peers (admitted_count r.peers)) _ _ (Stage.confirm session claims)
          (not_staying (reject_socket c.socket Reason.room_full r)) k in
      let (open_lobby, k3) =
        second_side (leb 6 (lobby_count r.peers)) _ _ (Stage.confirm session claims)
          (not_staying (reject_socket c.socket Reason.rate_limited r)) k2 in
      (ground arith, ground arith, challenged-claims _ _ k3)

  check_room-shows :
      (key nonce room : Option Bytes)
      → (check_room crypto c h e now key nonce room r).2 ≡ Stage.confirm session claims
      → (room ≡ some r.room_id)
        × (admitted_count r.peers < r.max_peers)
        × (lobby_count r.peers < 6)
        × ((holds_token h.token r.host_token && is_loopback c.ip) ≡ claims)
  unfolding check_room
  check_room-shows (some key) (some nonce) (some room) k =
      let (same_room, k2) =
        first_side (bytes_equal room r.room_id) _ _ (Stage.confirm session claims)
          (not_staying (fail c now Reason.unknown_room r)) k in
      let (seats, lobby, token) = challenge-shows key nonce k2 in
      (ap some (bytes_equal→eq room r.room_id same_room), seats, lobby, token)
  check_room-shows (some key) (some nonce) none k =
      absurd (not_staying (fail c now Reason.malformed r) k)
  check_room-shows (some key) none room k = absurd (not_staying (fail c now Reason.malformed r) k)
  check_room-shows none _ room k = absurd (not_staying (fail c now Reason.malformed r) k)

  -- A connection gets past `HELLO` only if it is welcome: it named this protocol and this room, the
  -- room and the lobby had a place left, and if it is to claim the host slot, it came from this
  -- machine with the host's token.
  pub on_hello-IsWelcome :
      (on_hello crypto c h e now r).2 ≡ Stage.confirm session claims → IsWelcome r c h claims
  unfolding on_hello
  on_hello-IsWelcome k =
      let (revision, k2) =
        first_side (same h.revision "STMP/1.4.0") _ _ (Stage.confirm session claims)
          (not_staying (reject_socket c.socket Reason.bad_revision r)) k in
      let (room, seats, lobby, token) =
        check_room-shows (exactly 65 h.public_key) (exactly 16 h.nonce) (exactly 8 h.room) k2 in
      record {
        revision = same→eq h.revision "STMP/1.4.0" revision;
        room = exactly→eq 8 h.room r.room_id room;
        seats = seats;
        lobby = lobby;
        token = λ t. holds_token→eq h.token r.host_token (ground arith);
        loopback = λ t. ground arith;
      }
