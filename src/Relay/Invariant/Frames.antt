-- ===== src/Relay/Invariant/Frames.antt =====
-- A peer's frame keeps the relay sound.
use vibed_st_muliplayer.Base.{
  ℕ, ◌+◌, ◌-◌, ◌≤◌, ◌≡◌, refl, String, Bool, true, false, not, ◌&&◌, Option, none, some, List, [],
  ◌∷◌, ◌++◌, arith, if◌then◌else◌, Bool-cases, inl, inr, length, length-append, length-drop,
}
use vibed_st_muliplayer.Base.Texts.{same, is_empty}
use vibed_st_muliplayer.Protocol.{Op, is_host, client_allowed, to_host_only}
use vibed_st_muliplayer.Parity.{Report, diff_reports}
use vibed_st_muliplayer.Replay.{accept}
use vibed_st_muliplayer.Limiter.{spend}
use vibed_st_muliplayer.Relay.State.{
  PeerId, Peer, Status, OocMessage, Payload, RawReport, Message, Relay, Handler, ◌>>◌, skip,
}
use vibed_st_muliplayer.Relay.Room.{
  find_peer, put_peer, set_peer, broadcast, broadcast_roster, broadcast_host_name, announce, admit,
}
use vibed_st_muliplayer.Relay.Room.Peers.{All-find, role_of-find}
use vibed_st_muliplayer.Relay.Room.Seats.{find-put_self}
use vibed_st_muliplayer.Relay.Gate.{
  protocol_error, bound_report, is_waiting, resolve_parity, resolve_one, resolve_waiting,
  host_reports, compare_or_wait, client_reports, on_bounded_report, on_parity_report,
}
use vibed_st_muliplayer.Relay.Frames.{
  Frame, announced, rename, measure, push_bounded, post, on_ooc, ooc_text, publish, on_persona,
  address, stamped_frame, host_frame, client_frame, room_frame, on_op, on_payload, on_opened,
  on_peer_frame, begin_frame,
}
use vibed_st_muliplayer.Relay.Invariant.{IsInPlace, IsSound, IsKnown, set_peer-IsSound}

-- The handler keeps the relay sound where the peer is connected, or may have left.
abbrev pub Keeps : Bool → Peer → Handler → Type 0
Keeps strict p f = (r : Relay) → IsKnown strict p r → IsSound strict r → IsSound strict (f r).0

put-absent : (p : Peer) (ps : List Peer) → find_peer p.id ps ≡ none → put_peer p ps ≡ ps
unfolding put_peer find_peer
put-absent p [] e = refl
put-absent p (q ∷ ps) e = ground (arith, put-absent p ps)

-- What the relay keeps of a peer that has left changes nothing.
set_peer-gone : (p : Peer) (r : Relay) → find_peer p.id r.peers ≡ none → (set_peer p r).0 ≡ r
set_peer-gone p r e = simp (put-absent p r.peers e) refl

-- Choices, and a change of what the relay keeps of the peer with what follows.
module _ (p : Peer) where
  pub Keeps-if :
      {strict : Bool} (b : Bool) (f g : Handler)
      → Keeps strict p f
      → Keeps strict p g
      → Keeps strict p (if b then f else g)
  Keeps-if true f g h k = h
  Keeps-if false f g h k = k

  pub Keeps-still : {strict : Bool} (f : Handler) → ((r : Relay) → (f r).0 ≡ r) → Keeps strict p f
  Keeps-still f e r l v = rw (e r) v

  pub Keeps-set :
      {strict : Bool} (p' : Peer) → p'.id ≡ p.id → p'.role ≡ p.role → Keeps strict p (set_peer p')
  Keeps-set p' i o r (inl l) v = set_peer-IsSound p' p r (rw i l) o v
  Keeps-set p' i o r (inr (gone, loose)) v = rw (set_peer-gone p' r (rw i gone)) v

  pub Keeps-then :
      {strict : Bool} (p' : Peer) (f : Handler)
      → p'.id ≡ p.id
      → p'.role ≡ p.role
      → Keeps strict p' f
      → Keeps strict p (set_peer p' >> f)
  Keeps-then p' f i o k r (inl l) v =
      let l' : find_peer p'.id r.peers ≡ some p = rw i l in
      k (set_peer p' r).0 (inl (find-put_self p' p r.peers l')) (set_peer-IsSound p' p r l' o v)
  Keeps-then p' f i o k r (inr (gone, loose)) v =
      let gone' : find_peer p'.id r.peers ≡ none = rw i gone in
      rw (set_peer-gone p' r gone') (k r (inr (gone', loose)) v)

push_bounded-le : (old : List OocMessage) (m : OocMessage) → length (push_bounded old m) ≤ 200
unfolding push_bounded
push_bounded-le old m =
    ground (
      arith,
      length-append old (m ∷ []),
      length-drop (length (old ++ m ∷ []) - 200) (old ++ m ∷ []),
    )

module _ (p : Peer) where
  shout-state :
      (b : Bool) (r : Relay)
      → (((if b then broadcast_host_name else skip) >> broadcast_roster) r).0 ≡ r
  unfolding broadcast_host_name broadcast_roster broadcast
  shout-state true r = refl
  shout-state false r = refl

  rename-Keeps : {strict : Bool} (name : Option String) → Keeps strict p (rename p name)
  unfolding rename
  rename-Keeps name =
      Keeps-if p (same p.name (announced name)) skip _ (λ r l v. v)
        (Keeps-then p (record p { name = announced name })
          ((if is_host p.role then broadcast_host_name else skip) >> broadcast_roster) refl refl
          (Keeps-still _
            ((if is_host p.role then broadcast_host_name else skip) >> broadcast_roster)
            (shout-state (is_host p.role))))

  measure-Keeps : {strict : Bool} (now : ℕ) (t : Option ℕ) → Keeps strict p (measure p now t)
  unfolding measure
  measure-Keeps now none = λ r l v. v
  measure-Keeps now (some t) = Keeps-set p (record p { rtt = some (now - t) }) refl refl

  post-Keeps : {strict : Bool} (m : OocMessage) → Keeps strict p (post m)
  unfolding post broadcast
  post-Keeps m r l v = record {
    in_place = v.in_place;
    distinct = v.distinct;
    connected = v.connected;
    baseline = v.baseline;
    history = push_bounded-le r.ooc_history m;
  }

  on_ooc-Keeps :
      {strict : Bool} (now : ℕ) (stamp text : String) → Keeps strict p (on_ooc p now stamp text)
  unfolding on_ooc
  on_ooc-Keeps now stamp text =
      Keeps-if p (is_empty (ooc_text text)) skip _ (λ r l v. v) (post-Keeps _)

  on_persona-Keeps : {strict : Bool} (o : Option String) → Keeps strict p (on_persona p o)
  unfolding on_persona publish broadcast
  on_persona-Keeps none r l v = v
  on_persona-Keeps (some x) r l v = record {
    in_place = v.in_place;
    distinct = v.distinct;
    connected = v.connected;
    baseline = v.baseline;
    history = v.history;
  }

  address-state :
      (m : Message) (i : PeerId) (o : Option PeerId) (r : Relay) → (address m i o r).0 ≡ r
  unfolding address broadcast
  address-state m i none r = refl
  address-state m i (some j) r = refl

  host_frame-Keeps : {strict : Bool} (f : Payload) → Keeps strict p (host_frame p f)
  unfolding host_frame
  host_frame-Keeps f =
      Keeps-still p (address (stamped_frame p f) p.id f.to)
        (address-state (stamped_frame p f) p.id f.to)

  client_frame-Keeps : {strict : Bool} (f : Payload) → Keeps strict p (client_frame p f)
  unfolding client_frame broadcast
  client_frame-Keeps f = Keeps-if p (to_host_only f.op) _ _ (λ r l v. v) (λ r l v. v)

  announce-state : (r : Relay) → (announce p r).0 ≡ r
  unfolding announce broadcast broadcast_roster
  announce-state r = refl

pub admit-Keeps : {strict : Bool} (p : Peer) → Keeps strict p (admit p)
unfolding admit
admit-Keeps p =
    let p' = record p { admitted = true } in
    Keeps-if p p.admitted skip _ (λ r l v. v)
      (Keeps-then p p' (announce p') refl refl (Keeps-still p' (announce p') (announce-state p')))

resolve_parity-Keeps : {strict : Bool} (p : Peer) → Keeps strict p (resolve_parity p)
unfolding resolve_parity
resolve_parity-Keeps p r l v =
    let good = record p { status = Status.ok } in
    let bad = record p { status = Status.mismatch } in
    Keeps-if p (diff_reports r.host_report p.report).ok (set_peer good >> admit good) _
      (Keeps-then p good (admit good) refl refl (admit-Keeps good)) (Keeps-set p bad refl refl) r l
      v

-- The loop needs no peer of its own: it looks each one up.
resolve_one-IsSound :
    {strict : Bool} (o : Option Peer) (r : Relay)
    → ((x : Peer) → o ≡ some x → IsKnown strict x r)
    → IsSound strict r
    → IsSound strict (resolve_one o r).0
unfolding resolve_one
resolve_one-IsSound none r h v = v
resolve_one-IsSound (some x) r h v =
    Keeps-if x (is_waiting x.status) (resolve_parity x) skip (resolve_parity-Keeps x) (λ s l w. w) r
      (h x refl) v

IsLive-of_find :
    {strict : Bool} (i : PeerId) (x : Peer) (r : Relay)
    → find_peer i r.peers ≡ some x
    → IsKnown strict x r
IsLive-of_find i x r e = inl (simp (role_of-find i x r.peers e).1 e)

resolve_waiting-IsSound :
    {strict : Bool} (ps : List Peer) (r : Relay)
    → IsSound strict r
    → IsSound strict (resolve_waiting ps r).0
unfolding resolve_waiting
resolve_waiting-IsSound [] r v = v
resolve_waiting-IsSound (p ∷ ps) r v =
    resolve_waiting-IsSound ps (resolve_one (find_peer p.id r.peers) r).0
      (resolve_one-IsSound (find_peer p.id r.peers) r (λ x e. IsLive-of_find p.id x r e) v)

-- A peer with the host's role holds the slot, so there may be a baseline.
baseline-IsSound :
    {strict : Bool} (p : Peer) (report : Report) (r : Relay)
    → IsKnown strict p r
    → is_host p.role ≡ true
    → IsSound strict r
    → IsSound strict (record r { host_report = some report })
baseline-IsSound p report r (inr (gone, loose)) h v = record {
  in_place = v.in_place;
  distinct = v.distinct;
  connected = v.connected;
  baseline = λ s e. cc;
  history = v.history;
}
baseline-IsSound p report r (inl l) h v =
    let slot = (All-find (IsInPlace r.peer_counter r.host) p.id p r.peers v.in_place l).1 in
    record {
      in_place = v.in_place;
      distinct = v.distinct;
      connected = v.connected;
      baseline = λ s e. ground arith;
      history = v.history;
    }

host_reports-Keeps :
    {strict : Bool} (p : Peer) (report : Report)
    → is_host p.role ≡ true
    → Keeps strict p (host_reports p report)
unfolding host_reports
host_reports-Keeps p report h r l v =
    let p' = record p { status = Status.ok; report = some report } in
    let r1 = record r { host_report = some report } in
    let r3 = ((set_peer p' >> admit p') r1).0 in
    resolve_waiting-IsSound r3.peers r3 (
      Keeps-then p p' (admit p') refl refl (admit-Keeps p') r1 l
        (baseline-IsSound p report r l h v))

compare_or_wait-Keeps :
    {strict : Bool} (p : Peer) (b : Option Report) → Keeps strict p (compare_or_wait p b)
unfolding compare_or_wait
compare_or_wait-Keeps p none = Keeps-set p (record p { status = Status.waiting_host }) refl refl
compare_or_wait-Keeps p (some b) = resolve_parity-Keeps p

client_reports-Keeps :
    {strict : Bool} (p : Peer) (report : Report) → Keeps strict p (client_reports p report)
unfolding client_reports
client_reports-Keeps p report =
    let p' = record p { report = some report } in
    Keeps-then p p' (λ r. compare_or_wait p' r.host_report r) refl refl
      (λ r l v. compare_or_wait-Keeps p' r.host_report r l v)

on_bounded_report-Keeps :
    {strict : Bool} (p : Peer) (o : Option Report) → Keeps strict p (on_bounded_report p o)
unfolding on_bounded_report
on_bounded_report-Keeps p none = λ r l v. v
on_bounded_report-Keeps p (some report) = elim (Bool-cases (is_host p.role)) [
  | inl h ↦ simp h (host_reports-Keeps p report h)
  | inr c ↦ simp c (client_reports-Keeps p report)
]

on_parity_report-Keeps :
    {strict : Bool} (p : Peer) (raw : Option RawReport) → Keeps strict p (on_parity_report p raw)
unfolding on_parity_report
on_parity_report-Keeps p none = Keeps-set p (record p { status = Status.invalid }) refl refl
on_parity_report-Keeps p (some raw) = on_bounded_report-Keeps p (bound_report raw)

module _ (p : Peer) (now : ℕ) (stamp : String) (f : Payload) where
  room_frame-Keeps : {strict : Bool} (op : Op) → Keeps strict p (room_frame p now stamp f op)
  unfolding room_frame broadcast
  room_frame-Keeps Op.ooc_message = on_ooc-Keeps p now stamp f.text
  room_frame-Keeps Op.ooc_typing = λ r l v. v
  room_frame-Keeps Op.persona_state = on_persona-Keeps p f.persona
  room_frame-Keeps Op.chat_typing = λ r l v. v
  room_frame-Keeps _ =
      Keeps-if p (is_host p.role) (host_frame p f) (client_frame p f) (host_frame-Keeps p f)
        (client_frame-Keeps p f)

  gated-Keeps :
      {strict : Bool} (op : Op)
      → Keeps strict p (if p.admitted then room_frame p now stamp f op else skip)
  gated-Keeps op =
      Keeps-if p p.admitted (room_frame p now stamp f op) skip (room_frame-Keeps op) (λ r l v. v)

  on_op-Keeps : {strict : Bool} (op : Op) → Keeps strict p (on_op p now stamp f op)
  unfolding on_op
  on_op-Keeps Op.ping = λ r l v. v
  on_op-Keeps Op.pong = measure-Keeps p now f.t
  on_op-Keeps Op.roster = rename-Keeps p f.name
  on_op-Keeps Op.parity_report = on_parity_report-Keeps p f.report
  on_op-Keeps op = gated-Keeps op

on_payload-Keeps :
    {strict : Bool} (p : Peer) (now : ℕ) (stamp : String) (o : Option Payload)
    → Keeps strict p (on_payload p now stamp o)
unfolding on_payload
on_payload-Keeps p now stamp none = λ r l v. v
on_payload-Keeps p now stamp (some f) =
    Keeps-if p (not (is_host p.role) && not (client_allowed f.op)) skip (on_op p now stamp f f.op)
      (λ r l v. v) (on_op-Keeps p now stamp f f.op)

pub on_opened-Keeps :
    {strict : Bool} (p : Peer) (now size : ℕ) (stamp : String) (o : Option (ℕ × Option Payload))
    → Keeps strict p (on_opened p now size stamp o)
unfolding on_opened
on_opened-Keeps p now size stamp none = λ r l v. v
on_opened-Keeps p now size stamp (some (n, o)) =
    let w = (accept p.replay n).0 in
    let seen = record p { replay = w; last_seen = now; bytes_in = p.bytes_in + size } in
    let kept = record p { replay = w } in
    Keeps-if p (accept p.replay n).1 (set_peer seen >> on_payload seen now stamp o) _
      (Keeps-then p seen (on_payload seen now stamp o) refl refl
        (on_payload-Keeps seen now stamp o))
      (Keeps-set p kept refl refl)

-- What `#onPeerFrame` does before it waits.
pub begin_frame-IsSound :
    {strict : Bool} (p : Peer) (frame : Frame) (r : Relay)
    → IsKnown strict p r
    → IsSound strict r
    → IsSound strict (begin_frame p frame r).0
unfolding begin_frame
begin_frame-IsSound p frame r l v =
    let paid = spend p.message_bucket p.byte_bucket frame.now frame.size in
    let charged = record p { message_bucket = paid.0; byte_bucket = paid.1 } in
    elim (Bool-cases frame.binary) [
      | inr text ↦ simp text v
      | inl binary ↦ elim (Bool-cases paid.2) [
        | inl granted ↦ simp (binary, granted) (Keeps-set p charged refl refl r l v)
        | inr refused ↦
            simp (binary, refused)
              (Keeps-then p charged (protocol_error charged) refl refl (λ s k w. w) r l v)
      ]
    ]

-- Whatever frame a connected peer sends, the relay stays sound.
pub on_peer_frame-IsSound :
    {strict : Bool} (p : Peer) (frame : Frame) (r : Relay)
    → IsKnown strict p r
    → IsSound strict r
    → IsSound strict (on_peer_frame p frame r).0
unfolding on_peer_frame
on_peer_frame-IsSound p frame =
    let paid = spend p.message_bucket p.byte_bucket frame.now frame.size in
    let charged = record p { message_bucket = paid.0; byte_bucket = paid.1 } in
    let goes = on_opened charged frame.now frame.size frame.stamp frame.opened in
    Keeps-if p (not frame.binary) (protocol_error p) _ (λ r l v. v)
      (Keeps-then p charged (if paid.2 then goes else protocol_error charged) refl refl (
        Keeps-if charged paid.2 goes (protocol_error charged)
          (on_opened-Keeps charged frame.now frame.size frame.stamp frame.opened) (λ r l v. v)))
