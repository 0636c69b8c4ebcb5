-- ===== src/Relay/Frames/Confinement.antt =====
-- What a peer cannot do: one in the lobby, and a client that sends what only the host may send.
use vibed_st_muliplayer.Base.{
  ap, ℕ, ◌+◌, ◌≡◌, ◌≢◌, refl, String, Bool, true, false, Option, none, some, List, All,
  if◌then◌else◌, Bool-cases, inl, inr,
}
use vibed_st_muliplayer.Base.Texts.{same}
use vibed_st_muliplayer.Protocol.{Op, Role, is_host, client_allowed}
use vibed_st_muliplayer.Replay.{accept}
use vibed_st_muliplayer.Limiter.{spend}
use vibed_st_muliplayer.Relay.State.{Peer, Payload, Message, Effect, Relay, Handler, ◌>>◌, skip}
use vibed_st_muliplayer.Relay.Room.{
  find_peer, set_peer, broadcast, broadcast_roster, broadcast_host_name,
}
use vibed_st_muliplayer.Relay.Room.Sends.{Emits, Emits->>, Emits-broadcast}
use vibed_st_muliplayer.Relay.Room.Seats.{
  seat, find-put_self, IsSameRoom, IsSameRoom-refl, IsSameRoom-trans, set_peer-IsSameRoom,
}
use vibed_st_muliplayer.Relay.Gate.{protocol_error}
use vibed_st_muliplayer.Relay.Frames.{
  Frame, announced, rename, on_payload, on_opened, on_peer_frame,
}

-- A message that carries nothing of what players write or do.
abbrev pub IsBare : Message → Type 0
IsBare (Message.forwarded f author name) = ⊥
IsBare (Message.ooc m) = ⊥
IsBare (Message.ooc_history ms) = ⊥
IsBare (Message.persona v) = ⊥
IsBare (Message.ooc_typing i name) = ⊥
IsBare (Message.chat_typing i name typing) = ⊥
IsBare _ = Unit

abbrev pub IsQuiet : Effect → Type 0
IsQuiet (Effect.send i m) = IsBare m
IsQuiet _ = Unit

-- The handler leaves the room as the players see it, and passes nothing on.
abbrev pub Spares : Relay → Relay × List Effect → Type 0
Spares r out = IsSameRoom r out.0 × All IsQuiet out.1

abbrev IsLive : Peer → Relay → Type 0
IsLive p r = find_peer p.id r.peers ≡ some p

-- A step that changes what the relay keeps of the peer alone, and then another one.
update-Spares :
    (p p' : Peer) (f : Handler) (r : Relay)
    → IsLive p r
    → p'.id ≡ p.id
    → seat p' ≡ seat p
    → (IsLive p' (set_peer p' r).0 → Spares (set_peer p' r).0 (f (set_peer p' r).0))
    → Spares r ((set_peer p' >> f) r)
update-Spares p p' f r l i e h =
    let l' : find_peer p'.id r.peers ≡ some p = rw i l in
    let rest = h (find-put_self p' p r.peers l') in
    (IsSameRoom-trans (set_peer-IsSameRoom p' p r l' e) rest.0, rest.1)

close-Spares : (p : Peer) (r : Relay) → Spares r (protocol_error p r)
close-Spares p r = (IsSameRoom-refl r, (tt, tt))

module _ (Q : Peer → Payload → Type 0)
    (spares : (p : Peer) (now : ℕ) (stamp : String) (f : Payload) (r : Relay)
      → IsLive p r
      → Q p f
      → Spares r (on_payload p now stamp (some f) r))
    (steady : (p p' : Peer) (f : Payload)
      → p'.role ≡ p.role
      → p'.admitted ≡ p.admitted
      → Q p f
      → Q p' f) where
  on_opened-Spares :
      (p : Peer) (now size : ℕ) (stamp : String) (n : ℕ) (f : Payload) (r : Relay)
      → IsLive p r
      → Q p f
      → Spares r (on_opened p now size stamp (some (n, some f)) r)
  unfolding on_opened
  on_opened-Spares p now size stamp n f r l q = elim (Bool-cases (accept p.replay n).1) [
    | inl fresh ↦
        let seen = record p {
          replay = (accept p.replay n).0;
          last_seen = now;
          bytes_in = p.bytes_in + size;
        } in
        rw fresh (
          update-Spares p seen (on_payload seen now stamp (some f)) r l refl refl
            λ k. spares seen now stamp f _ k (steady p seen f refl refl q))
    | inr stale ↦
        let kept = record p { replay = (accept p.replay n).0 } in
        rw stale (update-Spares p kept (protocol_error p) r l refl refl λ k. close-Spares p _)
  ]

  granted-Spares :
      (p charged : Peer) (frame : Frame) (n : ℕ) (f : Payload) (r : Relay) (granted : Bool)
      → IsLive charged r
      → Q charged f
      → Spares r (
          (if granted
              then on_opened charged frame.now frame.size frame.stamp (some (n, some f))
              else protocol_error charged)
            r)
  granted-Spares p charged frame n f r true k q =
      on_opened-Spares charged frame.now frame.size frame.stamp n f r k q
  granted-Spares p charged frame n f r false k q = close-Spares charged r

  on_peer_frame-Spares :
      (p : Peer) (frame : Frame) (n : ℕ) (f : Payload) (r : Relay)
      → IsLive p r
      → frame.opened ≡ some (n, some f)
      → Q p f
      → Spares r (on_peer_frame p frame r)
  unfolding on_peer_frame
  on_peer_frame-Spares p frame n f r l o q =
      let paid = spend p.message_bucket p.byte_bucket frame.now frame.size in
      let charged = record p { message_bucket = paid.0; byte_bucket = paid.1 } in
      elim (Bool-cases frame.binary) [
        | inr text ↦ rw text (close-Spares p r)
        | inl binary ↦
            rw (binary, o)
              (update-Spares p charged
                (if paid.2
                  then on_opened charged frame.now frame.size frame.stamp (some (n, some f))
                  else protocol_error charged)
                r l refl refl
                λ k. granted-Spares p charged frame n f _ paid.2 k (steady p charged f refl refl q))
      ]

-- A client whose opcode is the host's alone.
abbrev Oversteps : Peer → Payload → Type 0
Oversteps p f = (is_host p.role ≡ false) × (client_allowed f.op ≡ false)

Oversteps-Spares :
    (p : Peer) (now : ℕ) (stamp : String) (f : Payload) (r : Relay)
    → IsLive p r
    → Oversteps p f
    → Spares r (on_payload p now stamp (some f) r)
unfolding on_payload
Oversteps-Spares p now stamp f r l (c, d) = rw (c, d) (IsSameRoom-refl r, tt)

-- A client cannot act as the host: a frame of it with an opcode that only the host may originate
-- changes nothing of the roster, the host slot, the baseline, the history and the personas, and
-- nothing of it is passed on to anybody.
pub host_only-Spares :
    (p : Peer) (frame : Frame) (n : ℕ) (f : Payload) (r : Relay)
    → find_peer p.id r.peers ≡ some p
    → frame.opened ≡ some (n, some f)
    → p.role ≡ Role.client
    → client_allowed f.op ≡ false
    → Spares r (on_peer_frame p frame r)
host_only-Spares p frame n f r l o c d =
    on_peer_frame-Spares Oversteps Oversteps-Spares (λ a b g e _ q. (rw e q.0, q.1)) p frame n f r l
      o (ap is_host c, d)

-- A peer in the lobby that sends anything but a report.
abbrev Waits : Peer → Payload → Type 0
Waits p f = (p.admitted ≡ false) × (f.op ≢ Op.parity_report)

roster-Quiet : Emits IsQuiet broadcast_roster
unfolding broadcast_roster
roster-Quiet r = Emits-broadcast IsQuiet _ none (λ i. tt) r

host_name-Quiet : Emits IsQuiet broadcast_host_name
unfolding broadcast_host_name
host_name-Quiet r = Emits-broadcast IsQuiet _ none (λ i. tt) r

roster-state : (r : Relay) → (broadcast_roster r).0 ≡ r
unfolding broadcast_roster broadcast
roster-state r = refl

host_name-state : (r : Relay) → (broadcast_host_name r).0 ≡ r
unfolding broadcast_host_name broadcast
host_name-state r = refl

-- A handler that leaves the state alone, and passes nothing on.
still-Spares : (f : Handler) (r : Relay) → (f r).0 ≡ r → Emits IsQuiet f → Spares r (f r)
still-Spares f r e q = (rw e (IsSameRoom-refl r), q r)

-- What a new name is followed by.
shout : Bool → Handler
shout b = (if b then broadcast_host_name else skip) >> broadcast_roster

shout-Spares : (b : Bool) (r : Relay) → Spares r (shout b r)
unfolding shout
shout-Spares true r =
    still-Spares (broadcast_host_name >> broadcast_roster) r
      (rw (host_name-state r) (roster-state r))
      (Emits->> IsQuiet broadcast_host_name broadcast_roster host_name-Quiet roster-Quiet)
shout-Spares false r = still-Spares broadcast_roster r (roster-state r) roster-Quiet

-- A new name is announced, and nothing else.
pub rename-Quiet : (p : Peer) (name : Option String) → Emits IsQuiet (rename p name)
unfolding rename shout
rename-Quiet p name r = elim (Bool-cases (same p.name (announced name))) [
  | inl known ↦ rw known tt
  | inr fresh ↦
      rw fresh (shout-Spares (is_host p.role) (set_peer (record p { name = announced name }) r).0).1
]
