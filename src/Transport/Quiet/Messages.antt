-- ===== src/Transport/Quiet/Messages.antt =====
-- lib/transport.js: the handshake and the frames that arrive seal no frame.
use vibed_st_muliplayer.Transport.Quiet.Closing.{
  set_state-Quiet, give_up-Quiet, protocol_error-Quiet,
}
use vibed_st_muliplayer.Base.{
  is_some, ◌&&◌, ◌==◌, ap, length, inr, Bool-cases, ℕ, ◌≡◌, inl, refl, true, Option, none, some,
  arith,
}
use vibed_st_muliplayer.Relay.Handshake.{Ephemeral, bytes_equal}
use vibed_st_muliplayer.Relay.State.{Bytes}
use vibed_st_muliplayer.Replay.{accept}
use vibed_st_muliplayer.Secrets.{Primitives, Derived, compute_confirmation, Keys}
use vibed_st_muliplayer.Transport.{
  Reason, is_up, Signal, emit, Ready, Text, send_json, set_state, is, State, Socket, Transport,
}
use vibed_st_muliplayer.Transport.Fits.{Fits, IsFit, unused, ended, dialled, drawing, greeted, live}
use vibed_st_muliplayer.Transport.Lifecycle.{is_dialling, start_handshake}
use vibed_st_muliplayer.Transport.Messages.{
  on_reject, on_payload, Payload, Inbound, on_frame, on_message, prepared, say_hello, on_prepared,
  confirm_with, handle_challenge, handle_accepted, open_with,
}
use vibed_st_muliplayer.Transport.Sealing.{sealed, Ahead, Quiet, if-Quiet, then-Quiet}

send_json-Quiet : (text : Text) (t : Transport) → Quiet t (send_json text t)
unfolding send_json sealed
send_json-Quiet text t = elim (Bool-cases (is_up t.socket)) [
  | inl up_now ↦ (rw up_now, λ x a. a)
  | inr down ↦ (rw down, λ x a. a)
]

-- Another record of the current socket changes nothing.
renewed-Ahead :
    (k : Socket) (so : Option Socket) (ke : Option Keys) (c n : ℕ) (x : ℕ × ℕ)
    → is_some so ≡ true
    → Ahead (some k) ke c n x
    → Ahead so ke c n x
renewed-Ahead k none ke c n x e a = cc
renewed-Ahead k (some j) none c n x e a = a
renewed-Ahead k (some j) (some y) c n x e a = a

pub start_handshake-Quiet :
    (so : Option Socket) (t : Transport) → t.socket ≡ so → Quiet t (start_handshake so t)
unfolding start_handshake sealed
start_handshake-Quiet none t e = (refl, λ x a. a)
start_handshake-Quiet (some k) t e =
    let u : Transport = record t {
      socket = some (record k { ready = Ready.up; preparing = true });
      handshake_timer = true;
    } in
    if-Quiet t (is_dialling k) _ _
      (λ fresh. (
        (set_state-Quiet State.handshaking u).0,
        λ x a.
            renewed-Ahead k t.socket t.keys t.send_counter t.dialled x (ap is_some e)
              ((set_state-Quiet State.handshaking u).1 x a),
      ))
      (λ known. (refl, λ x a. a))

say_hello-Quiet :
    (p : Primitives) (e : Option Ephemeral) (t : Transport) → Quiet t (say_hello p e t)
unfolding say_hello
say_hello-Quiet p none t = give_up-Quiet t
say_hello-Quiet p (some e) t = send_json-Quiet _ (record t { pending = some e })

pub on_prepared-Quiet :
    (p : Primitives) (so : Option Socket) (e : Option Ephemeral) (t : Transport)
    → t.socket ≡ so
    → Quiet t (on_prepared p so e t)
unfolding on_prepared sealed
on_prepared-Quiet p none e t h = (refl, λ x a. a)
on_prepared-Quiet p (some k) e t h =
    let moved = say_hello-Quiet p e (record t { socket = some (prepared k) }) in
    if-Quiet t k.preparing _ _
      (λ waits. (
        moved.0,
        λ x a.
            renewed-Ahead k t.socket t.keys t.send_counter t.dialled x (ap is_some h) (moved.1 x a),
      ))
      (λ other. (refl, λ x a. a))

confirm_with-Quiet :
    (p : Primitives) (d : Option Derived) (t : Transport) → Quiet t (confirm_with p d t)
unfolding confirm_with
confirm_with-Quiet p none t = protocol_error-Quiet t
confirm_with-Quiet p (some d) t = send_json-Quiet _ (record t { pending_keys = some d })

handle_challenge-Quiet :
    (p : Primitives) (pe : Option Ephemeral) (key salt : Option Bytes) (t : Transport)
    → Quiet t (handle_challenge p pe key salt t)
unfolding handle_challenge
handle_challenge-Quiet p (some e) (some key) (some salt) t =
    if-Quiet t (length key == 65 && length salt == 16) _ _ (λ fair. confirm_with-Quiet p _ t)
      (λ odd. protocol_error-Quiet t)
handle_challenge-Quiet p (some e) (some key) none t = protocol_error-Quiet t
handle_challenge-Quiet p (some e) none salt t = protocol_error-Quiet t
handle_challenge-Quiet p none key salt t = protocol_error-Quiet t

-- The keys come to a socket that has none.
keyed-Ahead :
    {st : State} {so : Option Socket} {ke : Option Keys} {pe : Option Ephemeral}
    {pk : Option Derived} {n : ℕ} (d : Derived) (y : Keys) (c : ℕ) (x : ℕ × ℕ)
    → Fits st so ke pe pk n
    → pk ≡ some d
    → Ahead so (some y) 0 n x
    → Ahead so ke c n x
keyed-Ahead d y c x unused h a = cc
keyed-Ahead d y c x ended h a = cc
keyed-Ahead d y c x (dialled i q) h a = cc
keyed-Ahead d y c x (drawing i r) h a = cc
keyed-Ahead d y c x (greeted i r q) h a = ground arith
keyed-Ahead d y c x (live i r q) h a = cc

pub emit-Quiet : (s : Signal) (t : Transport) → Quiet t (emit s t)
unfolding sealed
emit-Quiet s t = (refl, λ x a. a)

opening-Quiet :
    (d : Derived) (now : ℕ) (t : Transport)
    → IsFit t
    → t.pending_keys ≡ some d
    → Quiet t (open_with d now t)
unfolding open_with
opening-Quiet d now t f h =
    let moved =
      then-Quiet _ (set_state State.open_session) (emit Signal.opened)
        (set_state-Quiet State.open_session _) (emit-Quiet Signal.opened) in
    (moved.0, λ x a. keyed-Ahead d d.keys t.send_counter x f h (moved.1 x a))

handle_accepted-Quiet :
    (p : Primitives) (pk : Option Derived) (mac : Option Bytes) (now : ℕ) (t : Transport)
    → IsFit t
    → t.pending_keys ≡ pk
    → Quiet t (handle_accepted p pk mac now t)
unfolding handle_accepted
handle_accepted-Quiet p (some d) (some mac) now t f h =
    if-Quiet t (bytes_equal (compute_confirmation p d.keys.confirm_key d.transcript "server") mac) _
      _ (λ known. opening-Quiet d now t f h) (λ other. protocol_error-Quiet t)
handle_accepted-Quiet p (some d) none now t f h = protocol_error-Quiet t
handle_accepted-Quiet p none mac now t f h = protocol_error-Quiet t

on_reject-Quiet : (r : Option Reason) (t : Transport) → Quiet t (on_reject r t)
unfolding on_reject sealed
on_reject-Quiet r t = (refl, λ x a. a)

on_payload-Quiet : (m : Payload) (now : ℕ) (t : Transport) → Quiet t (on_payload m now t)
unfolding sealed
on_payload-Quiet (Payload.pong at) now t = (refl, λ x a. a)
on_payload-Quiet (Payload.other text) now t = (refl, λ x a. a)

on_frame-Quiet : (m : Option (ℕ × Payload)) (now : ℕ) (t : Transport) → Quiet t (on_frame m now t)
unfolding on_frame
on_frame-Quiet none now t = protocol_error-Quiet t
on_frame-Quiet (some (counter, payload)) now t =
    if-Quiet t (accept t.replay counter).1 _ _
      (λ new. on_payload-Quiet payload now (record t { replay = (accept t.replay counter).0 }))
      (λ old. protocol_error-Quiet t)

pub on_message-Quiet :
    (p : Primitives) (m : Inbound) (now : ℕ) (t : Transport)
    → IsFit t
    → Quiet t (on_message p m now t)
unfolding on_message
on_message-Quiet p (Inbound.challenge key salt) now t f =
    handle_challenge-Quiet p t.pending key salt t
on_message-Quiet p (Inbound.accepted mac) now t f =
    handle_accepted-Quiet p t.pending_keys mac now t f refl
on_message-Quiet p (Inbound.reject r) now t f = on_reject-Quiet r t
on_message-Quiet p Inbound.unexpected now t f = protocol_error-Quiet t
on_message-Quiet p (Inbound.frame m) now t f =
    if-Quiet t (is t.state State.open_session && is_some t.keys) _ _
      (λ live. on_frame-Quiet m now t) (λ other. protocol_error-Quiet t)
