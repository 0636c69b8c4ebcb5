-- ===== src/Transport/Invariant.antt =====
-- lib/transport.js: every event keeps what a `SecureSocket` holds in step with its state.
use vibed_st_muliplayer.Replay.{accept}
use vibed_st_muliplayer.Base.{
  ltb, is_some, ◌&&◌, ◌-◌, ◌∷◌, List, ◌==◌, leb, length, not, [], refl, suc, Bool, ◌||◌, ℕ, ◌≡◌,
  true, false, Option, none, some,
}
use vibed_st_muliplayer.Relay.Handshake.{bytes_equal, Ephemeral}
use vibed_st_muliplayer.Secrets.{compute_confirmation, Primitives, Derived}
use vibed_st_muliplayer.Transport.{
  is_current, hang_up, State, Socket, Ready, Transport, is, set_state,
}
use vibed_st_muliplayer.Relay.State.{Bytes}
use vibed_st_muliplayer.Transport.Handlers.{on_put, Event, on_beat, step, run, on_expiry, on_seal}
use vibed_st_muliplayer.Transport.Messages.{
  on_reject, on_payload, Inbound, Payload, on_frame, on_message, open_with, handle_challenge,
  handle_accepted, say_hello, confirm_with, give_up, on_prepared, protocol_error,
}
use vibed_st_muliplayer.Transport.Lifecycle.{
  wind_up, new_transport, dial_socket, reschedule, is_engaged, close, connect, start_handshake,
  on_close, is_dialling,
}
use vibed_st_muliplayer.Transport.Fits.{
  Fits, IsFit, set_state_lem, if-IsFit, going-Fits, connected-Fits, drawn-Fits, challenged-Fits,
  accepted-Fits, idle-Fits, ended, unused,
}
use vibed_st_muliplayer.Protocol.Limits

hang_up-IsFit : (code : ℕ) (t : Transport) → IsFit t → IsFit (hang_up code t).0
unfolding hang_up
hang_up-IsFit code t f = going-Fits f

protocol_error-IsFit : (t : Transport) → IsFit t → IsFit (protocol_error t).0
unfolding protocol_error give_up hang_up
protocol_error-IsFit t f = going-Fits f

start_handshake-IsFit :
    (so : Option Socket) (t : Transport)
    → IsFit t
    → Fits t.state so t.keys t.pending t.pending_keys t.dialled
    → IsFit (start_handshake so t).0
unfolding start_handshake
start_handshake-IsFit none t f g = f
start_handshake-IsFit (some k) t f g =
    if-IsFit (is_dialling k) _ _ (λ fresh. rw set_state_lem (connected-Fits k g fresh)) (λ known. f)

reschedule-IsFit : (fraction : ℕ) (t : Transport) → IsFit t → IsFit (reschedule fraction t).0
unfolding reschedule
reschedule-IsFit fraction t f =
    if-IsFit (t.closed_by_us || not t.auto_reconnect) _ _ (λ stops. f)
      (λ goes. if-IsFit (leb 8 t.attempts) _ _ (λ many. f) (λ few. f))

on_close-IsFit : (code now fraction : ℕ) (t : Transport) → IsFit (on_close code now fraction t).0
unfolding on_close
on_close-IsFit code now fraction t =
    reschedule-IsFit fraction (set_state State.closed (wind_up code now t)).0
      (rw set_state_lem ended)

dial-IsFit :
    (works : Bool) (now fraction : ℕ) (t : Transport)
    → Fits State.connecting
        (some (record { id = suc t.dialled; ready = Ready.dialling; preparing = false }))
        t.keys
        t.pending
        t.pending_keys
        (suc t.dialled)
    → t.state ≡ State.connecting
    → IsFit (dial_socket works now fraction t).0
unfolding dial_socket
dial-IsFit true now fraction t f e = rw e f
dial-IsFit false now fraction t f e = on_close-IsFit 1006 now fraction _

connect-IsFit :
    (works : Bool) (now fraction : ℕ) (t : Transport)
    → IsFit t
    → IsFit (connect works now fraction t).0
unfolding connect
connect-IsFit works now fraction t f =
    if-IsFit (is_engaged t.state) _ _ (λ busy. f)
      (λ free. rw set_state_lem (dial-IsFit works now fraction _ (idle-Fits f free) refl))

close-IsFit : (t : Transport) → IsFit (close t).0
unfolding close
close-IsFit t = rw set_state_lem ended

say_hello-IsFit :
    (p : Primitives) (e : Option Ephemeral) (t : Transport)
    → IsFit t
    → ((x : Ephemeral) → Fits t.state t.socket t.keys (some x) t.pending_keys t.dialled)
    → IsFit (say_hello p e t).0
unfolding say_hello
say_hello-IsFit p none t f g = hang_up-IsFit 4400 t f
say_hello-IsFit p (some e) t f g = g e

on_prepared-IsFit :
    (p : Primitives) (so : Option Socket) (e : Option Ephemeral) (t : Transport)
    → IsFit t
    → Fits t.state so t.keys t.pending t.pending_keys t.dialled
    → IsFit (on_prepared p so e t).0
unfolding on_prepared
on_prepared-IsFit p none e t f g = f
on_prepared-IsFit p (some k) e t f g =
    if-IsFit k.preparing _ _
      (λ waits.
        say_hello-IsFit p e _
          (drawn-Fits k (record { secret = []; public_key = []; nonce = [] }) g waits).1
          (λ x. (drawn-Fits k x g waits).0))
      (λ other. f)

confirm_with-IsFit :
    (p : Primitives) (d : Option Derived) (e : Ephemeral) (t : Transport)
    → IsFit t
    → t.pending ≡ some e
    → IsFit (confirm_with p d t).0
unfolding confirm_with
confirm_with-IsFit p none e t f g = protocol_error-IsFit t f
confirm_with-IsFit p (some d) e t f g = challenged-Fits e d f g

handle_challenge-IsFit :
    (p : Primitives) (pe : Option Ephemeral) (key challenge_nonce : Option Bytes) (t : Transport)
    → IsFit t
    → t.pending ≡ pe
    → IsFit (handle_challenge p pe key challenge_nonce t).0
unfolding handle_challenge
handle_challenge-IsFit p (some e) (some key) (some challenge_nonce) t f g =
    if-IsFit (length key == 65 && length challenge_nonce == 16) _ _
      (λ fair. (confirm_with-IsFit p _ e t f g)) (λ odd. (protocol_error-IsFit t f))
handle_challenge-IsFit p (some e) (some key) none t f g = protocol_error-IsFit t f
handle_challenge-IsFit p (some e) none challenge_nonce t f g = protocol_error-IsFit t f
handle_challenge-IsFit p none key challenge_nonce t f g = protocol_error-IsFit t f

handle_accepted-IsFit :
    (p : Primitives) (pk : Option Derived) (mac : Option Bytes) (now : ℕ) (t : Transport)
    → IsFit t
    → t.pending_keys ≡ pk
    → IsFit (handle_accepted p pk mac now t).0
unfolding handle_accepted open_with
handle_accepted-IsFit p (some d) (some mac) now t f g =
    if-IsFit (bytes_equal (compute_confirmation p d.keys.confirm_key d.transcript "server") mac) _ _
      (λ known. rw set_state_lem (accepted-Fits d d.keys f g)) (λ other. protocol_error-IsFit t f)
handle_accepted-IsFit p (some d) none now t f g = protocol_error-IsFit t f
handle_accepted-IsFit p none mac now t f g = protocol_error-IsFit t f

on_payload-IsFit : (m : Payload) (now : ℕ) (t : Transport) → IsFit t → IsFit (on_payload m now t).0
on_payload-IsFit (Payload.pong at) now t f = f
on_payload-IsFit (Payload.other text) now t f = f

on_frame-IsFit :
    (m : Option (ℕ × Payload)) (now : ℕ) (t : Transport) → IsFit t → IsFit (on_frame m now t).0
unfolding on_frame
on_frame-IsFit none now t f = protocol_error-IsFit t f
on_frame-IsFit (some (counter, payload)) now t f =
    if-IsFit (accept t.replay counter).1 _ _ (λ new. on_payload-IsFit payload now _ f)
      (λ old. protocol_error-IsFit t f)

on_message-IsFit :
    (p : Primitives) (m : Inbound) (now : ℕ) (t : Transport)
    → IsFit t
    → IsFit (on_message p m now t).0
unfolding on_message
on_message-IsFit p (Inbound.challenge key challenge_nonce) now t f =
    handle_challenge-IsFit p t.pending key challenge_nonce t f refl
on_message-IsFit p (Inbound.accepted mac) now t f =
    handle_accepted-IsFit p t.pending_keys mac now t f refl
on_message-IsFit p (Inbound.reject r) now t f = unfold on_reject in f
on_message-IsFit p Inbound.unexpected now t f = protocol_error-IsFit t f
on_message-IsFit p (Inbound.frame m) now t f =
    if-IsFit (is t.state State.open_session && is_some t.keys) _ _
      (λ open_now. (on_frame-IsFit m now t f)) (λ other. (protocol_error-IsFit t f))

on_expiry-IsFit : (t : Transport) → IsFit t → IsFit (on_expiry t).0
unfolding on_expiry
on_expiry-IsFit t f = if-IsFit t.handshake_timer _ _ (λ set. (going-Fits f)) (λ clear. f)

on_beat-IsFit : (now : ℕ) (t : Transport) → IsFit t → IsFit (on_beat now t).0
unfolding on_beat
on_beat-IsFit now t f =
    if-IsFit (t.heartbeat_timer && is t.state State.open_session) _ _
      (λ beats.
        if-IsFit (ltb Limits.ping_timeout_ms (now - t.last_pong_at)) _ _ (λ late. going-Fits f)
          (λ well. f))
      (λ off. f)

on_seal-IsFit :
    (s : ℕ) (had_keys sealable : Bool) (t : Transport)
    → IsFit t
    → IsFit (on_seal s had_keys sealable t).0
unfolding on_seal
on_seal-IsFit s had_keys sealable t f =
    if-IsFit (is t.state State.open_session && had_keys && is_some t.keys && is_current s t.socket)
      _ _ (λ goes. f) (λ other. f)

-- Every event leaves the transport with what its state calls for, and nothing else.
pub step-IsFit : (p : Primitives) (e : Event) (t : Transport) → IsFit t → IsFit (step p e t).0
unfolding step
step-IsFit p (Event.dials works now fraction) t f = connect-IsFit works now fraction t f
step-IsFit p (Event.retries works now fraction) t f =
    if-IsFit t.reconnect_timer _ _ (λ set. (connect-IsFit works now fraction t f)) (λ clear. f)
step-IsFit p (Event.opens s) t f =
    if-IsFit (is_current s t.socket) _ _ (λ same. (start_handshake-IsFit t.socket t f f))
      (λ other. f)
step-IsFit p (Event.prepares s e) t f =
    if-IsFit (is_current s t.socket) _ _ (λ same. (on_prepared-IsFit p t.socket e t f f))
      (λ other. f)
step-IsFit p (Event.receives s m now) t f =
    if-IsFit (is_current s t.socket) _ _ (λ same. (on_message-IsFit p m now t f)) (λ other. f)
step-IsFit p (Event.breaks s) t f = if-IsFit (is_current s t.socket) _ _ (λ same. f) (λ other. f)
step-IsFit p (Event.closes s code now fraction) t f =
    if-IsFit (is_current s t.socket) _ _ (λ same. (on_close-IsFit code now fraction t)) (λ other. f)
step-IsFit p Event.shuts t f = close-IsFit t
step-IsFit p Event.expires t f = on_expiry-IsFit t f
step-IsFit p (Event.beats now) t f = on_beat-IsFit now t f
step-IsFit p (Event.seals s had_keys sealable) t f = on_seal-IsFit s had_keys sealable t f
step-IsFit p (Event.puts s counter) t f = unfold on_put in f

run-IsFit : (p : Primitives) (es : List Event) (t : Transport) → IsFit t → IsFit (run p es t).0
unfolding run
run-IsFit p [] t f = f
run-IsFit p (e ∷ es) t f = run-IsFit p es (step p e t).0 (step-IsFit p e t f)

pub new-IsFit :
    (psk : Bytes) (token : Option Bytes) (auto : Bool) → IsFit (new_transport psk token auto)
unfolding new_transport
new-IsFit psk token auto = unused
