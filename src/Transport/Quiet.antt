-- ===== src/Transport/Quiet.antt =====
-- lib/transport.js: no event but the turn of a call of `send` seals a frame.
pub mod Closing
pub mod Messages
use vibed_st_muliplayer.Transport.Quiet.Closing.{hang_up-Quiet}
use vibed_st_muliplayer.Base.{
  ltb, ◌-◌, is_some, ◌&&◌, ◌==◌, ap, length, inr, Bool-cases, suc, leb, ◌||◌, not, if◌then◌else◌, ℕ,
  ◌≤◌, ◌≡◌, inl, refl, Bool, true, false, Option, none, some, List, [], arith,
}
use vibed_st_muliplayer.Relay.Handshake.{Ephemeral, bytes_equal}
use vibed_st_muliplayer.Relay.State.{Bytes}
use vibed_st_muliplayer.Replay.{accept}
use vibed_st_muliplayer.Secrets.{Primitives, Derived, compute_confirmation, Keys}
use vibed_st_muliplayer.Transport.{
  Reason, is_up, Signal, emit, Ready, is_current, Text, send_json, set_state, is, hang_up,
  close_call, going_socket, teardown, ◌>>◌, State, Socket, Transport, Output,
}
use vibed_st_muliplayer.Transport.Fits.{
  Fits, IsFit, unused, ended, dialled, drawing, greeted, live, set_state_lem,
}
use vibed_st_muliplayer.Transport.Lifecycle.{
  is_engaged, report_closed, wind_up, is_dialling, is_open_or_dialling, start_handshake, close_open,
  on_close, dial_socket, connect, close, reschedule,
}
use vibed_st_muliplayer.Transport.Handlers.{on_expiry, on_beat, on_put}
use vibed_st_muliplayer.Transport.Messages.{
  on_reject, on_payload, Payload, Inbound, on_frame, on_message, prepared, say_hello, on_prepared,
  confirm_with, handle_challenge, handle_accepted, open_with, give_up, protocol_error,
}
use vibed_st_muliplayer.Transport.Sealing.{
  sealed, Ahead, IsAhead, Ahead-of_new, Quiet, if-Quiet, then-Quiet_at, then-Quiet,
}
use vibed_st_muliplayer.Protocol.Limits
use vibed_st_muliplayer.Transport.Quiet.Closing.{on_close-Quiet, connect-Quiet, close-Quiet}
use vibed_st_muliplayer.Transport.Quiet.Messages.{
  start_handshake-Quiet, on_prepared-Quiet, emit-Quiet, on_message-Quiet,
}

pub when_current-Quiet :
    (s : ℕ) (t : Transport) (x : Transport × List Output)
    → Quiet t x
    → Quiet t (if is_current s t.socket then x else (t, []))
unfolding sealed
when_current-Quiet s t x q =
    if-Quiet t (is_current s t.socket) _ _ (λ same. q) (λ other. (refl, λ y a. a))

pub on_expiry-Quiet : (t : Transport) → Quiet t (on_expiry t)
unfolding on_expiry sealed
on_expiry-Quiet t =
    if-Quiet t t.handshake_timer _ _
      (λ set. hang_up-Quiet 4408 (record t { handshake_timer = false })) (λ clear. (refl, λ x a. a))

pub on_beat-Quiet : (now : ℕ) (t : Transport) → Quiet t (on_beat now t)
unfolding on_beat sealed
on_beat-Quiet now t =
    if-Quiet t (t.heartbeat_timer && is t.state State.open_session) _ _
      (λ beats.
        if-Quiet t (ltb Limits.ping_timeout_ms (now - t.last_pong_at)) _ _
          (λ late. hang_up-Quiet 4408 t) (λ well. (refl, λ x a. a)))
      (λ off. (refl, λ x a. a))

pub on_put-Quiet : (s counter : ℕ) (t : Transport) → Quiet t (on_put s counter t)
unfolding on_put sealed
on_put-Quiet s counter t =
    elim (Bool-cases (is_current s t.socket && is_some t.keys && is_up t.socket)) [
      | inl goes ↦ (rw goes, λ x a. a)
      | inr gone ↦ (rw gone, λ x a. a)
    ]
