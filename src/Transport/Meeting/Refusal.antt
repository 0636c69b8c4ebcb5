-- ===== src/Transport/Meeting/Refusal.antt =====
-- lib/transport.js and server/lib/relay.js: what `#rejectSocket` does to the browser at the other end.
use vibed_st_muliplayer.Base.{inl, inr, arith}
use vibed_st_muliplayer.Transport.Backoff.{on_close-IsHonest}
use vibed_st_muliplayer.Base.{◌∙◌, some, arith, if◌then◌else◌, length}
use vibed_st_muliplayer.Transport.{set_state}
use vibed_st_muliplayer.Transport.Meeting.{reason_heard}
use vibed_st_muliplayer.Transport.Backoff.{wind_up-auto}
use vibed_st_muliplayer.Transport.Messages.{on_message}
use vibed_st_muliplayer.Transport.Lifecycle.{reschedule, wind_up}
use vibed_st_muliplayer.Transport.Fits.{set_state_lem}
use vibed_st_muliplayer.Relay.State.{Reason as RelayReason, Relay, Effect}
use vibed_st_muliplayer.Base.{◌≤◌, Option}
use vibed_st_muliplayer.Relay.State.{Effect, Relay}
use vibed_st_muliplayer.Secrets.{Primitives}
use vibed_st_muliplayer.Transport.{Reason as ClientReason}
use mathlib.Core.List.{append-nil}
use vibed_st_muliplayer.Transport.Messages.{Inbound}
use vibed_st_muliplayer.Transport.{Output, is_current}
use vibed_st_muliplayer.Transport.Meeting.{as_answered}
use vibed_st_muliplayer.Transport.Backoff.{delays}
use vibed_st_muliplayer.Transport.Messages.{on_reject}
use vibed_st_muliplayer.Transport.Lifecycle.{is_final_code, on_close}
use vibed_st_muliplayer.Base.{ℕ, ◌≡◌, refl, Bool, true, false, List, [], ◌∷◌, ◌++◌}
use vibed_st_muliplayer.Relay.Handshake.{reject_socket}
use vibed_st_muliplayer.Transport.{State, Transport}
use vibed_st_muliplayer.Transport.Handlers.{Event, run, step}

-- The events that the relay's effects on a socket are at its other end.
unfoldable pub felt : ℕ → ℕ → ℕ → List Effect → List Event
felt id now fraction [] = []
felt id now fraction (Effect.send_json socket text ∷ es) =
    Event.receives id (as_answered text) now ∷ felt id now fraction es
felt id now fraction (Effect.close socket code ∷ es) =
    Event.closes id code now fraction ∷ felt id now fraction es
felt id now fraction (Effect.destroy socket ∷ es) =
    Event.closes id 1006 now fraction ∷ felt id now fraction es
felt id now fraction (Effect.send peer message ∷ es) = felt id now fraction es

rejected-delays :
    (reason : Option ClientReason) (t : Transport) (os : List Output)
    → delays ((on_reject reason t).1 ++ os) ≡ delays os
unfolding on_reject delays
rejected-delays reason t os = refl

reschedule-ends :
    (fraction : ℕ) (t : Transport)
    → t.auto_reconnect ≡ false
    → ((reschedule fraction t).0.auto_reconnect ≡ false)
      × ((reschedule fraction t).0.state ≡ t.state)
unfolding reschedule
reschedule-ends fraction t h = ground arith

on_close-ends :
    (code now fraction : ℕ) (t : Transport)
    → is_final_code code ≡ true
    → ((on_close code now fraction t).0.auto_reconnect ≡ false)
      × ((on_close code now fraction t).0.state ≡ State.closed)
unfolding on_close
on_close-ends code now fraction t h =
    let u = (set_state State.closed (wind_up code now t)).0 in
    let ends = reschedule-ends fraction u (rw set_state_lem (wind_up-auto code now t h)) in
    (ends.0, ends.1 ∙ (rw set_state_lem refl))

if_true {ℓ} : {A : Type ℓ} (b : Bool) (x y : A) → b ≡ true → (if b then x else y) ≡ x
if_true true x y h = refl
if_true false x y h = cc

step_rejected :
    (p : Primitives) (n : ℕ) (reason : Option ClientReason) (now : ℕ) (t : Transport)
    → is_current n t.socket ≡ true
    → step p (Event.receives n (Inbound.reject reason) now) t ≡ on_reject reason t
unfolding step on_message
step_rejected p n reason now t h = if_true (is_current n t.socket) (on_reject reason t) (t, []) h

step_closes :
    (p : Primitives) (n code now fraction : ℕ) (t : Transport)
    → is_current n t.socket ≡ true
    → step p (Event.closes n code now fraction) t ≡ on_close code now fraction t
unfolding step
step_closes p n code now fraction t h =
    if_true (is_current n t.socket) (on_close code now fraction t) (t, []) h

-- Whatever reason the relay gives when it turns a connection away, a full room or lobby included, the
-- browser at the other end, after at most 8 attempts, ends up closed, schedules no attempt, and will not
-- reconnect by itself.
pub refusal_is_final :
    (p : Primitives) (t : Transport) (socket now fraction : ℕ) (reason : RelayReason) (r : Relay)
    → t.attempts ≤ 8
    → is_current t.dialled t.socket ≡ true
    → let out = run p (felt t.dialled now fraction (reject_socket socket reason r).1) t in
      (length (delays out.1) ≡ 0) × (out.0.auto_reconnect ≡ false) × (out.0.state ≡ State.closed)
unfolding run felt
refusal_is_final p t socket now fraction reason r h current =
    let u = (on_reject (some (reason_heard reason)) t).0 in
    let still : is_current t.dialled u.socket ≡ true = unfold on_reject in current in
    let few : u.attempts ≤ 8 = unfold on_reject in h in
    let quiet : length (delays (on_close 4401 now fraction u).1) ≡ 0 =
      elim (on_close-IsHonest 4401 now fraction u few).2 [
        | inl other ↦ ground arith
        | inr silent ↦ silent
      ] in
    let ends = on_close-ends 4401 now fraction u refl in
    rw (step_rejected p t.dialled (some (reason_heard reason)) now t current) (
      rw (step_closes p t.dialled 4401 now fraction u still, append-nil, rejected-delays)
        (quiet, ends.0, ends.1))
