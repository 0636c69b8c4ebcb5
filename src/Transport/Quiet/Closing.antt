-- ===== src/Transport/Quiet/Closing.antt =====
-- lib/transport.js: `#setState`, `connect`, `close` and `#onClose` seal no frame.
use vibed_st_muliplayer.Base.{
  suc, leb, ◌||◌, not, ℕ, ◌≤◌, ◌≡◌, refl, Bool, true, false, Option, none, some, [],
}
use vibed_st_muliplayer.Relay.Handshake.{Ephemeral}
use vibed_st_muliplayer.Secrets.{Derived, Keys}
use vibed_st_muliplayer.Transport.{
  Ready, set_state, is, hang_up, close_call, going_socket, teardown, ◌>>◌, State, Socket, Transport,
}
use vibed_st_muliplayer.Transport.Fits.{
  Fits, IsFit, unused, ended, dialled, drawing, greeted, live, set_state_lem,
}
use vibed_st_muliplayer.Transport.Lifecycle.{
  is_engaged, report_closed, wind_up, is_open_or_dialling, close_open, on_close, dial_socket,
  connect, close, reschedule,
}
use vibed_st_muliplayer.Transport.Messages.{give_up, protocol_error}
use vibed_st_muliplayer.Transport.Sealing.{
  sealed, Ahead, IsAhead, Ahead-of_new, Quiet, if-Quiet, then-Quiet_at, then-Quiet,
}

pub set_state-Quiet : (s : State) (t : Transport) → Quiet t (set_state s t)
unfolding set_state sealed
set_state-Quiet s t =
    if-Quiet t (is t.state s) _ _ (λ same. (refl, λ x a. a)) (λ other. (refl, λ x a. a))

going-Ahead :
    (so : Option Socket) (ke : Option Keys) (c n : ℕ) (x : ℕ × ℕ)
    → Ahead (going_socket so) ke c n x
    → Ahead so ke c n x
going-Ahead none ke c n x a = a
going-Ahead (some k) none c n x a = a
going-Ahead (some k) (some y) c n x a = a

sealed-close_call : (code : ℕ) (so : Option Socket) → sealed (close_call code so) ≡ []
unfolding sealed
sealed-close_call code none = refl
sealed-close_call code (some k) = refl

pub hang_up-Quiet : (code : ℕ) (t : Transport) → Quiet t (hang_up code t)
unfolding hang_up
hang_up-Quiet code t =
    (sealed-close_call code t.socket, going-Ahead t.socket t.keys t.send_counter t.dialled)

pub give_up-Quiet : (t : Transport) → Quiet t (give_up t)
unfolding give_up sealed hang_up
give_up-Quiet t = hang_up-Quiet 4400 t

pub protocol_error-Quiet : (t : Transport) → Quiet t (protocol_error t)
unfolding protocol_error
protocol_error-Quiet t = give_up-Quiet (record t { auto_reconnect = false })

reschedule-Quiet : (fraction : ℕ) (t : Transport) → Quiet t (reschedule fraction t)
unfolding reschedule sealed
reschedule-Quiet fraction t =
    if-Quiet t (t.closed_by_us || not t.auto_reconnect) _ _ (λ stops. (refl, λ x a. a))
      (λ goes.
        if-Quiet t (leb 8 t.attempts) _ _ (λ many. (refl, λ x a. a)) (λ few. (refl, λ x a. a)))

report_closed-Quiet :
    (code : ℕ) (before : State) (t : Transport) → Quiet t (report_closed code before t)
unfolding report_closed sealed
report_closed-Quiet code before t = (refl, λ x a. a)

closing-Quiet :
    (code fraction : ℕ) (before : State) (t : Transport)
    → Quiet t ((set_state State.closed >> report_closed code before >> reschedule fraction) t)
closing-Quiet code fraction before t =
    then-Quiet t (set_state State.closed >> report_closed code before) (reschedule fraction)
      (then-Quiet t (set_state State.closed) (report_closed code before)
        (set_state-Quiet State.closed t) (report_closed-Quiet code before))
      (reschedule-Quiet fraction)

pub on_close-Quiet :
    (code now fraction : ℕ) (t : Transport) → Quiet t (on_close code now fraction t)
unfolding on_close wind_up teardown
on_close-Quiet code now fraction t =
    let moved = closing-Quiet code fraction t.state (wind_up code now t) in
    (moved.0, λ x a. Ahead-of_new t.socket t.keys t.send_counter t.dialled x (moved.1 x a))

unheld-Ahead :
    {st : State} {so : Option Socket} {ke : Option Keys} {pe : Option Ephemeral}
    {pk : Option Derived} {n : ℕ} (c : ℕ) (x : ℕ × ℕ)
    → Fits st so ke pe pk n
    → is_engaged st ≡ false
    → suc n ≤ x.0
    → Ahead so ke c n x
unheld-Ahead c x unused h a = a
unheld-Ahead c x ended h a = a
unheld-Ahead c x (dialled i q) h a = cc
unheld-Ahead c x (drawing i r) h a = cc
unheld-Ahead c x (greeted i r q) h a = cc
unheld-Ahead c x (live i r q) h a = cc

fresh-Ahead :
    (k : Socket) (ke : Option Keys) (c n : ℕ) (x : ℕ × ℕ)
    → ke ≡ none
    → Ahead (some k) ke c n x
    → n ≤ x.0
fresh-Ahead k none c n x e a = a
fresh-Ahead k (some y) c n x e a = cc

dial-Quiet :
    (works : Bool) (now fraction : ℕ) (t : Transport)
    → t.keys ≡ none
    → ((x : ℕ × ℕ) → suc t.dialled ≤ x.0 → IsAhead t x)
    → Quiet t (dial_socket works now fraction t)
unfolding dial_socket sealed
dial-Quiet true now fraction t e f = (
  refl,
  λ x a. f x (
      fresh-Ahead (record { id = suc t.dialled; ready = Ready.dialling; preparing = false }) t.keys
        t.send_counter (suc t.dialled) x e a),
)
dial-Quiet false now fraction t e f =
    on_close-Quiet 1006 now fraction (record t { auto_reconnect = false })

unheld-keys :
    {st : State} {so : Option Socket} {ke : Option Keys} {pe : Option Ephemeral}
    {pk : Option Derived} {n : ℕ}
    → Fits st so ke pe pk n
    → is_engaged st ≡ false
    → ke ≡ none
unheld-keys unused h = refl
unheld-keys ended h = refl
unheld-keys (dialled i q) h = cc
unheld-keys (drawing i r) h = cc
unheld-keys (greeted i r q) h = cc
unheld-keys (live i r q) h = cc

pub connect-Quiet :
    (works : Bool) (now fraction : ℕ) (t : Transport)
    → IsFit t
    → Quiet t (connect works now fraction t)
unfolding connect
connect-Quiet works now fraction t f =
    if-Quiet t (is_engaged t.state) _ _ (λ busy. unfold sealed in (refl, λ x a. a))
      λ free.
        let u : Transport = record t { reconnect_timer = false; closed_by_us = false } in
        then-Quiet_at u (set_state State.connecting) (dial_socket works now fraction)
          (set_state-Quiet State.connecting u)
          (rw set_state_lem (
            dial-Quiet works now fraction (record u { state = State.connecting })
              (unheld-keys f free) (λ x a. unheld-Ahead t.send_counter x f free a)))

close_open-Quiet : (t : Transport) → Quiet t (close_open t)
unfolding close_open
close_open-Quiet t =
    if-Quiet t (is_open_or_dialling t.socket) _ _
      (λ goes.
        then-Quiet t (set_state State.closing) (hang_up 1000) (set_state-Quiet State.closing t)
          (hang_up-Quiet 1000))
      (λ gone. unfold sealed in (refl, λ x a. a))

teardown-Quiet : (t : Transport) → Quiet t (teardown t, [])
unfolding teardown sealed
teardown-Quiet t = (refl, λ x a. Ahead-of_new t.socket t.keys t.send_counter t.dialled x a)

shutting-Quiet :
    (t : Transport) → Quiet t ((close_open >> (λ v. (teardown v, [])) >> set_state State.closed) t)
shutting-Quiet t =
    then-Quiet t (close_open >> (λ v. (teardown v, []))) (set_state State.closed)
      (then-Quiet t close_open (λ v. (teardown v, [])) (close_open-Quiet t) teardown-Quiet)
      (set_state-Quiet State.closed)

pub close-Quiet : (t : Transport) → Quiet t (close t)
unfolding close
close-Quiet t = shutting-Quiet (record t {
  closed_by_us = true;
  auto_reconnect = false;
  reconnect_timer = false;
  heartbeat_timer = false;
  handshake_timer = false;
})
