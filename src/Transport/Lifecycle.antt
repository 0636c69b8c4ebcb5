-- ===== src/Transport/Lifecycle.antt =====
-- lib/transport.js: `SecureSocket.connect`, `close`, `#onClose` with the back-off, and the start of a
-- handshake.
use vibed_st_muliplayer.Base.{
  ℕ, suc, ◌+◌, ◌-◌, ◌*◌, ◌/◌, ◌%◌, ◌^◌, min, Bool, true, false, not, ◌&&◌, ◌||◌, Option, none, some,
  [], ◌∷◌, if◌then◌else◌, leb, ltb, ◌==◌,
}
use vibed_st_muliplayer.Relay.State.{Bytes}
use vibed_st_muliplayer.Replay.{fresh}
use vibed_st_muliplayer.Transport.{
  State, Ready, Socket, Transport, Signal, Output, Act, ◌>>◌, emit, is, set_state, hang_up,
  teardown,
}

abbrev pub is_final_code : ℕ → Bool
is_final_code code = code == 4400 || code == 4401 || code == 4403

-- `Math.floor(Math.random() * ceiling)`
abbrev pub drawn : ℕ → ℕ → ℕ
drawn fraction ceiling = fraction % 2 ^ 53 * ceiling / 2 ^ 53

-- The ceiling of the back-off.
abbrev pub ceiling_of : ℕ → ℕ
ceiling_of attempts = min 30000 (500 * 2 ^ min attempts 6)

-- `if (this.openedAt && …) this.attempts = 0`
abbrev pub attempts_after : Option ℕ → ℕ → ℕ → ℕ
attempts_after none now attempts = attempts
attempts_after (some at) now attempts = if leb 60000 (now - at) then 0 else attempts

-- The end of `#onClose`: the next attempt.
unfoldable pub reschedule : ℕ → Act
reschedule fraction t =
    if t.closed_by_us || not t.auto_reconnect
    then (t, [])
    else if leb 8 t.attempts
    then (record t { auto_reconnect = false }, Output.signal Signal.error ∷ [])
    else (
      record t { attempts = suc t.attempts; reconnect_timer = true },
      Output.signal (
            Signal.reconnect_scheduled (suc t.attempts)
              (500 + drawn fraction (ceiling_of (suc t.attempts))))
          ∷ [],
    )

-- The middle of `#onClose`: the state is CLOSED, and listeners hear of it.
unfoldable pub report_closed : ℕ → State → Act
report_closed code before t = (
  t,
  Output.signal (
        Signal.closes (record {
          code = code;
          was_open = is before State.open_session;
          reached_handshake = is before State.handshaking;
          failed_dials = t.failed_dials;
          ever_opened = t.ever_opened;
          will_reconnect = not t.closed_by_us && t.auto_reconnect && ltb t.attempts 8;
        }))
      ∷ [],
)

-- The head of `#onClose`.
unfoldable pub wind_up : ℕ → ℕ → Transport → Transport
unfolding teardown
wind_up code now t = teardown (record t {
  auto_reconnect = if is_final_code code then false else t.auto_reconnect;
  attempts = attempts_after t.opened_at now t.attempts;
  failed_dials = if is t.state State.open_session then t.failed_dials else suc t.failed_dials;
})

-- `#onClose`
unfoldable pub on_close : ℕ → ℕ → ℕ → Act
unfolding wind_up report_closed
on_close code now fraction t =
    (set_state State.closed >> report_closed code t.state >> reschedule fraction)
      (wind_up code now t)

-- `connect`, once the state is CONNECTING.
unfoldable pub dial_socket : Bool → ℕ → ℕ → Act
dial_socket true now fraction t = (
  record t {
    socket = some (record { id = suc t.dialled; ready = Ready.dialling; preparing = false });
    dialled = suc t.dialled;
  },
  Output.dial (suc t.dialled) ∷ [],
)
dial_socket false now fraction t =
    (emit Signal.error >> on_close 1006 now fraction) (record t { auto_reconnect = false })

abbrev pub is_engaged : State → Bool
is_engaged s = is s State.connecting || is s State.handshaking || is s State.open_session

-- `connect`
unfoldable pub connect : Bool → ℕ → ℕ → Act
unfolding dial_socket
connect works now fraction t =
    if is_engaged t.state
    then (t, [])
    else (set_state State.connecting >> dial_socket works now fraction)
        (record t { reconnect_timer = false; closed_by_us = false })

-- The socket that a call of `close` closes: one that is not closing yet.
abbrev pub is_open_or_dialling : Option Socket → Bool
is_open_or_dialling none = false
is_open_or_dialling (some s) = elim s.ready [ Ready.going ↦ false | _ ↦ true ]

unfoldable pub close_open : Act
unfolding hang_up
close_open t =
    if is_open_or_dialling t.socket then (set_state State.closing >> hang_up 1000) t else (t, [])

-- `close`
unfoldable pub close : Act
unfolding teardown
close t = (close_open >> (λ u. (teardown u, [])) >> set_state State.closed) (record t {
  closed_by_us = true;
  auto_reconnect = false;
  reconnect_timer = false;
  heartbeat_timer = false;
  handshake_timer = false;
})

-- `#startHandshake`, until it waits: the browser calls it once for a socket, when it is connected.
abbrev pub is_dialling : Socket → Bool
is_dialling s = elim s.ready [ Ready.dialling ↦ true | _ ↦ false ]

unfoldable pub start_handshake : Option Socket → Act
start_handshake none t = (t, [])
start_handshake (some s) t =
    if is_dialling s
    then set_state State.handshaking (record t {
      socket = some (record s { ready = Ready.up; preparing = true });
      handshake_timer = true;
    })
    else (t, [])

-- The constructor.
unfoldable pub new_transport : Bytes → Option Bytes → Bool → Transport
new_transport psk host_token auto_reconnect = record {
  psk = psk;
  host_token = host_token;
  auto_reconnect = auto_reconnect;
  state = State.idle;
  rtt = none;
  socket = none;
  keys = none;
  send_counter = 0;
  replay = fresh;
  attempts = 0;
  failed_dials = 0;
  ever_opened = false;
  closed_by_us = false;
  last_pong_at = 0;
  opened_at = none;
  pending = none;
  pending_keys = none;
  reconnect_timer = false;
  heartbeat_timer = false;
  handshake_timer = false;
  dialled = 0;
}
