-- ===== src/Transport.antt =====
-- lib/transport.js: the state of `SecureSocket`, what it does outside itself, and the pieces that its
-- handlers share. Transport/Lifecycle, Messages and Handlers have the handlers.
pub mod Lifecycle
pub mod Messages
pub mod Handlers
pub mod Fits
pub mod Invariant
pub mod Sealing
pub mod Quiet
pub mod Nonces
pub mod Backoff
pub mod Meeting
use vibed_st_muliplayer.Base.{
  ℕ, String, Bool, true, false, Option, none, some, List, [], ◌∷◌, ◌++◌, if◌then◌else◌, ◌==◌,
}
use vibed_st_muliplayer.Base.Int.{ℤ}
use vibed_st_muliplayer.Relay.State.{Bytes}
use vibed_st_muliplayer.Relay.Handshake.{Ephemeral}
use vibed_st_muliplayer.Replay.{Window}
use vibed_st_muliplayer.Secrets.{Keys, Derived}

-- `STATE`
pub data State : Type 0 where
  idle connecting handshaking open_session closing closed : State

-- `REJECT_REASON`
pub data Reason : Type 0 where
  bad_revision unknown_room bad_mac rate_limited room_full banned : Reason
  timeout malformed parity_mismatch server_closing : Reason

-- `readyState` of a WebSocket, of those that the code tells apart.
pub data Ready : Type 0 where
  dialling up going : Ready

-- A WebSocket. The number tells one object from another; `preparing` is true while `#startHandshake`
-- waits for the key pair that it draws for this socket.
pub record Socket : Type 0 where
  pub id : ℕ
  pub ready : Ready
  pub preparing : Bool

pub record Transport : Type 0 where
  pub psk : Bytes
  pub host_token : Option Bytes
  pub auto_reconnect : Bool
  pub state : State
  pub rtt : Option ℤ
  pub socket : Option Socket
  pub keys : Option Keys
  pub send_counter : ℕ
  pub replay : Window
  pub attempts : ℕ
  pub failed_dials : ℕ
  pub ever_opened : Bool
  pub closed_by_us : Bool
  pub last_pong_at : ℕ
  pub opened_at : Option ℕ
  pub pending : Option Ephemeral
  pub pending_keys : Option Derived
  pub reconnect_timer : Bool
  pub heartbeat_timer : Bool
  pub handshake_timer : Bool
  -- How many sockets were made so far.
  pub dialled : ℕ

-- The `detail` of the event `close`.
pub record Closing : Type 0 where
  pub code : ℕ
  pub was_open : Bool
  pub reached_handshake : Bool
  pub failed_dials : ℕ
  pub ever_opened : Bool
  pub will_reconnect : Bool

-- What the listeners are told.
pub data Signal : Type 0 where
  changed : State → Signal
  error : Signal
  transport_error : Signal
  rejected : Reason → Signal
  opened : Signal
  message : String → Signal
  closes : Closing → Signal
  reconnect_scheduled : ℕ → ℕ → Signal

pub data Text : Type 0 where
  hello : Bytes → Bytes → Bytes → Option Bytes → Text
  confirm : Bytes → Text

-- What is done outside: events, socket calls, and `seal`, the encryption of a frame for the socket
-- under the counter. `ping` is a call of `send`.
pub data Output : Type 0 where
  signal : Signal → Output
  dial : ℕ → Output
  send_text : Text → Output
  seal : ℕ → ℕ → Output
  send_frame : ℕ → ℕ → Output
  ping : ℕ → Output
  close_socket : ℕ → Output

abbrev pub Act : Type 0
Act = Transport → Transport × List Output

infixl 5 ◌>>◌
abbrev pub ◌>>◌ : Act → Act → Act
◌>>◌ f g t = ((g (f t).0).0, (f t).1 ++ (g (f t).0).1)

abbrev pub nothing : Act
nothing t = (t, [])

abbrev pub emit : Signal → Act
emit s t = (t, Output.signal s ∷ [])

abbrev pub number : State → ℕ
number State.idle = 0
number State.connecting = 1
number State.handshaking = 2
number State.open_session = 3
number State.closing = 4
number State.closed = 5

abbrev pub is : State → State → Bool
is a b = number a == number b

-- `#setState`
unfoldable pub set_state : State → Act
set_state s t =
    if is t.state s
    then (t, [])
    else (record t { state = s }, Output.signal (Signal.changed s) ∷ [])

-- `this.socket?.close(code)`
abbrev pub going_socket : Option Socket → Option Socket
going_socket none = none
going_socket (some s) = some (record s { ready = Ready.going })

abbrev pub close_call : ℕ → Option Socket → List Output
close_call code none = []
close_call code (some s) = Output.close_socket code ∷ []

unfoldable pub hang_up : ℕ → Act
hang_up code t = (record t { socket = going_socket t.socket }, close_call code t.socket)

-- `#teardown`
unfoldable pub teardown : Transport → Transport
teardown t = record t {
  heartbeat_timer = false;
  handshake_timer = false;
  keys = none;
  pending = none;
  pending_keys = none;
  socket = none;
  opened_at = none;
}

-- `this.socket === socket`
abbrev pub is_current : ℕ → Option Socket → Bool
is_current n none = false
is_current n (some s) = s.id == n

-- `readyState === WebSocket.OPEN`
abbrev pub is_up : Option Socket → Bool
is_up (some s) = elim s.ready [ Ready.up ↦ true | _ ↦ false ]
is_up none = false

-- `#sendJson`
unfoldable pub send_json : Text → Act
send_json text t = (t, if is_up t.socket then Output.send_text text ∷ [] else [])
