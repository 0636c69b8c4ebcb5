-- ===== src/Transport/Handlers.antt =====
-- lib/transport.js: the events of a `SecureSocket`, one handler to each. A handler that waits and
-- then finds its socket replaced does nothing, so it is placed where it goes on; what arrives on one
-- socket is handled in order, through `_receiveChain`.
use vibed_st_muliplayer.Transport.Lifecycle.{on_close, connect, close, start_handshake}
use vibed_st_muliplayer.Transport.Messages.{Inbound, on_prepared, on_message}
use vibed_st_muliplayer.Base.{
  ℕ, suc, ◌-◌, Bool, false, ◌&&◌, Option, List, [], ◌∷◌, if◌then◌else◌, ltb, is_some,
}
use vibed_st_muliplayer.Relay.Handshake.{Ephemeral}
use vibed_st_muliplayer.Secrets.{Primitives}
use vibed_st_muliplayer.Transport.{
  State, Reason, Signal, Output, Act, ◌>>◌, emit, is, hang_up, is_current, is_up,
}
use vibed_st_muliplayer.Protocol.Limits

-- An event, with the clock and the random fraction (of 2 ^ 53) that its handler reads. `dials` is a
-- call of `connect`, with whether the constructor of WebSocket returns; `retries` is that of the
-- reconnect timer. `prepares` has no keys where drawing them throws. `seals` is the turn of a call of
-- `send` made for the socket, with whether there were keys then and whether the frame can be sealed;
-- `puts` is what is left of it when the budget and the socket's buffer have let the frame pass.
pub data Event : Type 0 where
  dials : Bool → ℕ → ℕ → Event
  retries : Bool → ℕ → ℕ → Event
  opens : ℕ → Event
  prepares : ℕ → Option Ephemeral → Event
  receives : ℕ → Inbound → ℕ → Event
  breaks : ℕ → Event
  closes : ℕ → ℕ → ℕ → ℕ → Event
  shuts : Event
  expires : Event
  beats : ℕ → Event
  seals : ℕ → Bool → Bool → Event
  puts : ℕ → ℕ → Event

-- The timer of `#startHandshake`.
unfoldable pub on_expiry : Act
unfolding hang_up
on_expiry t =
    if t.handshake_timer
    then (emit (Signal.rejected Reason.timeout) >> hang_up 4408)
        (record t { handshake_timer = false })
    else (t, [])

-- The timer of `#startHeartbeat`.
unfoldable pub on_beat : ℕ → Act
unfolding hang_up
on_beat now t =
    if t.heartbeat_timer && is t.state State.open_session
    then if ltb Limits.ping_timeout_ms (now - t.last_pong_at)
      then (emit Signal.error >> hang_up 4408) t
      else (t, Output.ping now ∷ [])
    else (t, [])

-- `send` in its turn: the counter is spent also where the frame cannot be sealed.
unfoldable pub on_seal : ℕ → Bool → Bool → Act
on_seal socket had_keys sealable t =
    if is t.state State.open_session && had_keys && is_some t.keys && is_current socket t.socket
    then (
      record t { send_counter = suc t.send_counter },
      if sealable
          then Output.seal socket (suc t.send_counter) ∷ []
          else Output.signal Signal.error ∷ [],
    )
    else (t, [])

unfoldable pub on_put : ℕ → ℕ → Act
on_put socket counter t = (
  t,
  if is_current socket t.socket && is_some t.keys && is_up t.socket
      then Output.send_frame socket counter ∷ []
      else [],
)

abbrev pub when_current : ℕ → Act → Act
when_current socket act t = if is_current socket t.socket then act t else (t, [])

module _ (p : Primitives) where
  -- One event.
  unfoldable pub step : Event → Act
  unfolding connect start_handshake on_prepared on_message on_close close on_expiry on_beat on_seal
      on_put
  step (Event.dials works now fraction) t = connect works now fraction t
  step (Event.retries works now fraction) t =
      if t.reconnect_timer then connect works now fraction t else (t, [])
  step (Event.opens s) t = when_current s (start_handshake t.socket) t
  step (Event.prepares s e) t = when_current s (on_prepared p t.socket e) t
  step (Event.receives s m now) t = when_current s (on_message p m now) t
  step (Event.breaks s) t = when_current s (emit Signal.transport_error) t
  step (Event.closes s code now fraction) t = when_current s (on_close code now fraction) t
  step Event.shuts t = close t
  step Event.expires t = on_expiry t
  step (Event.beats now) t = on_beat now t
  step (Event.seals s had_keys sealable) t = on_seal s had_keys sealable t
  step (Event.puts s counter) t = on_put s counter t

  unfoldable pub run : List Event → Act
  run [] t = (t, [])
  run (e ∷ es) t = (step e >> run es) t
