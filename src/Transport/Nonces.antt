-- ===== src/Transport/Nonces.antt =====
-- lib/transport.js: `send` and the counter, by which no key seals two frames under one nonce.
use vibed_st_muliplayer.Transport.Fits.{dialled}
use vibed_st_muliplayer.Base.{
  All-map, ==_iff, sym, is_some, ◌&&◌, inr, suc, if◌then◌else◌, ℕ, ◌≡◌, ◌⊎◌, inl, refl, Bool, true,
  false, Option, none, some, List, [], ◌∷◌, ◌++◌, All, arith,
}
use vibed_st_muliplayer.Relay.Handshake.{Ephemeral}
use vibed_st_muliplayer.Relay.State.{Bytes}
use vibed_st_muliplayer.Secrets.{Primitives, Derived, Keys}
use vibed_st_muliplayer.Transport.{Signal, emit, is_current, is, State, Socket, Transport, Output}
use vibed_st_muliplayer.Transport.Invariant.{step-IsFit, new-IsFit}
use vibed_st_muliplayer.Transport.Fits.{Fits, IsFit, unused, ended, drawing, greeted, live}
use vibed_st_muliplayer.Transport.Lifecycle.{new_transport, start_handshake, on_close}
use vibed_st_muliplayer.Transport.Handlers.{on_seal, Event, step, run}
use vibed_st_muliplayer.Transport.Messages.{on_message, on_prepared}
use vibed_st_muliplayer.Transport.Sealing.{
  sealed, Later, Ascends, Ahead, IsAhead, Quiet, if-Quiet, sealed-append,
}
use vibed_st_muliplayer.Transport.Quiet.Closing.{connect-Quiet, on_close-Quiet, close-Quiet}
use vibed_st_muliplayer.Transport.Quiet.{
  when_current-Quiet, on_expiry-Quiet, on_beat-Quiet, on_put-Quiet,
}
use vibed_st_muliplayer.Transport.Quiet.Messages.{
  start_handshake-Quiet, on_prepared-Quiet, on_message-Quiet, emit-Quiet,
}

-- One frame is sealed, and all that may be sealed afterwards is later.
abbrev Sealing : Transport → Transport × List Output → Type 0
Sealing t out =
    (y : ℕ × ℕ) × (sealed out.1 ≡ y ∷ [])
    × IsAhead t y
    × ((x : ℕ × ℕ) → IsAhead out.0 x → Later y x × IsAhead t x)

abbrev Moves : Transport → Transport × List Output → Type 0
Moves t out = Quiet t out ⊎ Sealing t out

sealing-Later :
    (so : Option Socket) (ke : Option Keys) (s c n : ℕ)
    → is_some ke ≡ true
    → is_current s so ≡ true
    → ((k : Socket) → so ≡ some k → k.id ≡ n)
    → Ahead so ke c n (s, suc c)
      × ((x : ℕ × ℕ) → Ahead so ke (suc c) n x → Later (s, suc c) x × Ahead so ke c n x)
sealing-Later none ke s c n h i f = cc
sealing-Later (some k) none s c n h i f = cc
sealing-Later (some k) (some y) s c n h i f =
    let e : s ≡ n = omega (arith, f k refl, (==_iff k.id s).0 i) in
    (inr (sym e, omega arith), λ x a. ground arith)

if-Moves :
    (t : Transport) (b : Bool) (x y : Transport × List Output)
    → (b ≡ true → Moves t x)
    → (b ≡ false → Moves t y)
    → Moves t (if b then x else y)
if-Moves t true x y f g = f refl
if-Moves t false x y f g = g refl

Fits-id :
    {st : State} {so : Option Socket} {ke : Option Keys} {pe : Option Ephemeral}
    {pk : Option Derived} {n : ℕ} (k : Socket)
    → Fits st so ke pe pk n
    → so ≡ some k
    → k.id ≡ n
Fits-id k unused h = cc
Fits-id k ended h = cc
Fits-id k (dialled i q) h = cc
Fits-id k (drawing i r) h = cc
Fits-id k (greeted i r q) h = cc
Fits-id k (live i r q) h = cc

may_seal : (a b c d : Bool) → (a && b && c && d) ≡ true → (c ≡ true) × (d ≡ true)
may_seal a b c d h = ground arith

-- The counter is spent, and the frame is sealed if it can be.
spent : ℕ → Bool → Transport → Transport × List Output
spent s sealable t = (
  record t { send_counter = suc t.send_counter },
  if sealable then Output.seal s (suc t.send_counter) ∷ [] else Output.signal Signal.error ∷ [],
)

spent-Moves :
    (s : ℕ) (sealable : Bool) (t : Transport)
    → IsFit t
    → is_some t.keys ≡ true
    → is_current s t.socket ≡ true
    → Moves t (spent s sealable t)
unfolding spent sealed
spent-Moves s true t f keyed current =
    let later =
      sealing-Later t.socket t.keys s t.send_counter t.dialled keyed current
        (λ k e. Fits-id k f e) in
    inr ((s, suc t.send_counter), refl, later.0, later.1)
spent-Moves s false t f keyed current =
    let later =
      sealing-Later t.socket t.keys s t.send_counter t.dialled keyed current
        (λ k e. Fits-id k f e) in
    inl (refl, λ x a. (later.1 x a).1)

on_seal-Moves :
    (s : ℕ) (had_keys sealable : Bool) (t : Transport)
    → IsFit t
    → Moves t (on_seal s had_keys sealable t)
unfolding on_seal sealed spent
on_seal-Moves s had_keys sealable t f =
    if-Moves t
      (is t.state State.open_session && had_keys && is_some t.keys && is_current s t.socket) _ _
      (λ goes.
        let may =
          may_seal (is t.state State.open_session) had_keys (is_some t.keys) (is_current s t.socket)
            goes in
        spent-Moves s sealable t f may.0 may.1)
      (λ other. inl (refl, λ x a. a))

step-Moves : (p : Primitives) (e : Event) (t : Transport) → IsFit t → Moves t (step p e t)
unfolding step sealed
step-Moves p (Event.dials works now fraction) t f = inl (connect-Quiet works now fraction t f)
step-Moves p (Event.retries works now fraction) t f = inl (
    if-Quiet t t.reconnect_timer _ _ (λ set. connect-Quiet works now fraction t f)
      (λ clear. (refl, λ x a. a)))
step-Moves p (Event.opens s) t f =
    inl
      (when_current-Quiet s t (start_handshake t.socket t) (start_handshake-Quiet t.socket t refl))
step-Moves p (Event.prepares s e) t f =
    inl
      (when_current-Quiet s t (on_prepared p t.socket e t) (on_prepared-Quiet p t.socket e t refl))
step-Moves p (Event.receives s m now) t f =
    inl (when_current-Quiet s t (on_message p m now t) (on_message-Quiet p m now t f))
step-Moves p (Event.breaks s) t f =
    inl
      (when_current-Quiet s t (emit Signal.transport_error t) (emit-Quiet Signal.transport_error t))
step-Moves p (Event.closes s code now fraction) t f =
    inl (when_current-Quiet s t (on_close code now fraction t) (on_close-Quiet code now fraction t))
step-Moves p Event.shuts t f = inl (close-Quiet t)
step-Moves p Event.expires t f = inl (on_expiry-Quiet t)
step-Moves p (Event.beats now) t f = inl (on_beat-Quiet now t)
step-Moves p (Event.seals s had_keys sealable) t f = on_seal-Moves s had_keys sealable t f
step-Moves p (Event.puts s counter) t f = inl (on_put-Quiet s counter t)

-- A run goes on from a step.
Ascends-after :
    (t : Transport) (out rest : Transport × List Output)
    → Moves t out
    → All (IsAhead out.0) (sealed rest.1) × Ascends (sealed rest.1)
    → All (IsAhead t) (sealed (out.1 ++ rest.1)) × Ascends (sealed (out.1 ++ rest.1))
Ascends-after t out rest (inl quiet) r =
    rw (sealed-append, quiet.0)
      (All-map (IsAhead out.0) (IsAhead t) (sealed rest.1) quiet.1 r.0, r.1)
Ascends-after t out rest (inr (y, e, ahead, later)) r =
    rw (sealed-append, e)
      (
        (ahead, All-map (IsAhead out.0) (IsAhead t) (sealed rest.1) (λ x a. (later x a).1) r.0),
        (All-map (IsAhead out.0) (Later y) (sealed rest.1) (λ x a. (later x a).0) r.0, r.1),
      )

run-Ascends :
    (p : Primitives) (es : List Event) (t : Transport)
    → IsFit t
    → All (IsAhead t) (sealed (run p es t).1) × Ascends (sealed (run p es t).1)
unfolding run sealed
run-Ascends p [] t f = (tt, tt)
run-Ascends p (e ∷ es) t f =
    Ascends-after t (step p e t) (run p es (step p e t).0) (step-Moves p e t f)
      (run-Ascends p es (step p e t).0 (step-IsFit p e t f))

-- Whatever the server, the user and the timers do to a new socket object: the frames that it seals
-- carry ascending pairs of a WebSocket and a counter, so that no counter is used twice with the keys
-- of one WebSocket, reconnections and failed sends included.
pub counters_ascend :
    (p : Primitives) (psk : Bytes) (token : Option Bytes) (auto : Bool) (es : List Event)
    → Ascends (sealed (run p es (new_transport psk token auto)).1)
counters_ascend p psk token auto es =
    (run-Ascends p es (new_transport psk token auto) (new-IsFit psk token auto)).1
