-- ===== src/Transport/Fits.antt =====
-- lib/transport.js: what a `SecureSocket` holds in each of its states.
use vibed_st_muliplayer.Base.{
  if◌then◌else◌, List, refl, suc, Bool, ap, ℕ, ◌≡◌, true, false, Option, none, some, arith,
  Bool-cases, inl, inr,
}
use vibed_st_muliplayer.Relay.Handshake.{Ephemeral}
use vibed_st_muliplayer.Secrets.{Keys, Derived}
use vibed_st_muliplayer.Transport.{
  Output, State, Socket, Ready, Transport, is, set_state, going_socket,
}
use vibed_st_muliplayer.Transport.Lifecycle.{is_engaged, is_dialling}

abbrev IsConnected : Ready → Type 0
IsConnected Ready.dialling = ⊥
IsConnected _ = Unit

-- What a `SecureSocket` holds in each state: the socket, the keys, what `#startHandshake` and
-- `#handleChallenge` leave pending, and how many sockets there were.
pub data Fits
    : State → Option Socket → Option Keys → Option Ephemeral → Option Derived → ℕ → Type 0 where
  unused : {n : ℕ} → Fits State.idle none none none none n
  ended : {n : ℕ} → Fits State.closed none none none none n
  dialled :
      {k : Socket} {n : ℕ}
      → k.id ≡ n
      → k.preparing ≡ false
      → Fits State.connecting (some k) none none none n
  drawing :
      {k : Socket} {n : ℕ}
      → k.id ≡ n
      → IsConnected k.ready
      → Fits State.handshaking (some k) none none none n
  greeted :
      {k : Socket} {e : Ephemeral} {d : Option Derived} {n : ℕ}
      → k.id ≡ n
      → IsConnected k.ready
      → k.preparing ≡ false
      → Fits State.handshaking (some k) none (some e) d n
  live :
      {k : Socket} {x : Keys} {n : ℕ}
      → k.id ≡ n
      → IsConnected k.ready
      → k.preparing ≡ false
      → Fits State.open_session (some k) (some x) none none n

abbrev pub IsFit : Transport → Type 0
IsFit t = Fits t.state t.socket t.keys t.pending t.pending_keys t.dialled

number_injective : (a b : State) → is a b ≡ true → a ≡ b
number_injective State.idle b h = ground arith
number_injective State.connecting b h = ground arith
number_injective State.handshaking b h = ground arith
number_injective State.open_session b h = ground arith
number_injective State.closing b h = ground arith
number_injective State.closed b h = ground arith

pub set_state_lem : (s : State) (t : Transport) → (set_state s t).0 ≡ record t { state = s }
unfolding set_state
set_state_lem s t = elim (Bool-cases (is t.state s)) [
  | inl same ↦
      rw same (ap (λ (x : State). record t { state = x }) (number_injective t.state s same))
  | inr other ↦ rw other
]

dialling-or_connected :
    {A : Type 0} (r : Ready) (b : Bool)
    → IsConnected r
    → b ≡ (elim r [ Ready.dialling ↦ true | _ ↦ false ])
    → b ≡ true
    → A
dialling-or_connected Ready.dialling b c e h = absurd c
dialling-or_connected Ready.up b c e h = cc
dialling-or_connected Ready.going b c e h = cc

not-dialling : {A : Type 0} (k : Socket) → IsConnected k.ready → is_dialling k ≡ true → A
not-dialling k c h = dialling-or_connected k.ready (is_dialling k) c refl h

-- Both branches fit.
pub if-IsFit :
    (b : Bool) (x y : Transport × List Output)
    → (b ≡ true → IsFit x.0)
    → (b ≡ false → IsFit y.0)
    → IsFit (if b then x else y).0
if-IsFit true x y f g = f refl
if-IsFit false x y f g = g refl

-- A socket that is closing fits wherever it fitted.
pub going-Fits :
    {st : State} {so : Option Socket} {ke : Option Keys} {pe : Option Ephemeral}
    {pk : Option Derived} {n : ℕ}
    → Fits st so ke pe pk n
    → Fits st (going_socket so) ke pe pk n
going-Fits unused = unused
going-Fits ended = ended
going-Fits (dialled i q) = dialled i q
going-Fits (drawing i c) = drawing i tt
going-Fits (greeted i c q) = greeted i tt q
going-Fits (live i c q) = live i tt q

pub connected-Fits :
    {st : State} {ke : Option Keys} {pe : Option Ephemeral} {pk : Option Derived} {n : ℕ}
    (k : Socket)
    → Fits st (some k) ke pe pk n
    → is_dialling k ≡ true
    → Fits State.handshaking (some (record k { ready = Ready.up; preparing = true })) ke pe pk n
connected-Fits k (dialled i q) h = drawing i tt
connected-Fits k (drawing i c) h = not-dialling k c h
connected-Fits k (greeted i c q) h = not-dialling k c h
connected-Fits k (live i c q) h = not-dialling k c h

-- The key pair is drawn for a socket that waits for it.
pub drawn-Fits :
    {st : State} {ke : Option Keys} {pe : Option Ephemeral} {pk : Option Derived} {n : ℕ}
    (k : Socket) (e : Ephemeral)
    → Fits st (some k) ke pe pk n
    → k.preparing ≡ true
    → Fits st (some (record k { preparing = false })) ke (some e) pk n
      × Fits st (some (record k { preparing = false })) ke pe pk n
drawn-Fits k e (dialled i q) h = cc
drawn-Fits k e (drawing i c) h = (greeted i c refl, drawing i c)
drawn-Fits k e (greeted i c q) h = cc
drawn-Fits k e (live i c q) h = cc

pub challenged-Fits :
    {st : State} {so : Option Socket} {ke : Option Keys} {pe : Option Ephemeral}
    {pk : Option Derived} {n : ℕ} (e : Ephemeral) (d : Derived)
    → Fits st so ke pe pk n
    → pe ≡ some e
    → Fits st so ke pe (some d) n
challenged-Fits e d unused h = cc
challenged-Fits e d ended h = cc
challenged-Fits e d (dialled i q) h = cc
challenged-Fits e d (drawing i c) h = cc
challenged-Fits e d (greeted i c q) h = greeted i c q
challenged-Fits e d (live i c q) h = cc

pub accepted-Fits :
    {st : State} {so : Option Socket} {ke : Option Keys} {pe : Option Ephemeral}
    {pk : Option Derived} {n : ℕ} (d : Derived) (x : Keys)
    → Fits st so ke pe pk n
    → pk ≡ some d
    → Fits State.open_session so (some x) none none n
accepted-Fits d x unused h = cc
accepted-Fits d x ended h = cc
accepted-Fits d x (dialled i q) h = cc
accepted-Fits d x (drawing i c) h = cc
accepted-Fits d x (greeted i c q) h = live i c q
accepted-Fits d x (live i c q) h = cc

-- The state in which a socket may be dialled holds nothing.
pub idle-Fits :
    {st : State} {so : Option Socket} {ke : Option Keys} {pe : Option Ephemeral}
    {pk : Option Derived} {n : ℕ}
    → Fits st so ke pe pk n
    → is_engaged st ≡ false
    → Fits State.connecting
        (some (record { id = suc n; ready = Ready.dialling; preparing = false }))
        ke
        pe
        pk
        (suc n)
idle-Fits unused h = dialled refl refl
idle-Fits ended h = dialled refl refl
idle-Fits (dialled i q) h = cc
idle-Fits (drawing i c) h = cc
idle-Fits (greeted i c q) h = cc
idle-Fits (live i c q) h = cc
