-- ===== src/Transport/Backoff.antt =====
-- lib/transport.js: what the listeners of `close` are told about the next attempt, and what the relay's
-- rejections come to.
use vibed_st_muliplayer.Base.{◌⊎◌, inl, inr, Bool-cases, false}
use vibed_st_muliplayer.Transport.Fits.{set_state_lem}
use vibed_st_muliplayer.Base.{refl, ap, ◌∙◌, Option, none, some}
use vibed_st_muliplayer.Transport.Lifecycle.{attempts_after, wind_up}
use mathlib.Core.List.{append_assoc}
use vibed_st_muliplayer.Base.{ltb}
use vibed_st_muliplayer.Transport.Lifecycle.{is_final_code, on_close}
use vibed_st_muliplayer.Base.{◌≡◌, inl, inr, ◌++◌, Bool-cases, length, All}
use native.Mathlib.Nat.{pow-suc}
use vibed_st_muliplayer.Base.{
  zero, ℕ, suc, ◌+◌, ◌*◌, ◌%◌, ◌^◌, ◌≤◌, ◌<◌, Bool, true, false, List, [], ◌∷◌, arith, min,
}
use vibed_st_muliplayer.Transport.{is, set_state, State, Transport, Signal, Output}
use vibed_st_muliplayer.Transport.Lifecycle.{reschedule, report_closed, ceiling_of, drawn}

-- What `close` tells of the next attempt, each time.
unfoldable pub announced : List Output → List Bool
announced [] = []
announced (Output.signal (Signal.closes c) ∷ os) = c.will_reconnect ∷ announced os
announced (_ ∷ os) = announced os

-- The delays of the attempts that are scheduled.
unfoldable pub delays : List Output → List ℕ
delays [] = []
delays (Output.signal (Signal.reconnect_scheduled attempt delay) ∷ os) = delay ∷ delays os
delays (_ ∷ os) = delays os

abbrev pub count_if : Bool → ℕ
count_if true = 1
count_if false = 0

-- A share of the ceiling lies below it.
below_share : (f c m : ℕ) → f < m → 0 < c → f * c < m * c
below_share f c m h k = grind arith

drawn-lt : (fraction c : ℕ) → 0 < c → drawn fraction c < c
drawn-lt fraction c h =
    omega (arith, below_share (fraction % 9007199254740992) c 9007199254740992 (omega arith) h)

pow_two_pos : (n : ℕ) → 0 < 2 ^ n
pow_two_pos zero = omega arith
pow_two_pos (suc n) = omega (arith, pow_two_pos n, pow-suc 2 n)

ceiling-pos : (n : ℕ) → 0 < ceiling_of n
ceiling-pos n = omega (arith, pow_two_pos (min n 6))

delay-bounds :
    (fraction n : ℕ)
    → (500 ≤ 500 + drawn fraction (ceiling_of n)) × (500 + drawn fraction (ceiling_of n) < 30500)
delay-bounds fraction n = omega (arith, drawn-lt fraction (ceiling_of n) (ceiling-pos n))

abbrev pub IsDelay : ℕ → Type 0
IsDelay d = (500 ≤ d) × (d < 30500)

-- The listeners were told the truth: an attempt is scheduled if it was announced, and one at most.
abbrev pub IsHonest : List Output → Type 0
IsHonest os =
    (announced os ≡ ltb 0 (length (delays os)) ∷ [])
    × All IsDelay (delays os)
    × (length (delays os) ≤ 1)

-- The tail of `#onClose`, once the state is CLOSED.
told-IsHonest :
    (code fraction : ℕ) (before : State) (t : Transport)
    → IsHonest ((report_closed code before t).1 ++ (reschedule fraction t).1)
unfolding report_closed reschedule announced delays
told-IsHonest code fraction before t = ground (arith, delay-bounds fraction (suc t.attempts))

set_state-silent :
    (s : State) (t : Transport) (os : List Output)
    → IsHonest os
    → IsHonest ((set_state s t).1 ++ os)
unfolding set_state announced delays
set_state-silent s t os h = elim (Bool-cases (is t.state s)) [
  | inl same ↦ rw same h
  | inr other ↦ rw other h
]

reschedule-attempts :
    (fraction : ℕ) (t : Transport) → t.attempts ≤ 8 → (reschedule fraction t).0.attempts ≤ 8
unfolding reschedule
reschedule-attempts fraction t h = ground arith

reschedule-auto :
    (fraction : ℕ) (t : Transport)
    → t.auto_reconnect ≡ false
    → length (delays (reschedule fraction t).1) ≡ 0
unfolding reschedule delays
reschedule-auto fraction t h = ground arith

set_state-delays :
    (s : State) (t : Transport) (os : List Output) → delays ((set_state s t).1 ++ os) ≡ delays os
unfolding set_state delays
set_state-delays s t os = elim (Bool-cases (is t.state s)) [
  | inl same ↦ rw same
  | inr other ↦ rw other
]

attempts_after-le : (at : Option ℕ) (now n : ℕ) → n ≤ 8 → attempts_after at now n ≤ 8
attempts_after-le none now n h = h
attempts_after-le (some at) now n h = ground arith

wind_up-attempts :
    (code now : ℕ) (t : Transport) → t.attempts ≤ 8 → (wind_up code now t).attempts ≤ 8
unfolding wind_up
wind_up-attempts code now t h = attempts_after-le t.opened_at now t.attempts h

pub wind_up-auto :
    (code now : ℕ) (t : Transport)
    → is_final_code code ≡ true
    → (wind_up code now t).auto_reconnect ≡ false
unfolding wind_up
wind_up-auto code now t h = rw h refl

pub on_close-IsHonest :
    (code now fraction : ℕ) (t : Transport)
    → t.attempts ≤ 8
    → IsHonest (on_close code now fraction t).1
      × ((on_close code now fraction t).0.attempts ≤ 8)
      × ((is_final_code code ≡ false) ⊎ (length (delays (on_close code now fraction t).1) ≡ 0))
unfolding on_close
on_close-IsHonest code now fraction t h =
    let u = (set_state State.closed (wind_up code now t)).0 in
    rw append_assoc (
      set_state-silent State.closed (wind_up code now t) _ (told-IsHonest code fraction t.state u),
      reschedule-attempts fraction u (rw set_state_lem (wind_up-attempts code now t h)),
      elim (Bool-cases (is_final_code code)) [
        | inr other ↦ inl other
        | inl final ↦ inr (
            ap length (set_state-delays State.closed (wind_up code now t) _)
            ∙ (unfold delays report_closed in
                reschedule-auto fraction u (rw set_state_lem (wind_up-auto code now t final))))
      ],
    )
