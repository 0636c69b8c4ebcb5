-- ===== src/Typing/Keepalive.antt =====
-- lib/typing.js: what this player's frames owe to the others.
use vibed_st_muliplayer.Base.{
  ℕ, ◌+◌, ◌-◌, ◌≤◌, ◌≡◌, refl, Bool, true, false, Option, none, some, List, [], ◌∷◌, arith, ltb,
  Bool-cases, inl, inr,
}
use vibed_st_muliplayer.Typing.{
  Indicators, silent, on_local_activity, on_idle, stop_typing, keep_typing, fires, reset,
}

-- What happens to the box of this player, at a time.
pub data Local : Type 0 where
  activity : Bool → Bool → ℕ → Local
  idle : ℕ → Local
  sent : ℕ → Local
  leaves : Local

unfoldable pub local_step : Local → Indicators → Indicators × List Bool
unfolding on_local_activity on_idle stop_typing reset
local_step (Local.activity live filled now) s = on_local_activity live filled now s
local_step (Local.idle now) s = on_idle now s
local_step (Local.sent now) s = stop_typing now s
local_step Local.leaves s = reset s

unfoldable pub local_run : List Local → Indicators → Indicators
unfolding local_step
local_run [] s = s
local_run (e ∷ es) s = local_run es (local_step e s).0

-- A player that counts as typing has the idle timer set, to within 5 seconds of the last frame.
abbrev IsDue : Bool → Option ℕ → ℕ → Type 0
IsDue false o t = Unit
IsDue true none t = ⊥
IsDue true (some at) t = at ≤ t + 5000

abbrev Due : Indicators → Type 0
Due s = IsDue s.typing s.idle_at s.last_sent_at

stop_typing-Due : (now : ℕ) (s : Indicators) → Due (stop_typing now s).0
unfolding stop_typing
stop_typing-Due now s = elim (Bool-cases s.typing) [
  | inl typing ↦ simp typing tt
  | inr not_typing ↦ simp not_typing tt
]

keep_typing-Due :
    (now : ℕ) (s : Indicators)
    → IsDue (keep_typing now s).0.typing (some (now + 3000)) (keep_typing now s).0.last_sent_at
unfolding keep_typing
keep_typing-Due now s = elim (Bool-cases s.typing) [
  | inl typing ↦ elim (Bool-cases (ltb 2000 (now - s.last_sent_at))) [
    | inl old ↦ simp typing (simp old (omega arith))
    | inr recent ↦ simp typing (simp recent (ground arith))
  ]
  | inr not_typing ↦ simp not_typing (omega arith)
]

activity-Due :
    (live filled : Bool) (now : ℕ) (s : Indicators)
    → Due s
    → Due (on_local_activity live filled now s).0
unfolding on_local_activity
activity-Due false filled now s d = d
activity-Due true false now s d = stop_typing-Due now s
activity-Due true true now s d = keep_typing-Due now s

on_idle-Due : (now : ℕ) (s : Indicators) → Due s → Due (on_idle now s).0
unfolding on_idle
on_idle-Due now s d = elim (Bool-cases (fires s.idle_at now)) [
  | inl due ↦ simp due (stop_typing-Due now s)
  | inr early ↦ simp early d
]

local_step-Due : (e : Local) (s : Indicators) → Due s → Due (local_step e s).0
unfolding local_step reset
local_step-Due (Local.activity live filled now) s d = activity-Due live filled now s d
local_step-Due (Local.idle now) s d = on_idle-Due now s d
local_step-Due (Local.sent now) s d = stop_typing-Due now s
local_step-Due Local.leaves s d = tt

local_run-Due : (es : List Local) (s : Indicators) → Due s → Due (local_run es s)
unfolding local_run
local_run-Due [] s d = d
local_run-Due (e ∷ es) s d = local_run-Due es (local_step e s).0 (local_step-Due e s d)

due-at :
    (b : Bool) (o : Option ℕ) (t : ℕ)
    → IsDue b o t
    → b ≡ true
    → (at : ℕ) × (o ≡ some at) × (at ≤ t + 5000)
due-at false o t d e = cc
due-at true none t d e = absurd d
due-at true (some at) t d e = (at, refl, d)

on_idle-stops :
    (at : ℕ) (s : Indicators)
    → s.idle_at ≡ some at
    → s.typing ≡ true
    → (on_idle at s).1 ≡ false ∷ []
unfolding on_idle stop_typing fires
on_idle-stops at s set typing = ground arith

-- Whatever this player does: while it counts as typing for the others, its idle timer is set to a
-- time at most 5 seconds after the last frame that it sent, and sends the stop when it fires.
pub typing_stops :
    (es : List Local)
    → (local_run es silent).typing ≡ true
    → (at : ℕ) × ((local_run es silent).idle_at ≡ some at)
      × (at ≤ (local_run es silent).last_sent_at + 5000)
      × ((on_idle at (local_run es silent)).1 ≡ false ∷ [])
typing_stops es typing =
    let s = local_run es silent in
    let (at, set, soon) =
      due-at s.typing s.idle_at s.last_sent_at (local_run-Due es silent tt) typing in
    (at, set, soon, on_idle-stops at s set typing)
