-- ===== src/Typing/Expiry.antt =====
-- lib/typing.js: no indicator of another player outlives its last notice.
use vibed_st_muliplayer.Base.{
  not, ◌&&◌, ◌||◌, subst, ltb, if◌then◌else◌, ℕ, ◌+◌, ◌≤◌, ◌≡◌, refl, String, Bool, true, false,
  Option, none, some, List, [], ◌∷◌, arith, Bool-cases, inl, inr,
}
use vibed_st_muliplayer.Base.Texts.{same, same→eq, same_refl, same_sym}
use text.Mathlib.TextEquality.{eq_iff}
use vibed_st_muliplayer.Typing.{
  shown_name, Shown, TypingNotice, receive, expire, forget_active, set_active,
}

-- What happens to the indicators of the others: a notice, a departure, and the sweep of every second.
pub data Remote : Type 0 where
  notice : TypingNotice → ℕ → Remote
  gone : String → Remote
  sweep : ℕ → Remote

unfoldable pub remote_step : String → Remote → List Shown → List Shown
unfolding receive forget_active expire
remote_step me (Remote.notice n now) shown = receive me n.from_peer n now shown
remote_step me (Remote.gone i) shown = forget_active i shown
remote_step me (Remote.sweep now) shown = expire now shown

unfoldable pub remote_run : String → List Remote → List Shown → List Shown
unfolding remote_step
remote_run me [] shown = shown
remote_run me (e ∷ es) shown = remote_run me es (remote_step me e shown)

-- The notice counts for the peer `i` and this player `me`.
abbrev counts : String → String → Option String → Bool
counts me i none = false
counts me i (some j) = same j i && not (same j "" || same j me)

-- What one event makes of the time of a peer's last notice that it is typing.
abbrev typed : String → String → Remote → Option ℕ → Option ℕ
typed me i (Remote.notice n now) t =
    if counts me i n.from_peer then (if n.typing then some now else none) else t
typed me i (Remote.gone j) t = if same j i then none else t
typed me i (Remote.sweep now) t = t

-- The time of the last notice of a peer that it is typing, if it has not stopped or left since.
pub last_typed : String → String → List Remote → Option ℕ → Option ℕ
last_typed me i [] t = t
last_typed me i (e ∷ es) t = last_typed me i es (typed me i e t)

unfoldable pub find_shown : String → List Shown → Option Shown
find_shown i [] = none
find_shown i (x ∷ xs) = if same x.peer i then some x else find_shown i xs

abbrev Marks : Option ℕ → ℕ → Type 0
Marks none e = ⊥
Marks (some t) e = e ≡ t + 8000

-- One indicator for a peer, which expires 8 seconds after its last notice.
abbrev IsMarked : (String → Option ℕ) → List Shown → Type 0
IsMarked f [] = Unit
IsMarked f (x ∷ xs) = Marks (f x.peer) x.expires_at × (find_shown x.peer xs ≡ none) × IsMarked f xs

find_off :
    (i : String) (x : Shown) (xs : List Shown)
    → find_shown i (x ∷ xs) ≡ none
    → (same x.peer i ≡ false) × (find_shown i xs ≡ none)
unfolding find_shown
find_off i x xs h = ground arith

-- Peers that are not shown do not matter.
IsMarked-off :
    (f g : String → Option ℕ) (i : String) (xs : List Shown)
    → ((j : String) → same i j ≡ false → g j ≡ f j)
    → find_shown i xs ≡ none
    → IsMarked f xs
    → IsMarked g xs
unfolding find_shown
IsMarked-off f g i [] agree h m = tt
IsMarked-off f g i (x ∷ xs) agree h m =
    let (miss, rest) = find_off i x xs h in
    let apart = same_sym x.peer i miss in
    (rw (agree x.peer apart) (m.0), m.1, IsMarked-off f g i xs agree rest m.2)

find-set :
    (i : String) (x : Shown) (xs : List Shown)
    → find_shown i (set_active x xs) ≡ (if same x.peer i then some x else find_shown i xs)
unfolding find_shown set_active
find-set i x [] = refl
find-set i x (y ∷ ys) =
    ground (arith, eq_iff y.peer x.peer, eq_iff y.peer i, eq_iff x.peer i, find-set i x ys)

find-forget :
    (i j : String) (xs : List Shown)
    → find_shown i xs ≡ none
    → find_shown i (forget_active j xs) ≡ none
unfolding find_shown forget_active
find-forget i j [] h = refl
find-forget i j (y ∷ ys) h = ground (arith, find-forget i j ys)

find-expire :
    (i : String) (now : ℕ) (xs : List Shown)
    → find_shown i xs ≡ none
    → find_shown i (expire now xs) ≡ none
unfolding find_shown expire
find-expire i now [] h = refl
find-expire i now (y ∷ ys) h = ground (arith, find-expire i now ys)

expire-IsMarked :
    (f : String → Option ℕ) (now : ℕ) (xs : List Shown) → IsMarked f xs → IsMarked f (expire now xs)
unfolding expire
expire-IsMarked f now [] m = tt
expire-IsMarked f now (x ∷ xs) m = elim (Bool-cases (ltb x.expires_at now)) [
  | inl old ↦ rw old (expire-IsMarked f now xs m.2)
  | inr young ↦ rw young (m.0, find-expire x.peer now xs m.1, expire-IsMarked f now xs m.2)
]

forget-IsMarked :
    (f g : String → Option ℕ) (i : String) (xs : List Shown)
    → ((j : String) → same i j ≡ false → g j ≡ f j)
    → IsMarked f xs
    → IsMarked g (forget_active i xs)
unfolding forget_active
forget-IsMarked f g i [] agree m = tt
forget-IsMarked f g i (x ∷ xs) agree m = elim (Bool-cases (same x.peer i)) [
  | inl hit ↦ rw hit (
      IsMarked-off f g i xs agree (subst (λ j. find_shown j xs ≡ none) (same→eq x.peer i hit) m.1)
        m.2)
  | inr miss ↦
      let apart = same_sym x.peer i miss in
      rw miss (
        rw (agree x.peer apart) m.0,
        find-forget x.peer i xs m.1,
        forget-IsMarked f g i xs agree m.2,
      )
]

set-IsMarked :
    (f g : String → Option ℕ) (x : Shown) (t : ℕ) (xs : List Shown)
    → ((j : String) → same x.peer j ≡ false → g j ≡ f j)
    → g x.peer ≡ some t
    → x.expires_at ≡ t + 8000
    → IsMarked f xs
    → IsMarked g (set_active x xs)
unfolding set_active find_shown
set-IsMarked f g x t [] agree at e m = (rw at e, refl, tt)
set-IsMarked f g x t (y ∷ ys) agree at e m = elim (Bool-cases (same y.peer x.peer)) [
  | inl hit ↦
      let fresh : find_shown x.peer ys ≡ none =
        subst (λ j. find_shown j ys ≡ none) (same→eq y.peer x.peer hit) m.1 in
      rw hit (rw at e, fresh, IsMarked-off f g x.peer ys agree fresh m.2)
  | inr miss ↦
      let apart = same_sym y.peer x.peer miss in
      rw miss (
        rw (agree y.peer apart) m.0,
        rw (find-set y.peer x ys, apart) m.1,
        set-IsMarked f g x t ys agree at e m.2,
      )
]

IsMarked-pointwise :
    (f g : String → Option ℕ) (xs : List Shown)
    → ((j : String) → g j ≡ f j)
    → IsMarked f xs
    → IsMarked g xs
IsMarked-pointwise f g [] agree m = tt
IsMarked-pointwise f g (x ∷ xs) agree m =
    (rw (agree x.peer) m.0, m.1, IsMarked-pointwise f g xs agree m.2)

heard-IsMarked :
    (j name : String) (now : ℕ) (f : String → Option ℕ) (xs : List Shown) (deaf typing : Bool)
    → IsMarked f xs
    → IsMarked
        (λ i. if same j i && not deaf then (if typing then some now else none) else f i)
        (if deaf
          then xs
          else if typing
          then set_active (record { peer = j; name = name; expires_at = now + 8000 }) xs
          else forget_active j xs)
heard-IsMarked j name now f xs true typing m = IsMarked-pointwise f _ xs (λ i. ground arith) m
heard-IsMarked j name now f xs false true m =
    set-IsMarked f _ (record { peer = j; name = name; expires_at = now + 8000 }) now xs
      (λ i a. simp a refl) (simp (same_refl j) refl) refl m
heard-IsMarked j name now f xs false false m = forget-IsMarked f _ j xs (λ i a. simp a refl) m

receive-IsMarked :
    (me : String) (o : Option String) (n : TypingNotice) (now : ℕ) (f : String → Option ℕ)
    (xs : List Shown)
    → IsMarked f xs
    → IsMarked
        (λ i. if counts me i o then (if n.typing then some now else none) else f i)
        (receive me o n now xs)
unfolding receive
receive-IsMarked me none n now f xs m = m
receive-IsMarked me (some j) n now f xs m =
    heard-IsMarked j (shown_name n.name) now f xs (same j "" || same j me) n.typing m

step-IsMarked :
    (me : String) (e : Remote) (f : String → Option ℕ) (xs : List Shown)
    → IsMarked f xs
    → IsMarked (λ i. typed me i e (f i)) (remote_step me e xs)
unfolding remote_step receive
step-IsMarked me (Remote.sweep now) f xs m = expire-IsMarked f now xs m
step-IsMarked me (Remote.gone j) f xs m = forget-IsMarked f _ j xs (λ i a. simp a refl) m
step-IsMarked me (Remote.notice n now) f xs m = receive-IsMarked me n.from_peer n now f xs m

run-IsMarked :
    (me : String) (es : List Remote) (f : String → Option ℕ) (xs : List Shown)
    → IsMarked f xs
    → IsMarked (λ i. last_typed me i es (f i)) (remote_run me es xs)
unfolding last_typed remote_run
run-IsMarked me [] f xs m = m
run-IsMarked me (e ∷ es) f xs m =
    run-IsMarked me es (λ i. typed me i e (f i)) (remote_step me e xs) (step-IsMarked me e f xs m)

find-Marks :
    (f : String → Option ℕ) (i : String) (x : Shown) (xs : List Shown)
    → IsMarked f xs
    → find_shown i xs ≡ some x
    → Marks (f i) x.expires_at
unfolding find_shown
find-Marks f i x [] m h = cc
find-Marks f i x (y ∷ ys) m h = elim (Bool-cases (same y.peer i)) [
  | inl hit ↦
      let e : y ≡ x = ground arith in
      subst (λ z. Marks (f i) z.expires_at) e
        (subst (λ j. Marks (f j) y.expires_at) (same→eq y.peer i hit) m.0)
  | inr miss ↦ find-Marks f i x ys m.2 (ground arith)
]

expire-young :
    (i : String) (now : ℕ) (x : Shown) (xs : List Shown)
    → find_shown i (expire now xs) ≡ some x
    → now ≤ x.expires_at
unfolding find_shown expire
expire-young i now x [] h = cc
expire-young i now x (y ∷ ys) h = ground (arith, expire-young i now x ys)

Marks-time : (o : Option ℕ) (e : ℕ) → Marks o e → (t : ℕ) × (o ≡ some t) × (e ≡ t + 8000)
Marks-time none e m = absurd m
Marks-time (some t) e m = (t, refl, m)

-- Whatever notices, departures and sweeps this player gets, in whatever order: after a sweep an
-- indicator is shown only for a player whose last notice said that it is typing, and came at most 8
-- seconds before; nobody is shown as typing forever.
pub shown_recently :
    (me i : String) (es : List Remote) (now : ℕ) (x : Shown)
    → find_shown i (expire now (remote_run me es [])) ≡ some x
    → (t : ℕ) × (last_typed me i es none ≡ some t) × (now ≤ t + 8000)
shown_recently me i es now x h =
    let f : String → Option ℕ = λ j. last_typed me j es none in
    let marked =
      expire-IsMarked f now (remote_run me es []) (run-IsMarked me es (λ j. none) [] tt) in
    let (t, last, at) =
      Marks-time (f i) x.expires_at
        (find-Marks f i x (expire now (remote_run me es [])) marked h) in
    let young = expire-young i now x (remote_run me es []) h in (t, last, rw (← at) young)
