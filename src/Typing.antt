-- ===== src/Typing.antt =====
-- lib/typing.js: the typing indicators, of this player for the others and of the others here.
pub mod Keepalive
pub mod Expiry
use vibed_st_muliplayer.Base.{
  ℕ, ◌+◌, ◌-◌, String, Bool, true, false, not, ◌&&◌, ◌||◌, Option, none, some, List, [], ◌∷◌,
  if◌then◌else◌, ltb, leb, filter,
}
use vibed_st_muliplayer.Base.Texts.{same, cut}

abbrev pub idle_ms : ℕ
idle_ms = 3000

abbrev pub keepalive_ms : ℕ
keepalive_ms = 2000

abbrev pub expiry_ms : ℕ
expiry_ms = idle_ms + 5000

-- An indicator of another player.
pub record Shown : Type 0 where
  pub peer : String
  pub name : String
  pub expires_at : ℕ

-- `idle_at` is when the idle timer fires, if it is set.
pub record Indicators : Type 0 where
  pub active : List Shown
  pub typing : Bool
  pub last_sent_at : ℕ
  pub idle_at : Option ℕ

-- The constructor.
abbrev pub silent : Indicators
silent = record { active = []; typing = false; last_sent_at = 0; idle_at = none }

-- `#send`: the flag of the frame that goes out.
abbrev pub announce_typing : Bool → ℕ → Indicators → Indicators × List Bool
announce_typing typing now s = (record s { last_sent_at = now }, typing ∷ [])

-- `#stopTyping`
unfoldable pub stop_typing : ℕ → Indicators → Indicators × List Bool
stop_typing now s =
    let stopped = record s { idle_at = none; typing = false } in
    if s.typing then announce_typing false now stopped else (record s { idle_at = none }, [])

-- The start, or a keepalive where the last frame is old enough.
unfoldable pub keep_typing : ℕ → Indicators → Indicators × List Bool
keep_typing now s =
    if not s.typing
    then announce_typing true now (record s { typing = true })
    else if ltb keepalive_ms (now - s.last_sent_at)
    then announce_typing true now s
    else (s, [])

-- `#onLocalActivity`, in a session that is live or not, with a box that holds text or not.
unfoldable pub on_local_activity : Bool → Bool → ℕ → Indicators → Indicators × List Bool
unfolding stop_typing keep_typing
on_local_activity live filled now s =
    let kept = keep_typing now s in
    if not live
    then (s, [])
    else if not filled
    then stop_typing now s
    else (record kept.0 { idle_at = some (now + idle_ms) }, kept.1)

unfoldable pub fires : Option ℕ → ℕ → Bool
fires none now = false
fires (some at) now = leb at now

-- The idle timer, at a time at which it may be due.
unfoldable pub on_idle : ℕ → Indicators → Indicators × List Bool
unfolding fires stop_typing
on_idle now s = if fires s.idle_at now then stop_typing now s else (s, [])

-- `reset`, and what `destroy` does to the state.
unfoldable pub reset : Indicators → Indicators × List Bool
reset s = (record s { active = []; typing = false; idle_at = none }, [])

-- `this.active.set` and `this.active.delete`
unfoldable pub set_active : Shown → List Shown → List Shown
set_active x [] = x ∷ []
set_active x (y ∷ ys) = if same y.peer x.peer then x ∷ ys else y ∷ set_active x ys

unfoldable pub forget_active : String → List Shown → List Shown
forget_active i [] = []
forget_active i (y ∷ ys) = if same y.peer i then ys else y ∷ forget_active i ys

-- What a typing frame holds, with the author and the name that the relay puts on it.
pub record TypingNotice : Type 0 where
  pub from_peer : Option String
  pub name : Option String
  pub typing : Bool

abbrev pub shown_name : Option String → String
shown_name none = "Someone"
shown_name (some name) = cut 40 name

abbrev pub mark : String → TypingNotice → ℕ → List Shown → List Shown
mark i n now shown =
    if n.typing
    then set_active (record { peer = i; name = shown_name n.name; expires_at = now + expiry_ms })
        shown
    else forget_active i shown

-- `receive`, of the player `me`.
unfoldable pub receive : String → Option String → TypingNotice → ℕ → List Shown → List Shown
unfolding set_active forget_active
receive me none n now shown = shown
receive me (some i) n now shown = if same i "" || same i me then shown else mark i n now shown

-- `#expire`
unfoldable pub expire : ℕ → List Shown → List Shown
expire now shown = filter (λ x. not (ltb x.expires_at now)) shown
