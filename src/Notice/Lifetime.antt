-- ===== src/Notice/Lifetime.antt =====
-- lib/notice.js: a notice goes forward, names who asked, and does not outlive what it was told.
use vibed_st_muliplayer.Base.{String, Bool, true, false}
use vibed_st_muliplayer.Notice.{clean_name}
use vibed_st_muliplayer.Base.{
  ◌≢◌, ltb, ℕ, ◌+◌, ◌≤◌, ◌<◌, ◌≡◌, refl, Option, none, some, List, [], ◌∷◌, arith, Bool-cases, inl,
  inr,
}
use vibed_st_muliplayer.Notice.{
  Phase, Asker, Current, show_notice, sweep_notice, pend, pend_over, clear,
}

-- What happens to the notice: a frame, the end of the session, and the sweep of every second.
pub data NoticeEvent : Type 0 where
  shows : Option Phase → Asker → ℕ → NoticeEvent
  clears : NoticeEvent
  sweeps : ℕ → NoticeEvent

unfoldable pub notice_step : NoticeEvent → Option Current → Option Current
unfolding show_notice sweep_notice
notice_step (NoticeEvent.shows phase asker now) o = show_notice phase asker now o
notice_step NoticeEvent.clears o = clear o
notice_step (NoticeEvent.sweeps now) o = sweep_notice now o

unfoldable pub notice_run : List NoticeEvent → Option Current → Option Current
unfolding notice_step
notice_run [] o = o
notice_run (e ∷ es) o = notice_run es (notice_step e o)

-- The time of the last frame that said that a reply is coming, unless the notice was cleared since.
abbrev told : NoticeEvent → Option ℕ → Option ℕ
told (NoticeEvent.shows none asker now) t = t
told (NoticeEvent.shows (some Phase.done) asker now) t = none
told (NoticeEvent.shows (some Phase.pending) asker now) t = some now
told (NoticeEvent.shows (some Phase.running) asker now) t = some now
told NoticeEvent.clears t = none
told (NoticeEvent.sweeps now) t = t

pub last_told : List NoticeEvent → Option ℕ → Option ℕ
last_told [] t = t
last_told (e ∷ es) t = last_told es (told e t)

abbrev IsTimed : Option ℕ → Option Current → Type 0
IsTimed t none = Unit
IsTimed none (some c) = ⊥
IsTimed (some t) (some c) = c.expires_at ≤ t + 300000

pend_over-IsTimed :
    (phase : Phase) (c : Current) (asker : Asker) (now : ℕ)
    → IsTimed (some now) (pend_over phase c asker now)
unfolding pend_over
pend_over-IsTimed Phase.running c asker now = omega arith
pend_over-IsTimed Phase.pending c asker now = omega arith
pend_over-IsTimed Phase.done c asker now = omega arith

pend-IsTimed :
    (asker : Asker) (now : ℕ) (o : Option Current) → IsTimed (some now) (pend asker now o)
unfolding pend
pend-IsTimed asker now none = omega arith
pend-IsTimed asker now (some c) = pend_over-IsTimed c.phase c asker now

sweep-IsTimed :
    (t : Option ℕ) (now : ℕ) (o : Option Current) → IsTimed t o → IsTimed t (sweep_notice now o)
unfolding sweep_notice
sweep-IsTimed t now none m = tt
sweep-IsTimed t now (some c) m = elim (Bool-cases (ltb now c.expires_at)) [
  | inl young ↦ rw young m
  | inr old ↦ rw old tt
]

step-IsTimed :
    (e : NoticeEvent) (t : Option ℕ) (o : Option Current)
    → IsTimed t o
    → IsTimed (told e t) (notice_step e o)
unfolding notice_step show_notice
step-IsTimed (NoticeEvent.shows none asker now) t o m = m
step-IsTimed (NoticeEvent.shows (some Phase.done) asker now) t o m = tt
step-IsTimed (NoticeEvent.shows (some Phase.pending) asker now) t o m = pend-IsTimed asker now o
step-IsTimed (NoticeEvent.shows (some Phase.running) asker now) t o m = omega arith
step-IsTimed NoticeEvent.clears t o m = tt
step-IsTimed (NoticeEvent.sweeps now) t o m = sweep-IsTimed t now o m

run-IsTimed :
    (es : List NoticeEvent) (t : Option ℕ) (o : Option Current)
    → IsTimed t o
    → IsTimed (last_told es t) (notice_run es o)
unfolding last_told notice_run
run-IsTimed [] t o m = m
run-IsTimed (e ∷ es) t o m = run-IsTimed es (told e t) (notice_step e o) (step-IsTimed e t o m)

young-time :
    (t : Option ℕ) (now : ℕ) (o : Option Current) (c : Current)
    → IsTimed t o
    → sweep_notice now o ≡ some c
    → (u : ℕ) × (t ≡ some u) × (now < u + 300000)
unfolding sweep_notice
young-time t now none c m h = cc
young-time none now (some x) c m h = absurd m
young-time (some u) now (some x) c m h = (u, refl, ground arith)

-- Whatever happens to the notice: after a sweep one stands only if the last frame about it said that a
-- reply is coming, less than 5 minutes ago; a host that is gone leaves no notice for ever.
pub notice_is_recent :
    (es : List NoticeEvent) (now : ℕ) (c : Current)
    → sweep_notice now (notice_run es none) ≡ some c
    → (t : ℕ) × (last_told es none ≡ some t) × (now < t + 300000)
notice_is_recent es now c h =
    young-time (last_told es none) now (notice_run es none) c (run-IsTimed es none none tt) h

-- A frame that does not end the notice: its phase, or none where it is none of the three, what it says
-- of the asker, and its time.
abbrev pub Told : Type 0
Told = Option Phase × Asker × ℕ

abbrev pub IsOngoing : Told → Type 0
IsOngoing f = f.0 ≢ some Phase.done

unfoldable pub shows_all : List Told → Option Current → Option Current
unfolding show_notice
shows_all [] o = o
shows_all ((phase, asker, now) ∷ ps) o = shows_all ps (show_notice phase asker now o)

abbrev pub is_running : Phase → Bool
is_running Phase.running = true
is_running _ = false

abbrev starts : Bool → Told → Bool
starts ran (some Phase.running, asker, now) = true
starts ran _ = ran

-- A frame has told that the reply is running.
unfoldable pub has_run : Bool → List Told → Bool
has_run ran [] = ran
has_run ran (f ∷ ps) = has_run (starts ran f) ps

abbrev heard : Asker → Option String → Option String
heard Asker.absent by = by
heard Asker.null by = none
heard (Asker.named name) by = clean_name (Asker.named name)

-- A pending frame tells who asks only until the reply runs.
abbrev credit : Bool → Told → Option String → Option String
credit ran (some Phase.running, asker, now) by = heard asker by
credit false (some Phase.pending, asker, now) by = heard asker by
credit _ _ by = by

-- Who asked, by the last frame that tells it.
unfoldable pub credited : Bool → List Told → Option String → Option String
credited ran [] by = by
credited ran (f ∷ ps) by = credited (starts ran f) ps (credit ran f by)

-- The notice stands, is running as `ran` says, and names who asked.
abbrev pub IsShown : Bool → Option String → Option Current → Type 0
IsShown ran by none = ⊥
IsShown ran by (some d) = (is_running d.phase ≡ ran) × (d.by_whom ≡ by)
