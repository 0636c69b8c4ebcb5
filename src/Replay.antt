-- ===== src/Replay.antt =====
-- server/lib/crypto.js, `ReplayWindow`: the sliding-window replay guard.
pub mod History
use vibed_st_muliplayer.Base.{
  ℕ, ◌-◌, ◌≤◌, Bool, true, false, not, List, [], ◌∷◌, ◌++◌, filter, has, ltb, leb, if◌then◌else◌,
}
use vibed_st_muliplayer.Protocol.Limits

pub record Window : Type 0 where
  pub highest : ℕ
  pub seen : List ℕ

abbrev pub fresh : Window
fresh = record { highest = 0; seen = [] }

-- The test by which old counters are forgotten, `value < floor`, negated.
abbrev pub kept : ℕ → ℕ → Bool
kept floor value = not (ltb value floor)

-- A counter above the highest moves the window up, and forgets what falls below its floor.
pub advance : Window → ℕ → Window
advance w counter = record {
  highest = counter;
  seen = filter (kept (counter - Limits.counter_window)) (w.seen ++ counter ∷ []);
}

unfoldable pub accept : Window → ℕ → Window × Bool
unfolding advance
accept w counter =
    if leb counter 0
    then (w, false)
    else if ltb w.highest counter
    then (advance w counter, true)
    else if leb Limits.counter_window (w.highest - counter)
    then (w, false)
    else if has counter w.seen
    then (w, false)
    else (record w { seen = w.seen ++ counter ∷ [] }, true)
