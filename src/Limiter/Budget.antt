-- ===== src/Limiter/Budget.antt =====
-- lib/send-budget.js: the sender's own limit. `take` waits in a loop; the model is one round of it,
-- at the time that the round reads.
pub mod Pacing
use vibed_st_muliplayer.Base.{
  ℕ, ◌+◌, ◌-◌, ◌*◌, ◌/◌, min, Bool, true, false, ◌&&◌, if◌then◌else◌, leb, ltb, Option, none, some,
}
use vibed_st_muliplayer.Limiter.{unit}
use vibed_st_muliplayer.Protocol.Limits

pub record SendBudget : Type 0 where
  pub messages : ℕ
  pub bytes : ℕ
  pub last : ℕ

abbrev pub message_capacity : ℕ
message_capacity = Limits.rate_messages * 2 / 3 * unit

abbrev pub byte_capacity : ℕ
byte_capacity = (Limits.max_frame_bytes + 4096) * unit

-- `RATE_MESSAGES / RATE_WINDOW_MS * 0.8`, and the same of `RATE_BYTES`.
abbrev pub message_rate : ℕ
message_rate = 480

abbrev pub byte_rate : ℕ
byte_rate = Limits.rate_bytes * 8

pub new_budget : ℕ → SendBudget
new_budget now = record { messages = message_capacity; bytes = byte_capacity; last = now }

-- The refill at the head of a round.
pub refill : SendBudget → ℕ → SendBudget
refill s now = record {
  messages = min message_capacity (s.messages + (now - s.last) * message_rate);
  bytes = min byte_capacity (s.bytes + (now - s.last) * byte_rate);
  last = now;
}

-- A round of the loop of `take`: the frame goes, or the sender sleeps and tries again.
unfoldable pub attempt : SendBudget → ℕ → ℕ → SendBudget × Bool
unfolding refill
attempt s now bytes =
    let r = refill s now in
    if leb unit r.messages && leb (bytes * unit) r.bytes
    then (record r { messages = r.messages - unit; bytes = r.bytes - bytes * unit }, true)
    else (r, false)

-- `take` throws for a frame larger than the whole budget.
pub fits : ℕ → Bool
fits bytes = leb (bytes * unit) byte_capacity
