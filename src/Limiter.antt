-- ===== src/Limiter.antt =====
-- The rate limits: `TokenBucket` of server/lib/crypto.js, and `SendBudget` of lib/send-budget.js.
-- The fractions that the program keeps in floats are counted here in units of a 100,000th of a
-- message and of a byte, in which every rate of the program is a whole number.
pub mod Bound
pub mod Budget
use vibed_st_muliplayer.Base.{
  ℕ, ◌+◌, ◌-◌, ◌*◌, Bool, true, false, List, [], ◌∷◌, if◌then◌else◌, min,
}
use vibed_st_muliplayer.Base.Int.{ℤ, pos, pos_part, neg_part, sub_ℕ, at_least}
use vibed_st_muliplayer.Protocol.Limits

abbrev pub unit : ℕ
unit = 100000

pub record Bucket : Type 0 where
  pub capacity : ℕ
  pub tokens : ℤ
  pub refill_per_ms : ℕ
  pub updated_at : ℕ

-- The constructor, at the time `now`.
unfoldable pub new_bucket : ℕ → ℕ → ℕ → Bucket
new_bucket capacity rate now = record {
  capacity = capacity;
  tokens = pos capacity;
  refill_per_ms = rate;
  updated_at = now;
}

-- `Math.min(this.capacity, tokens)`
abbrev pub capped : ℕ → ℤ → ℤ
capped cap t = if at_least cap t then pos cap else t

-- `tokens + (now - updatedAt) * refillPerMs`, negative where the clock has stepped back.
unfoldable pub refilled : Bucket → ℕ → ℤ
refilled b now = capped b.capacity (
    sub_ℕ (pos_part b.tokens + now * b.refill_per_ms)
      (neg_part b.tokens + b.updated_at * b.refill_per_ms))

unfoldable pub take : Bucket → ℕ → ℕ → Bucket × Bool
unfolding refilled
take b now amount =
    let tokens = refilled b now in
    if at_least amount tokens
    then (
      record b { tokens = sub_ℕ (pos_part tokens) (amount + neg_part tokens); updated_at = now },
      true,
    )
    else (record b { tokens = tokens; updated_at = now }, false)

-- What a frame costs: one message, and its bytes if the message is granted.
unfoldable pub spend : Bucket → Bucket → ℕ → ℕ → Bucket × Bucket × Bool
spend messages bytes now size =
    let (messages', first) = take messages now unit in
    let (bytes', second) = take bytes now (size * unit) in
    if first then (messages', bytes', second) else (messages', bytes, false)

-- The two buckets of a peer: `RATE_MESSAGES` messages and `RATE_BYTES` bytes in `RATE_WINDOW_MS`.
unfoldable pub message_bucket : ℕ → Bucket
unfolding new_bucket
message_bucket now = new_bucket (Limits.rate_messages * unit) 600 now

unfoldable pub byte_bucket : ℕ → Bucket
unfolding new_bucket
byte_bucket now = new_bucket (Limits.rate_bytes * unit) (Limits.rate_bytes * 10) now
