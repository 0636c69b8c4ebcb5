-- ===== src/Limiter/Budget/Pacing.antt =====
-- The sender's budget against the relay's buckets.
use vibed_st_muliplayer.Base.{
  ℕ, ◌+◌, ◌*◌, ◌≤◌, ◌≡◌, Bool, true, false, ◌&&◌, List, [], ◌∷◌, arith, if◌then◌else◌, refl, inl,
  inr, Bool-cases,
}
use vibed_st_muliplayer.Base.Int.{pos_part, neg_part}
use vibed_st_muliplayer.Limiter.{Bucket, take, message_bucket, byte_bucket, unit, new_bucket, spend}
use vibed_st_muliplayer.Limiter.Budget.{SendBudget, new_budget, attempt}

-- The longest delay on the way to the relay, in milliseconds.
abbrev pub slack : ℕ
slack = 4000

-- One round of the sender's loop, and how long the frame travels if it goes.
pub record Round : Type 0 where
  pub time : ℕ
  pub size : ℕ
  pub delay : ℕ

-- The sender's clock does not step back, frames arrive in the order of sending, and none travels
-- longer than `slack`.
abbrev pub InOrder : ℕ → ℕ → List Round → Type 0
InOrder sent arrived [] = Unit
InOrder sent arrived (r ∷ rs) =
    (sent ≤ r.time)
    × (arrived ≤ r.time + r.delay)
    × (r.delay ≤ slack)
    × InOrder r.time (r.time + r.delay) rs

-- No frame that the budget lets through is refused by the relay's buckets.
pub unlimited : SendBudget → Bucket → Bucket → List Round → Bool
unlimited s m b [] = true
unlimited s m b (r ∷ rs) =
    let s' = (attempt s r.time r.size).0 in
    let paid = spend m b (r.time + r.delay) r.size in
    let later = unlimited s' paid.0 paid.1 rs in
    let waits = unlimited s' m b rs in
    if (attempt s r.time r.size).1 then paid.2 && later else waits

-- What the relay's bucket has beyond the budget, with what a longer delay could still cost it.
record IsAhead (s : SendBudget) (m b : Bucket) (arrived : ℕ) : Type 0 where
  messages :
      s.messages + 20 * unit + m.updated_at * 480 ≤ pos_part m.tokens + (s.last + slack) * 480
  bytes :
      s.bytes + 4190208 * unit + b.updated_at * 67108864
      ≤ pos_part b.tokens + (s.last + slack) * 67108864
  message_sign : neg_part m.tokens ≡ 0
  byte_sign : neg_part b.tokens ≡ 0
  message_time : m.updated_at ≤ arrived
  byte_time : b.updated_at ≤ arrived
  message_capacity : m.capacity ≡ 60 * unit
  byte_capacity : b.capacity ≡ 8388608 * unit
  message_rate : m.refill_per_ms ≡ 600
  byte_rate : b.refill_per_ms ≡ 83886080

waits-IsAhead :
    (s : SendBudget) (m b : Bucket) (arrived : ℕ) (r : Round)
    → IsAhead s m b arrived
    → s.last ≤ r.time
    → arrived ≤ r.time + r.delay
    → (attempt s r.time r.size).1 ≡ false
    → IsAhead (attempt s r.time r.size).0 m b (r.time + r.delay)
unfolding attempt
waits-IsAhead s m b arrived r a h k e = ground arith

take_frame :
    (c : Bucket) (now amount : ℕ)
    → ((take c now amount).0.capacity ≡ c.capacity)
      × ((take c now amount).0.refill_per_ms ≡ c.refill_per_ms)
      × ((take c now amount).0.updated_at ≡ now)
unfolding take
take_frame c now amount = ground arith

attempt_time : (s : SendBudget) (now size : ℕ) → (attempt s now size).0.last ≡ now
unfolding attempt
attempt_time s now size = ground arith

module _ (s : SendBudget) (m b : Bucket) (arrived : ℕ) (r : Round) (a : IsAhead s m b arrived)
    (h : s.last ≤ r.time) (k : arrived ≤ r.time + r.delay) (l : r.delay ≤ slack)
    (e : (attempt s r.time r.size).1 ≡ true) where
  messages_paid :
      ((take m (r.time + r.delay) unit).1 ≡ true)
      × ((attempt s r.time r.size).0.messages + 20 * unit + (r.time + r.delay) * 480
          ≤ pos_part (take m (r.time + r.delay) unit).0.tokens + (r.time + slack) * 480)
      × (neg_part (take m (r.time + r.delay) unit).0.tokens ≡ 0)
  unfolding attempt take
  messages_paid = ground arith

  bytes_paid :
      ((take b (r.time + r.delay) (r.size * unit)).1 ≡ true)
      × ((attempt s r.time r.size).0.bytes + 4190208 * unit + (r.time + r.delay) * 67108864
          ≤ pos_part (take b (r.time + r.delay) (r.size * unit)).0.tokens
            + (r.time + slack) * 67108864)
      × (neg_part (take b (r.time + r.delay) (r.size * unit)).0.tokens ≡ 0)
  unfolding attempt take
  bytes_paid = ground arith

  sends-IsAhead :
      let paid = spend m b (r.time + r.delay) r.size in
      (paid.2 ≡ true) × IsAhead (attempt s r.time r.size).0 paid.0 paid.1 (r.time + r.delay)
  unfolding spend
  sends-IsAhead =
      let p = messages_paid in
      let q = bytes_paid in
      rw (p.0, spend)
        (
          q.0,
          ground (
            arith,
            p,
            q,
            attempt_time s r.time r.size,
            take_frame m (r.time + r.delay) unit,
            take_frame b (r.time + r.delay) (r.size * unit),
            a.message_capacity,
            a.byte_capacity,
            a.message_rate,
            a.byte_rate,
          ),
        )

unlimited_from :
    (s : SendBudget) (m b : Bucket) (arrived : ℕ) (rs : List Round)
    → IsAhead s m b arrived
    → InOrder s.last arrived rs
    → unlimited s m b rs ≡ true
unfolding unlimited
unlimited_from s m b arrived [] a o = refl
unlimited_from s m b arrived (r ∷ rs) a (h, k, l, o) =
    let s' = (attempt s r.time r.size).0 in
    let paid = spend m b (r.time + r.delay) r.size in
    let o' : InOrder s'.last (r.time + r.delay) rs = rw (attempt_time s r.time r.size) o in
    elim (Bool-cases (attempt s r.time r.size).1) [
      | inl sent ↦
          let (granted, ahead) = sends-IsAhead s m b arrived r a h k l sent in
          rw (sent, granted) (unlimited_from s' paid.0 paid.1 (r.time + r.delay) rs ahead o')
      | inr waits ↦ rw waits (
          unlimited_from s' m b (r.time + r.delay) rs (waits-IsAhead s m b arrived r a h k waits)
            o')
    ]

-- Whatever a sender's loop sends, and whenever: the relay never refuses a frame over its rate
-- limits, if the relay made the peer's buckets no later than the sender made its budget, no frame
-- travels longer than 4 seconds, and the frames arrive in order.
pub budget_is_never_limited :
    (made start : ℕ) (rs : List Round)
    → made ≤ start
    → InOrder start start rs
    → unlimited (new_budget start) (message_bucket made) (byte_bucket made) rs ≡ true
unfolding new_budget message_bucket byte_bucket new_bucket
budget_is_never_limited made start rs h o =
    unlimited_from (new_budget start) (message_bucket made) (byte_bucket made) start rs
      (record {
        messages = omega arith;
        bytes = omega arith;
        message_sign = refl;
        byte_sign = refl;
        message_time = h;
        byte_time = h;
        message_capacity = refl;
        byte_capacity = refl;
        message_rate = refl;
        byte_rate = refl;
      })
      o
