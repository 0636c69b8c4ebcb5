-- ===== src/Limiter/Bound.antt =====
-- What a token bucket lets through.
use vibed_st_muliplayer.Base.{refl, ℕ, ◌+◌, ◌*◌, ◌≤◌, ◌≡◌, List, [], ◌∷◌, arith, if◌then◌else◌}
use vibed_st_muliplayer.Base.Int.{pos, pos_part, neg_part}
use vibed_st_muliplayer.Limiter.{new_bucket, Bucket, take}

-- The calls that a bucket gets: the time of each and the amount asked for.
abbrev pub Calls : Type 0
Calls = List (ℕ × ℕ)

-- The sum of the amounts that are granted.
pub granted : Bucket → Calls → ℕ
granted b [] = 0
granted b ((now, amount) ∷ calls) =
    let rest = granted (take b now amount).0 calls in
    if (take b now amount).1 then amount + rest else rest

-- The time of the last call.
pub last : ℕ → Calls → ℕ
last t [] = t
last t ((now, amount) ∷ calls) = last now calls

-- The clock does not step back between calls.
abbrev pub IsClock : ℕ → Calls → Type 0
IsClock t [] = Unit
IsClock t ((now, amount) ∷ calls) = (t ≤ now) × IsClock now calls

module _ (b : Bucket) (now amount : ℕ) where
  take_mono : b.updated_at ≤ now → b.updated_at * b.refill_per_ms ≤ now * b.refill_per_ms
  take_mono h = grind arith

  take-balance :
      b.updated_at ≤ now
      → neg_part b.tokens ≡ 0
      → (neg_part (take b now amount).0.tokens ≡ 0)
        × ((if (take b now amount).1 then amount else 0)
              + pos_part (take b now amount).0.tokens
              + b.updated_at * b.refill_per_ms
            ≤ pos_part b.tokens + now * b.refill_per_ms)
        × ((take b now amount).0.updated_at ≡ now)
        × ((take b now amount).0.refill_per_ms ≡ b.refill_per_ms)
  unfolding take
  take-balance h z = ground (arith, take_mono h)

-- Induction over the calls, with the balance of the bucket on both sides.
granted-le_from :
    (b : Bucket) (calls : Calls)
    → neg_part b.tokens ≡ 0
    → IsClock b.updated_at calls
    → granted b calls + b.updated_at * b.refill_per_ms
      ≤ pos_part b.tokens + last b.updated_at calls * b.refill_per_ms
unfolding granted last
granted-le_from b [] z k = omega arith
granted-le_from b ((now, amount) ∷ calls) z k =
    let (z', spent, time, rate) = take-balance b now amount k.0 z in
    let b' = (take b now amount).0 in
    let ih = granted-le_from b' calls z' (rw time k.1) in
    let ih' : granted b' calls + now * b.refill_per_ms
        ≤ pos_part b'.tokens + last now calls * b.refill_per_ms =
      rw (time, rate) at ih in
    ground arith

-- A fresh bucket grants, over any calls whose clock does not step back, at most its capacity and
-- what it refills from its creation to the last call.
pub granted_bound :
    (capacity rate start : ℕ) (calls : Calls)
    → IsClock start calls
    → granted (new_bucket capacity rate start) calls + start * rate
      ≤ capacity + last start calls * rate
unfolding new_bucket
granted_bound capacity rate start calls k =
    granted-le_from
      (record {
        capacity = capacity;
        tokens = pos capacity;
        refill_per_ms = rate;
        updated_at = start;
      })
      calls refl k
