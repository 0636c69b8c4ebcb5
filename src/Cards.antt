-- ===== src/Cards.antt =====
-- lib/cards.js: the chunks of an avatar, `streamAvatar`, and their assembly, `ChunkAssembler`.
pub mod Chunks
pub mod Parts
pub mod Assembly
pub mod Arrival
use vibed_st_muliplayer.Base.{
  ℕ, zero, suc, ◌+◌, ◌-◌, ◌*◌, ◌/◌, max, String, Bool, true, false, not, ◌&&◌, Option, none, some,
  List, [], ◌∷◌, ◌++◌, if◌then◌else◌, ltb, leb, ◌==◌, length, take, drop, filter,
}
use vibed_st_muliplayer.Base.Texts.{same}
use vibed_st_muliplayer.Relay.State.{Bytes}
use vibed_st_muliplayer.Protocol.Limits

-- A chunk; `none` is a number that is no natural one, or what is no array of bytes.
pub record Chunk : Type 0 where
  pub card : String
  pub seq : Option ℕ
  pub total : Option ℕ
  pub bytes : Option Bytes

-- `bytes.subarray(start, start + LIMITS.CHUNK_BYTES)`
unfoldable pub piece : ℕ → Bytes → Bytes
piece seq file = take Limits.chunk_bytes (drop (seq * Limits.chunk_bytes) file)

-- `Math.max(1, Math.ceil(bytes.length / LIMITS.CHUNK_BYTES))`
unfoldable pub chunk_count : Bytes → ℕ
chunk_count file = max 1 ((length file + (Limits.chunk_bytes - 1)) / Limits.chunk_bytes)

abbrev pub chunk_of : String → Bytes → ℕ → Chunk
chunk_of card file seq = record {
  card = card;
  seq = some seq;
  total = some (chunk_count file);
  bytes = some (piece seq file);
}

-- The loop of `streamAvatar`: as many chunks, from a number on.
unfoldable pub chunks_from : ℕ → ℕ → String → Bytes → List Chunk
unfolding piece chunk_count
chunks_from zero seq card file = []
chunks_from (suc n) seq card file = chunk_of card file seq ∷ chunks_from n (suc seq) card file

unfoldable pub stream_avatar : String → Bytes → List Chunk
unfolding chunks_from
stream_avatar card file = chunks_from (chunk_count file) 0 card file

-- A transfer that is not complete.
pub record Transfer : Type 0 where
  pub card : String
  pub total : ℕ
  pub received : ℕ
  pub size : ℕ
  pub parts : List (Option Bytes)
  pub updated_at : ℕ

-- The errors of `push`; `broken` is that of `out.set` on a part that is missing.
pub data Fault : Type 0 where
  invalid_count invalid_chunk too_many count_changed out_of_range too_large broken : Fault

-- `push` returns null, an avatar, or throws.
pub data Pushed : Type 0 where
  waits : Pushed
  complete : Bytes → Pushed
  fails : Fault → Pushed

abbrev pub Assembler : Type 0
Assembler = List Transfer

unfoldable pub find_transfer : String → Assembler → Option Transfer
find_transfer card [] = none
find_transfer card (t ∷ ts) = if same t.card card then some t else find_transfer card ts

-- The object under the card's key, changed.
unfoldable pub put_transfer : Transfer → Assembler → Assembler
put_transfer t [] = t ∷ []
put_transfer t (u ∷ us) = if same u.card t.card then t ∷ us else u ∷ put_transfer t us

unfoldable pub drop_transfer : String → Assembler → Assembler
drop_transfer card ts = filter (λ (t : Transfer). not (same t.card card)) ts

-- The loop that forgets what nobody has added to for two minutes.
unfoldable pub alive : ℕ → Assembler → Assembler
alive now ts = filter (λ (t : Transfer). not (ltb 120000 (now - t.updated_at))) ts

-- `new Array(total)`
unfoldable pub holes : ℕ → List (Option Bytes)
holes zero = []
holes (suc n) = none ∷ holes n

abbrev pub new_transfer : String → ℕ → ℕ → Transfer
new_transfer card total now = record {
  card = card;
  total = total;
  received = 0;
  size = 0;
  parts = holes total;
  updated_at = now;
}

-- `record.parts[seq]` as a truth value, and the assignment to it.
unfoldable pub has_part : ℕ → List (Option Bytes) → Bool
has_part i [] = false
has_part zero (none ∷ ps) = false
has_part zero (some b ∷ ps) = true
has_part (suc i) (p ∷ ps) = has_part i ps

unfoldable pub set_part : ℕ → Bytes → List (Option Bytes) → List (Option Bytes)
set_part i b [] = []
set_part zero b (p ∷ ps) = some b ∷ ps
set_part (suc i) b (p ∷ ps) = p ∷ set_part i b ps

-- The parts one after the other.
unfoldable pub joined_parts : List (Option Bytes) → Option Bytes
joined_parts [] = some []
joined_parts (none ∷ ps) = none
joined_parts (some b ∷ ps) = elim (joined_parts ps) [ none ↦ none | some bs ↦ some (b ++ bs) ]

abbrev pub delivered : Option Bytes → Pushed
delivered none = Pushed.fails Fault.broken
delivered (some bs) = Pushed.complete bs

abbrev pub filled : ℕ → Bytes → ℕ → Transfer → Transfer
filled seq bytes now t = record t {
  updated_at = now;
  parts = set_part seq bytes t.parts;
  received = t.received + 1;
  size = t.size + length bytes;
}

-- The end of `push`, with the part in its place.
unfoldable pub settle : Transfer → Assembler → Assembler × Pushed
unfolding put_transfer drop_transfer joined_parts
settle t ts =
    if ltb (Limits.max_frame_bytes * 8) t.size
    then (drop_transfer t.card ts, Pushed.fails Fault.too_large)
    else if ltb t.received t.total
    then (put_transfer t ts, Pushed.waits)
    else (drop_transfer t.card ts, delivered (joined_parts t.parts))

-- `push`, with the record of the card.
unfoldable pub add_part : Option ℕ → ℕ → Bytes → ℕ → Transfer → Assembler → Assembler × Pushed
unfolding settle has_part set_part
add_part none total bytes now t ts =
    if t.total == total
    then (ts, Pushed.fails Fault.out_of_range)
    else (ts, Pushed.fails Fault.count_changed)
add_part (some seq) total bytes now t ts =
    if not (t.total == total)
    then (ts, Pushed.fails Fault.count_changed)
    else if leb total seq
    then (ts, Pushed.fails Fault.out_of_range)
    else if has_part seq t.parts
    then (ts, Pushed.waits)
    else settle (filled seq bytes now t) ts

-- `push`, once the chunk is known to be one, and what is stale is gone.
unfoldable pub open_transfer :
    Option Transfer → String → Option ℕ → ℕ → Bytes → ℕ → Assembler → Assembler × Pushed
unfolding add_part put_transfer holes
open_transfer (some t) card seq total bytes now ts = add_part seq total bytes now t ts
open_transfer none card seq total bytes now ts =
    if leb 8 (length ts)
    then (ts, Pushed.fails Fault.too_many)
    else add_part seq total bytes now (new_transfer card total now)
        (put_transfer (new_transfer card total now) ts)

unfoldable pub push_bytes :
    Option Bytes → String → Option ℕ → ℕ → ℕ → Assembler → Assembler × Pushed
unfolding open_transfer find_transfer alive
push_bytes none card seq total now ts = (ts, Pushed.fails Fault.invalid_chunk)
push_bytes (some bytes) card seq total now ts =
    if ltb Limits.chunk_bytes (length bytes)
    then (ts, Pushed.fails Fault.invalid_chunk)
    else open_transfer (find_transfer card (alive now ts)) card seq total bytes now (alive now ts)

unfoldable pub push_counted :
    Option ℕ → Option Bytes → String → Option ℕ → ℕ → Assembler → Assembler × Pushed
unfolding push_bytes
push_counted none bytes card seq now ts = (ts, Pushed.fails Fault.invalid_count)
push_counted (some total) bytes card seq now ts =
    if leb 1 total && leb total 4096
    then push_bytes bytes card seq total now ts
    else (ts, Pushed.fails Fault.invalid_count)

-- `push`
unfoldable pub push : Chunk → ℕ → Assembler → Assembler × Pushed
unfolding push_counted
push c now ts = push_counted c.total c.bytes c.card c.seq now ts

-- Chunks in the order and at the times that they arrive, and what each call returns.
unfoldable pub push_all : List (Chunk × ℕ) → Assembler → Assembler × List Pushed
push_all [] ts = (ts, [])
push_all ((c, now) ∷ cs) ts =
    let out = push c now ts in let rest = push_all cs out.0 in (rest.0, out.1 ∷ rest.1)
