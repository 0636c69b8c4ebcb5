-- ===== src/Cards/Arrival/Steps.antt =====
-- lib/cards.js: one call of `push` for a chunk of a file, on a transfer of that file.
use vibed_st_muliplayer.Base.{
  true, drop, leb, ltb, ◌&&◌, ◌==◌, ◌∙◌, ap, ◌<◌, String, ℕ, ◌+◌, ◌-◌, ◌*◌, ◌≤◌, ◌≡◌, refl, false,
  Option, none, some, List, [], ◌∷◌, length, arith, All, Bool-cases, inl, inr, has, Nodup,
  length-take,
}
use vibed_st_muliplayer.Base.Texts.{same, same_refl}
use vibed_st_muliplayer.Relay.State.{Bytes}
use vibed_st_muliplayer.Protocol.Limits
use vibed_st_muliplayer.Cards.{
  Pushed, push, push_counted, push_bytes, open_transfer, add_part, settle, chunk_of, chunk_count,
  piece, Transfer, Assembler, find_transfer, put_transfer, alive, has_part, set_part, filled,
}
use vibed_st_muliplayer.Cards.Chunks.{count-positive}
use vibed_st_muliplayer.Base.{Nodup, ◌∷◌, none}
use vibed_st_muliplayer.Base.{ltb}
use vibed_st_muliplayer.Cards.Parts.{has_part-set_part}
use vibed_st_muliplayer.Cards.Assembly.{joined-whole, IsOf, filled-IsOf}

-- The transfers of the others do not matter to the one under a key.
pub find-alive :
    (card : String) (now : ℕ) (ts : Assembler) (t : Transfer)
    → find_transfer card ts ≡ some t
    → now - t.updated_at ≤ 120000
    → find_transfer card (alive now ts) ≡ some t
unfolding find_transfer alive
find-alive card now [] t e h = e
find-alive card now (u ∷ us) t e h = ground (arith, find-alive card now us t)

pub find-alive-none :
    (card : String) (now : ℕ) (ts : Assembler)
    → find_transfer card ts ≡ none
    → find_transfer card (alive now ts) ≡ none
unfolding find_transfer alive
find-alive-none card now [] e = e
find-alive-none card now (u ∷ us) e = ground (arith, find-alive-none card now us)

pub find-put : (t : Transfer) (ts : Assembler) → find_transfer t.card (put_transfer t ts) ≡ some t
unfolding find_transfer put_transfer
find-put t [] = rw (same_refl t.card) refl
find-put t (u ∷ us) = elim (Bool-cases (same u.card t.card)) [
  | inl here ↦ rw (here, same_refl t.card) refl
  | inr other ↦ rw (other, other) (find-put t us)
]

abbrev pub IsHole : List (Option Bytes) → ℕ → ℕ → Type 0
IsHole ps total j = (j < total) × (has_part j ps ≡ false)

holes-set_part :
    (j total : ℕ) (b : Bytes) (ps : List (Option Bytes)) (js : List ℕ)
    → has j js ≡ false
    → All (IsHole ps total) js
    → All (IsHole (set_part j b ps) total) js
holes-set_part j total b ps [] h a = tt
holes-set_part j total b ps (x ∷ js) h a =
    let apart : (j == x) ≡ false = ground arith in
    let later : has j js ≡ false = ground arith in
    ((a.0.0, has_part-set_part j x b ps apart ∙ a.0.1), holes-set_part j total b ps js later a.1)

-- A transfer of the file that waits for the chunks with these numbers.
pub record Awaits (file : Bytes) (js : List ℕ) (t : Transfer) : Type 0 where
  pub of : IsOf file t
  pub bound : t.size ≤ t.received * Limits.chunk_bytes
  pub rest : t.received + length js ≡ t.total
  pub holes : All (IsHole t.parts t.total) js

length-piece : (j : ℕ) (file : Bytes) → length (piece j file) ≤ Limits.chunk_bytes
unfolding piece
length-piece j file =
    omega (arith, length-take Limits.chunk_bytes (drop (j * Limits.chunk_bytes) file))

pub advance :
    (file : Bytes) (j now : ℕ) (js : List ℕ) (t : Transfer)
    → Nodup (j ∷ js)
    → Awaits file (j ∷ js) t
    → Awaits file js (filled j (piece j file) now t)
advance file j now js t d w = record {
  of = filled-IsOf file j now t w.of w.holes.0.0 w.holes.0.1;
  bound = omega (arith, length-piece j file, w.bound);
  rest = omega (arith, w.rest);
  holes = holes-set_part j t.total (piece j file) t.parts js d.0 w.holes.1;
}

-- A file of at most 32 MB, whose chunks the code's bounds let pass.
abbrev pub IsSmall : Bytes → Type 0
IsSmall file = chunk_count file ≤ 128

pub add_part_lem :
    (file : Bytes) (j now : ℕ) (js : List ℕ) (t : Transfer) (ts : Assembler)
    → Awaits file (j ∷ js) t
    → add_part (some j) (chunk_count file) (piece j file) now t ts
      ≡ settle (filled j (piece j file) now t) ts
unfolding add_part
add_part_lem file j now js t ts w =
    let equal : (t.total == chunk_count file) ≡ true = ground (arith, w.of.total) in
    let within : leb (chunk_count file) j ≡ false = ground (arith, w.of.total, w.holes.0.0) in
    rw (equal, within, w.holes.0.1) refl

pub small_enough :
    (file : Bytes) (js : List ℕ) (t : Transfer)
    → IsSmall file
    → Awaits file js t
    → ltb (Limits.max_frame_bytes * 8) t.size ≡ false
small_enough file js t s w = ground (arith, w.of.total, w.bound, w.rest)

pub settle_waits :
    (file : Bytes) (k : ℕ) (js : List ℕ) (t : Transfer) (ts : Assembler)
    → IsSmall file
    → Awaits file (k ∷ js) t
    → settle t ts ≡ (put_transfer t ts, Pushed.waits)
unfolding settle
settle_waits file k js t ts s w =
    let partial : ltb t.received t.total ≡ true = ground (arith, w.rest) in
    rw (small_enough file (k ∷ js) t s w, partial) refl

pub settle_completes :
    (file : Bytes) (t : Transfer) (ts : Assembler)
    → IsSmall file
    → Awaits file [] t
    → (settle t ts).1 ≡ Pushed.complete file
unfolding settle
settle_completes file t ts s w =
    let full : ltb t.received t.total ≡ false = ground (arith, w.rest) in
    rw (small_enough file [] t s w, full, joined-whole file t w.of (omega (arith, w.rest))) refl

pub push_lem :
    (card : String) (file : Bytes) (j now : ℕ) (ts : Assembler)
    → IsSmall file
    → push (chunk_of card file j) now ts
      ≡ open_transfer
          (find_transfer card (alive now ts))
          card
          (some j)
          (chunk_count file)
          (piece j file)
          now
          (alive now ts)
unfolding push push_counted push_bytes
push_lem card file j now ts s =
    let counted : (leb 1 (chunk_count file) && leb (chunk_count file) 4096) ≡ true =
      ground (arith, count-positive file) in
    let fits : ltb Limits.chunk_bytes (length (piece j file)) ≡ false =
      ground (arith, length-piece j file) in
    rw (counted, fits) refl

pub continues :
    (card : String) (file : Bytes) (j now : ℕ) (t : Transfer) (ts : Assembler)
    → IsSmall file
    → find_transfer card (alive now ts) ≡ some t
    → push (chunk_of card file j) now ts
      ≡ add_part (some j) (chunk_count file) (piece j file) now t (alive now ts)
unfolding open_transfer
continues card file j now t ts s there =
    push_lem card file j now ts s
    ∙ ap
        (λ (o : Option Transfer).
          open_transfer o card (some j) (chunk_count file) (piece j file) now (alive now ts))
        there
