-- ===== src/Cards/Arrival.antt =====
-- lib/cards.js: a file whose chunks arrive once each, in any order, is complete with the last of them.
pub mod Steps
use vibed_st_muliplayer.Cards.Arrival.Steps.{find-alive, find-alive-none, find-put}
use vibed_st_muliplayer.Base.{
  true, drop, leb, ltb, ◌&&◌, ◌==◌, ◌∙◌, ap, ◌<◌, String, ℕ, ◌+◌, ◌-◌, ◌*◌, ◌≤◌, ◌≡◌, refl, false,
  Option, none, some, List, [], ◌∷◌, length, arith, All, Bool-cases, inl, inr, has, Nodup,
  length-take,
}
use vibed_st_muliplayer.Base.Texts.{same, same_refl}
use vibed_st_muliplayer.Relay.State.{Bytes}
use vibed_st_muliplayer.Protocol.Limits
use vibed_st_muliplayer.Cards.{
  Pushed, push_all, push, push_counted, push_bytes, open_transfer, add_part, settle, new_transfer,
  chunk_of, chunk_count, Chunk, piece, Transfer, Assembler, find_transfer, put_transfer, alive,
  has_part, set_part, filled,
}
use vibed_st_muliplayer.Cards.Chunks.{count-positive, count-bound}
use vibed_st_muliplayer.Base.{Nodup, ◌∷◌, none}
use vibed_st_muliplayer.Cards.{push_all, Chunk, new_transfer}
use vibed_st_muliplayer.Base.{All-map, length-filter-le, subst, ltb}
use vibed_st_muliplayer.Cards.Assembly.{new-IsOf}
use vibed_st_muliplayer.Cards.Parts.{has_part-holes}
use vibed_st_muliplayer.Cards.Parts.{has_part-holes}
use vibed_st_muliplayer.Cards.Parts.{has_part-holes, has_part-set_part}
use vibed_st_muliplayer.Cards.Assembly.{joined-whole, IsOf, filled-IsOf}
use vibed_st_muliplayer.Cards.Arrival.Steps.{
  IsHole, Awaits, advance, IsSmall, add_part_lem, small_enough, settle_waits, settle_completes,
  push_lem, continues,
}

-- Numbers of chunks with the times at which they arrive.
abbrev pub arriving : String → Bytes → List (ℕ × ℕ) → List (Chunk × ℕ)
arriving card file [] = []
arriving card file ((j, now) ∷ es) = (chunk_of card file j, now) ∷ arriving card file es

abbrev pub numbers : List (ℕ × ℕ) → List ℕ
numbers [] = []
numbers ((j, now) ∷ es) = j ∷ numbers es

-- No chunk comes more than two minutes after the one before it.
abbrev pub IsSteady : ℕ → List (ℕ × ℕ) → Type 0
IsSteady before [] = Unit
IsSteady before ((j, now) ∷ es) = (now - before ≤ 120000) × IsSteady now es

-- What the calls return: null, and the file with the last of them.
abbrev pub file_at_last : Bytes → List (ℕ × ℕ) → List Pushed
file_at_last file [] = []
file_at_last file (e ∷ []) = Pushed.complete file ∷ []
file_at_last file (e ∷ f ∷ es) = Pushed.waits ∷ file_at_last file (f ∷ es)

module _ (card : String) (file : Bytes) (small : IsSmall file) where
  -- The chunk at the head of the list, into the transfer: what is left to come, comes.
  goes_on :
      (j now : ℕ) (es : List (ℕ × ℕ)) (t : Transfer) (ts : Assembler) (out : Assembler × Pushed)
      → out ≡ add_part (some j) (chunk_count file) (piece j file) now t ts
      → t.card ≡ card
      → Nodup (j ∷ numbers es)
      → Awaits file (j ∷ numbers es) t
      → IsSteady now es
      → out.1 ∷ (push_all (arriving card file es) out.0).1 ≡ file_at_last file ((j, now) ∷ es)
  unfolding push_all
  goes_on j now [] t ts out e named d w steady =
      let last = advance file j now [] t d w in
      ap (λ (o : Pushed). o ∷ [])
        (ap (λ (o : Assembler × Pushed). o.1) (e ∙ add_part_lem file j now [] t ts w)
          ∙ settle_completes file (filled j (piece j file) now t) ts small last)
  goes_on j now ((k, later) ∷ es) t ts out e named d w steady =
      let t2 = filled j (piece j file) now t in
      let awaits = advance file j now (k ∷ numbers es) t d w in
      let ts2 = put_transfer t2 ts in
      let put : out ≡ (ts2, Pushed.waits) =
        e
        ∙ add_part_lem file j now (k ∷ numbers es) t ts w
        ∙ settle_waits file k (numbers es) t2 ts small awaits in
      let there : find_transfer card (alive later ts2) ≡ some t2 =
        find-alive card later ts2 t2
          (subst (λ (c : String). find_transfer c ts2 ≡ some t2) named (find-put t2 ts)) steady.0 in
      rw put (
        ap (λ (os : List Pushed). Pushed.waits ∷ os)
          (goes_on k later es t2 (alive later ts2) (push (chunk_of card file k) later ts2)
            (continues card file k later t2 ts2 small there) named d.1 awaits steady.1))

-- The transfer that the first chunk opens.
new-Awaits :
    (card : String) (file : Bytes) (now : ℕ) (js : List ℕ)
    → length js ≡ chunk_count file
    → All (λ (j : ℕ). j < chunk_count file) js
    → Awaits file js (new_transfer card (chunk_count file) now)
new-Awaits card file now js l a = record {
  of = new-IsOf card file now;
  bound = omega arith;
  rest = omega (arith, l);
  holes = All-map _ _ js (λ j h. (h, has_part-holes j (chunk_count file))) a;
}

opens :
    (card : String) (file : Bytes) (j now : ℕ) (ts : Assembler)
    → find_transfer card ts ≡ none
    → length ts < 8
    → open_transfer
        (find_transfer card (alive now ts))
        card
        (some j)
        (chunk_count file)
        (piece j file)
        now
        (alive now ts)
      ≡ add_part
          (some j)
          (chunk_count file)
          (piece j file)
          now
          (new_transfer card (chunk_count file) now)
          (put_transfer (new_transfer card (chunk_count file) now) (alive now ts))
unfolding open_transfer alive
opens card file j now ts free room =
    let shorter : length (alive now ts) ≤ length ts = length-filter-le _ ts in
    let few : leb 8 (length (alive now ts)) ≡ false = ground (arith, shorter) in
    rw (find-alive-none card now ts free, few) refl

-- A file of at most 32 MB whose chunks arrive once each, in any order and never two minutes after the one
-- before, at an assembler that has no transfer under its key and fewer than eight others: every call but
-- the last returns null, and the last one returns the file.
pub avatar_arrives :
    (card : String) (file : Bytes) (es : List (ℕ × ℕ)) (before : ℕ) (ts : Assembler)
    → length file ≤ Limits.max_frame_bytes * 8
    → find_transfer card ts ≡ none
    → length ts < 8
    → Nodup (numbers es)
    → All (λ (j : ℕ). j < chunk_count file) (numbers es)
    → length (numbers es) ≡ chunk_count file
    → IsSteady before es
    → (push_all (arriving card file es) ts).1 ≡ file_at_last file es
unfolding push_all
avatar_arrives card file [] before ts small free room d a l steady = refl
avatar_arrives card file ((j, now) ∷ es) before ts small free room d a l steady =
    let new = new_transfer card (chunk_count file) now in
    let live = alive now ts in
    goes_on card file (count-bound file small) j now es new (put_transfer new live)
      (push (chunk_of card file j) now ts)
      (push_lem card file j now ts (count-bound file small) ∙ opens card file j now ts free room)
      refl d (new-Awaits card file now (j ∷ numbers es) l a) steady.1
