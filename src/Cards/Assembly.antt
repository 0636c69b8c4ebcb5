-- ===== src/Cards/Assembly.antt =====
-- lib/cards.js: whatever else a `ChunkAssembler` is given, the transfer of one file comes to that file.
use vibed_st_muliplayer.Base.{List, leb, subst, sym, Option, ◌*◌}
use vibed_st_muliplayer.Base.{
  ℕ, ◌≤◌, ◌<◌, ◌≡◌, refl, ap, ◌∙◌, String, true, false, some, [], ◌∷◌, length, arith, All,
  All-filter, Bool-cases, inl, inr, ltb,
}
use vibed_st_muliplayer.Base.{none, ◌==◌, ◌&&◌}
use vibed_st_muliplayer.Cards.{push_all, push_counted}
use vibed_st_muliplayer.Base.{subst, sym}
use vibed_st_muliplayer.Base.Texts.{same→eq, same}
use vibed_st_muliplayer.Relay.State.{Bytes}
use vibed_st_muliplayer.Protocol.Limits
use vibed_st_muliplayer.Cards.{
  alive, push_bytes, push_counted, find_transfer, push, open_transfer, add_part, new_transfer,
  piece, chunk_count, Chunk, Transfer, Fault, Pushed, Assembler, put_transfer, drop_transfer,
  has_part, filled, settle, joined_parts, delivered,
}
use vibed_st_muliplayer.Cards.Chunks.{glued, glued_whole}
use vibed_st_muliplayer.Cards.Parts.{
  length-holes, held-holes, Fits-holes, Fits, held, Fits-set_part, held-set_part, length-set_part,
  joined-full,
}

-- A transfer of the file.
pub record IsOf (file : Bytes) (t : Transfer) : Type 0 where
  pub total : t.total ≡ chunk_count file
  pub parts : Fits 0 file t.parts
  pub received : held t.parts ≡ t.received
  pub length : length t.parts ≡ t.total

pub joined-whole :
    (file : Bytes) (t : Transfer)
    → IsOf file t
    → t.total ≤ t.received
    → joined_parts t.parts ≡ some file
joined-whole file t o h =
    joined-full 0 file t.parts o.parts (grind (arith, o.length, o.received))
    ∙ ap (λ (n : ℕ). some (glued n 0 file)) (o.length ∙ o.total)
    ∙ ap some (glued_whole file)

pub filled-IsOf :
    (file : Bytes) (s now : ℕ) (t : Transfer)
    → IsOf file t
    → s < t.total
    → has_part s t.parts ≡ false
    → IsOf file (filled s (piece s file) now t)
filled-IsOf file s now t o l hole = record {
  total = o.total;
  parts = Fits-set_part s 0 s (piece s file) file t.parts (omega arith) refl o.parts;
  received =
      held-set_part s (piece s file) t.parts hole (rw o.length l) ∙ omega (arith, o.received);
  length = length-set_part s (piece s file) t.parts ∙ o.length;
}

pub new-IsOf :
    (name : String) (file : Bytes) (now : ℕ) → IsOf file (new_transfer name (chunk_count file) now)
new-IsOf name file now = record {
  total = refl;
  parts = Fits-holes (chunk_count file) 0 file;
  received = held-holes (chunk_count file);
  length = length-holes (chunk_count file);
}

module _ (card : String) (file : Bytes) where
  abbrev pub IsOurs : Transfer → Type 0
  IsOurs t = same t.card card ≡ true → IsOf file t

  -- A chunk under the card's key is a piece of the file.
  abbrev pub IsPart : Chunk → Type 0
  IsPart c =
      same c.card card ≡ true
      → (c.total ≡ some (chunk_count file))
        × ((s : ℕ) × (c.seq ≡ some s) × (c.bytes ≡ some (piece s file)))

  -- What a call may return: no other file, and no error of a part that is missing.
  abbrev pub IsFile : Pushed → Type 0
  IsFile (Pushed.complete b) = b ≡ file
  IsFile (Pushed.fails Fault.broken) = ⊥
  IsFile _ = Unit

  abbrev pub Kept : String → Assembler × Pushed → Type 0
  Kept name out = All IsOurs out.0 × (same name card ≡ true → IsFile out.1)

  joined-IsFile :
      (t : Transfer)
      → IsOf file t
      → t.total ≤ t.received
      → IsFile (delivered (joined_parts t.parts))
  joined-IsFile t o h = rw (joined-whole file t o h) refl

  All-put :
      (t : Transfer) (ts : Assembler) → IsOurs t → All IsOurs ts → All IsOurs (put_transfer t ts)
  unfolding put_transfer
  All-put t [] o a = (o, tt)
  All-put t (u ∷ us) o a = elim (Bool-cases (same u.card t.card)) [
    | inl here ↦ rw here (o, a.1)
    | inr other ↦ rw other (a.0, All-put t us o a.1)
  ]

  settle-Kept :
      (t : Transfer) (ts : Assembler) → IsOurs t → All IsOurs ts → Kept t.card (settle t ts)
  unfolding settle drop_transfer
  settle-Kept t ts o a = elim (Bool-cases (ltb (Limits.max_frame_bytes * 8) t.size)) [
    | inl large ↦ rw large (All-filter IsOurs _ ts a, λ own. tt)
    | inr small ↦ elim (Bool-cases (ltb t.received t.total)) [
      | inl partial ↦ rw (small, partial) (All-put t ts o a, λ own. tt)
      | inr full ↦
          rw (small, full) (All-filter IsOurs _ ts a, λ own. joined-IsFile t (o own) (ground arith))
    ]
  ]

  -- What a call under a key is given, once the numbers and the bytes are known.
  abbrev IsGiven : String → Option ℕ → ℕ → Bytes → Type 0
  IsGiven name seq total bytes =
      same name card ≡ true
      → (total ≡ chunk_count file) × ((s : ℕ) × (seq ≡ some s) × (bytes ≡ piece s file))

  piece-of :
      (name : String) (s total : ℕ) (bytes : Bytes)
      → IsGiven name (some s) total bytes
      → same name card ≡ true
      → bytes ≡ piece s file
  piece-of name s total bytes g own = let (k, e, b) = (g own).1 in grind (arith, b, e)

  add_part-Kept :
      (seq : Option ℕ) (total : ℕ) (bytes : Bytes) (now : ℕ) (t : Transfer) (ts : Assembler)
      → IsGiven t.card seq total bytes
      → IsOurs t
      → All IsOurs ts
      → Kept t.card (add_part seq total bytes now t ts)
  unfolding add_part
  add_part-Kept none total bytes now t ts g o a = elim (Bool-cases (t.total == total)) [
    | inl equal ↦ rw equal (a, λ own. tt)
    | inr other ↦ rw other (a, λ own. tt)
  ]
  add_part-Kept (some s) total bytes now t ts g o a = elim (Bool-cases (t.total == total)) [
    | inr other ↦ rw other (a, λ own. tt)
    | inl equal ↦ elim (Bool-cases (leb total s)) [
      | inl beyond ↦ rw (equal, beyond) (a, λ own. tt)
      | inr within ↦ elim (Bool-cases (has_part s t.parts)) [
        | inl there ↦ rw (equal, within, there) (a, λ own. tt)
        | inr hole ↦
            rw (equal, within, hole)
              (settle-Kept (filled s bytes now t) ts
                (λ own.
                  rw (piece-of t.card s total bytes g own)
                    (filled-IsOf file s now t (o own) (ground arith) hole))
                a)
      ]
    ]
  ]

  All-find :
      (name : String) (ts : Assembler) (t : Transfer)
      → All IsOurs ts
      → find_transfer name ts ≡ some t
      → IsOurs t × (t.card ≡ name)
  unfolding find_transfer
  All-find name [] t a e = grind arith
  All-find name (u ∷ us) t a e = elim (Bool-cases (same u.card name)) [
    | inl here ↦
        let e_here : some u ≡ some t = rw here at e in
        let found : u ≡ t = grind (arith, e_here) in
        (rw (sym found) a.0, rw (sym found) (same→eq u.card name here))
    | inr other ↦
        let e_there : find_transfer name us ≡ some t = rw other at e in
        All-find name us t a.1 e_there
  ]

  open_transfer-Kept :
      (o : Option Transfer) (name : String) (seq : Option ℕ) (total : ℕ) (bytes : Bytes) (now : ℕ)
      (ts : Assembler)
      → find_transfer name ts ≡ o
      → IsGiven name seq total bytes
      → All IsOurs ts
      → Kept name (open_transfer o name seq total bytes now ts)
  unfolding open_transfer
  open_transfer-Kept (some t) name seq total bytes now ts e g a =
      let (ours, named) = All-find name ts t a e in
      subst (λ (n : String). Kept n (add_part seq total bytes now t ts)) named
        (add_part-Kept seq total bytes now t ts (rw named g) ours a)
  open_transfer-Kept none name seq total bytes now ts e g a =
      elim (Bool-cases (leb 8 (length ts))) [
        | inl full ↦ rw full (a, λ own. tt)
        | inr free ↦
            let t = new_transfer name total now in
            let ours : IsOurs t = λ own.
              subst (λ (n : ℕ). IsOf file (new_transfer name n now)) (sym (g own).0)
                (new-IsOf name file now) in
            rw free
              (add_part-Kept seq total bytes now t (put_transfer t ts) g ours (All-put t ts ours a))
      ]

  push_counted-Kept :
      (total : Option ℕ) (bytes : Option Bytes) (name : String) (seq : Option ℕ) (now : ℕ)
      (ts : Assembler)
      → (same name card ≡ true
          → (total ≡ some (chunk_count file))
            × ((s : ℕ) × (seq ≡ some s) × (bytes ≡ some (piece s file))))
      → All IsOurs ts
      → Kept name (push_counted total bytes name seq now ts)
  unfolding push_counted push_bytes alive
  push_counted-Kept none bytes name seq now ts p a = (a, λ own. tt)
  push_counted-Kept (some n) none name seq now ts p a = elim (Bool-cases (leb 1 n && leb n 4096)) [
    | inl counted ↦ rw counted (a, λ own. tt)
    | inr wrong ↦ rw wrong (a, λ own. tt)
  ]
  push_counted-Kept (some n) (some b) name seq now ts p a =
      let live : All IsOurs (alive now ts) = All-filter IsOurs _ ts a in
      let given : IsGiven name seq n b = λ own.
        let (t, rest) = p own in
        let (s, e, w) = rest in (grind (arith, t), (s, e, grind (arith, w))) in
      elim (Bool-cases (leb 1 n && leb n 4096)) [
        | inr wrong ↦ rw wrong (a, λ own. tt)
        | inl counted ↦ elim (Bool-cases (ltb Limits.chunk_bytes (length b))) [
          | inl large ↦ rw (counted, large) (a, λ own. tt)
          | inr fits ↦
              rw (counted, fits)
                (open_transfer-Kept (find_transfer name (alive now ts)) name seq n b now
                  (alive now ts) refl given live)
        ]
      ]

  -- Every call that says a transfer is complete gives the file, if its key is the card's.
  abbrev pub AllWhole : List (Chunk × ℕ) → List Pushed → Type 0
  AllWhole [] outs = Unit
  AllWhole ((c, now) ∷ cs) [] = Unit
  AllWhole ((c, now) ∷ cs) (o ∷ outs) = (same c.card card ≡ true → IsFile o) × AllWhole cs outs

  run-AllWhole :
      (cs : List (Chunk × ℕ)) (ts : Assembler)
      → All (λ (e : Chunk × ℕ). IsPart e.0) cs
      → All IsOurs ts
      → AllWhole cs (push_all cs ts).1
  unfolding push_all push
  run-AllWhole [] ts p a = tt
  run-AllWhole ((c, now) ∷ cs) ts p a =
      let (kept, whole) = push_counted-Kept c.total c.bytes c.card c.seq now ts p.0 a in
      (whole, run-AllWhole cs _ p.1 kept)

-- Whatever an assembler is given, in whatever order, with repetitions, gaps, other cards' chunks and broken
-- ones in between: if the chunks under one key are pieces of one file, no call under that key returns
-- other bytes than the file, and none meets a part that is missing.
pub avatar_is_whole :
    (card : String) (file : Bytes) (cs : List (Chunk × ℕ))
    → All (λ (e : Chunk × ℕ). IsPart card file e.0) cs
    → AllWhole card file cs (push_all cs []).1
avatar_is_whole card file cs p = run-AllWhole card file cs [] p tt
