-- ===== src/Chat/Transcript.antt =====
-- lib/chat.js: the messages of a chat that are no placeholder, under each change of the chat.
use vibed_st_muliplayer.Base.Texts.{same}
use vibed_st_muliplayer.Base.{ap, false}
use vibed_st_muliplayer.Chat.{Tag, same_id}
use vibed_st_muliplayer.Chat.Mirror.{mirrored_tag, mirrored, edit_first, remove_first, mirror_all}
use vibed_st_muliplayer.Base.{
  ℕ, zero, suc, ◌≡◌, refl, String, Bool, true, not, Option, none, some, List, [], ◌∷◌, ◌++◌, length,
  filter, All, arith, Bool-cases, inl, inr,
}
use vibed_st_muliplayer.Chat.{ChatMessage, Bridge, id_of, is_streaming}
use vibed_st_muliplayer.Chat.Mirror.{
  Incoming, remove_at, streams_at, write_at, has_message, clear_at, blank,
}

-- The transcript: the messages that are no placeholder.
abbrev pub is_real : ChatMessage → Bool
is_real m = not (is_streaming m.tag)

abbrev pub transcript : Bridge → List ChatMessage
transcript b = filter is_real b.chat

-- A placeholder has no id.
abbrev pub IsMarked : ChatMessage → Type 0
IsMarked m = is_streaming m.tag ≡ true → id_of m.tag ≡ none

pub filter-append :
    (xs ys : List ChatMessage) → filter is_real (xs ++ ys) ≡ filter is_real xs ++ filter is_real ys
filter-append [] ys = refl
filter-append (x ∷ xs) ys = ground (arith, filter-append xs ys)

remove-real :
    (i : ℕ) (ms : List ChatMessage)
    → streams_at i ms ≡ true
    → filter is_real (remove_at i ms) ≡ filter is_real ms
unfolding streams_at remove_at
remove-real i [] h = cc
remove-real zero (m ∷ ms) h = ground arith
remove-real (suc i) (m ∷ ms) h = ground (arith, remove-real i ms h)

pub write-real :
    (i : ℕ) (text : String) (ms : List ChatMessage)
    → streams_at i ms ≡ true
    → filter is_real (write_at i text ms) ≡ filter is_real ms
unfolding streams_at write_at
write-real i text [] h = cc
write-real zero text (m ∷ ms) h = ground arith
write-real (suc i) text (m ∷ ms) h = ground (arith, write-real i text ms h)

pub clear-real :
    (p : Option ℕ) (ms : List ChatMessage) → filter is_real (clear_at p ms) ≡ filter is_real ms
unfolding clear_at
clear-real none ms = refl
clear-real (some i) ms = elim (Bool-cases (streams_at i ms)) [
  | inl streams ↦ rw streams (remove-real i ms streams)
  | inr other ↦ rw other refl
]

pub streams-append :
    (name : String) (ms : List ChatMessage) → streams_at (length ms) (ms ++ blank name ∷ []) ≡ true
unfolding streams_at
streams-append name [] = refl
streams-append name (m ∷ ms) = streams-append name ms

-- An id is looked for among the real messages only.
pub has-real :
    (id : String) (ms : List ChatMessage)
    → All IsMarked ms
    → has_message (some id) (filter is_real ms) ≡ has_message (some id) ms
unfolding has_message
has-real id [] a = refl
has-real id (m ∷ ms) a = elim (Bool-cases (is_streaming m.tag)) [
  | inl streams ↦ rw (streams, a.0 streams) (has-real id ms a.1)
  | inr other ↦ rw (other, has-real id ms a.1) refl
]

pub edit-real :
    (id text : String) (ms : List ChatMessage)
    → All IsMarked ms
    → filter is_real (edit_first (some id) text ms) ≡ edit_first (some id) text (filter is_real ms)
unfolding edit_first
edit-real id text [] a = refl
edit-real id text (m ∷ ms) a = elim (Bool-cases (is_streaming m.tag)) [
  | inl streams ↦ rw (streams, a.0 streams, streams) (edit-real id text ms a.1)
  | inr other ↦ elim (Bool-cases (same_id (id_of m.tag) (some id))) [
    | inl same ↦ rw (other, same, other) refl
    | inr different ↦
        rw (other, different, other)
          (ap (λ (xs : List ChatMessage). m ∷ xs) (edit-real id text ms a.1))
  ]
]

pub remove-real_first :
    (id : String) (ms : List ChatMessage)
    → All IsMarked ms
    → filter is_real (remove_first (some id) ms) ≡ remove_first (some id) (filter is_real ms)
unfolding remove_first
remove-real_first id [] a = refl
remove-real_first id (m ∷ ms) a = elim (Bool-cases (is_streaming m.tag)) [
  | inl streams ↦ rw (streams, a.0 streams, streams) (remove-real_first id ms a.1)
  | inr other ↦ elim (Bool-cases (same_id (id_of m.tag) (some id))) [
    | inl same ↦ rw (other, same) refl
    | inr different ↦
        rw (other, different, other)
          (ap (λ (xs : List ChatMessage). m ∷ xs) (remove-real_first id ms a.1))
  ]
]

pub mirrored-real : (m : Incoming) → is_streaming (mirrored m).tag ≡ false
unfolding mirrored
mirrored-real m = tag-real m.tag
  where
    tag-real : (t : Option Tag) → (mirrored_tag t).streaming ≡ false
    tag-real none = refl
    tag-real (some t) = refl

pub mirror_all-real : (ms : List Incoming) → filter is_real (mirror_all ms) ≡ mirror_all ms
unfolding mirror_all
mirror_all-real [] = refl
mirror_all-real (m ∷ ms) =
    rw (mirrored-real m) (ap (λ (xs : List ChatMessage). mirrored m ∷ xs) (mirror_all-real ms))

-- The marks stay.
pub IsMarked-mirrored : (m : Incoming) → IsMarked (mirrored m)
IsMarked-mirrored m h = absurd (cc (mirrored-real m))

pub All-mirrored : (ms : List Incoming) → All IsMarked (mirror_all ms)
unfolding mirror_all
All-mirrored [] = tt
All-mirrored (m ∷ ms) = (IsMarked-mirrored m, All-mirrored ms)

pub All-edit_first :
    (id : Option String) (text : String) (ms : List ChatMessage)
    → All IsMarked ms
    → All IsMarked (edit_first id text ms)
unfolding edit_first
All-edit_first id text [] a = tt
All-edit_first id text (m ∷ ms) a = elim (Bool-cases (same_id (id_of m.tag) id)) [
  | inl same ↦ rw same (a.0, a.1)
  | inr other ↦ rw other (a.0, All-edit_first id text ms a.1)
]

pub All-remove_first :
    (id : Option String) (ms : List ChatMessage)
    → All IsMarked ms
    → All IsMarked (remove_first id ms)
unfolding remove_first
All-remove_first id [] a = tt
All-remove_first id (m ∷ ms) a = elim (Bool-cases (same_id (id_of m.tag) id)) [
  | inl same ↦ rw same a.1
  | inr other ↦ rw other (a.0, All-remove_first id ms a.1)
]

All-remove_at : (i : ℕ) (ms : List ChatMessage) → All IsMarked ms → All IsMarked (remove_at i ms)
unfolding remove_at
All-remove_at i [] a = tt
All-remove_at zero (m ∷ ms) a = a.1
All-remove_at (suc i) (m ∷ ms) a = (a.0, All-remove_at i ms a.1)

pub All-write_at :
    (i : ℕ) (text : String) (ms : List ChatMessage)
    → All IsMarked ms
    → All IsMarked (write_at i text ms)
unfolding write_at
All-write_at i text [] a = tt
All-write_at zero text (m ∷ ms) a = a
All-write_at (suc i) text (m ∷ ms) a = (a.0, All-write_at i text ms a.1)

pub All-clear_at :
    (p : Option ℕ) (ms : List ChatMessage) → All IsMarked ms → All IsMarked (clear_at p ms)
unfolding clear_at
All-clear_at none ms a = a
All-clear_at (some i) ms a = elim (Bool-cases (streams_at i ms)) [
  | inl streams ↦ rw streams (All-remove_at i ms a)
  | inr other ↦ rw other a
]
