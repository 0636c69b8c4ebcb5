-- ===== src/Chat/Refinement.antt =====
-- lib/chat.js: every frame changes the transcript as it changes a replica.
use vibed_st_muliplayer.Chat.Replica.{
  ChatFrame, chat_step, Replica, replica, replica_step, IsAddressed,
}
use vibed_st_muliplayer.Chat.Transcript.{
  is_real, transcript, IsMarked, filter-append, write-real, clear-real, streams-append, has-real,
  edit-real, remove-real_first, mirrored-real, mirror_all-real, IsMarked-mirrored, All-mirrored,
  All-edit_first, All-remove_first, All-write_at, All-clear_at,
}
use vibed_st_muliplayer.Base.{All-append, sym, ◌∙◌}
use vibed_st_muliplayer.Base.Texts.{cut}
use vibed_st_muliplayer.Chat.Mirror.{has_placeholder, ensure_placeholder, write_placeholder}
use mathlib.Core.List.{append-nil}
use vibed_st_muliplayer.Base.{◌||◌, if◌then◌else◌, is_some}
use vibed_st_muliplayer.Chat.{RecentIds, add_id, recalls}
use vibed_st_muliplayer.Chat.Mirror.{text_or, is_given, add_ids}
use vibed_st_muliplayer.Base.{ap, false}
use vibed_st_muliplayer.Chat.Mirror.{mirrored, edit_first, remove_first}
use vibed_st_muliplayer.Base.{
  ℕ, ◌≡◌, refl, String, Bool, true, not, Option, none, some, List, [], ◌∷◌, ◌++◌, filter, All,
  arith, Bool-cases, inl, inr,
}
use vibed_st_muliplayer.Chat.{ChatMessage, Bridge, id_of}
use vibed_st_muliplayer.Chat.Mirror.{
  Incoming, has_message, clear_at, apply_remote_message, apply_remote_edit, apply_remote_delete,
  end_stream, blank, apply_stream_token, apply_snapshot,
}

edit-missing :
    (id : Option String) (text : String) (ms : List ChatMessage)
    → has_message id ms ≡ false
    → edit_first id text ms ≡ ms
unfolding edit_first has_message
edit-missing id text [] h = refl
edit-missing id text (m ∷ ms) h = ground (arith, edit-missing id text ms)

remove-missing :
    (id : Option String) (ms : List ChatMessage)
    → has_message id ms ≡ false
    → remove_first id ms ≡ ms
unfolding remove_first has_message
remove-missing id [] h = refl
remove-missing id (m ∷ ms) h = ground (arith, remove-missing id ms)

-- A step of a bridge is a step of its replica, and keeps the marks.
abbrev Refines : ChatFrame → Bridge → Bridge → Type 0
Refines f b c = (replica c ≡ replica_step f (replica b)) × All IsMarked c.chat

same_applied :
    (ms ns : List ChatMessage) (r : RecentIds)
    → ms ≡ ns
    → ◌≡◌ {A = Replica}
        (record { messages = ms; applied = r })
        (record { messages = ns; applied = r })
same_applied ms ns r e = ap (λ (xs : List ChatMessage). record { messages = xs; applied = r }) e

appended :
    (m : Incoming) (p : Option ℕ) (ms : List ChatMessage)
    → filter is_real (clear_at p (ms ++ mirrored m ∷ [])) ≡ filter is_real ms ++ mirrored m ∷ []
appended m p ms =
    clear-real p (ms ++ mirrored m ∷ [])
    ∙ filter-append ms (mirrored m ∷ [])
    ∙ (rw (mirrored-real m) refl)

if-Refines :
    (f : ChatFrame) (b : Bridge) (t : Bool) (x y : Bridge)
    → (t ≡ true → Refines f b x)
    → (t ≡ false → Refines f b y)
    → Refines f b (if t then x else y)
if-Refines f b true x y h k = h refl
if-Refines f b false x y h k = k refl

append-Refines :
    (m : Incoming) (b : Bridge)
    → All IsMarked b.chat
    → Refines (ChatFrame.append m) b (apply_remote_message m b)
unfolding apply_remote_message replica_step
append-Refines m b a =
    elim (Bool-cases (not (is_some m.mes) || recalls (id_of m.tag) b.applied_ids)) [
      | inl known ↦ rw known (refl, a)
      | inr new ↦ rw new (
        same_applied _ _ (add_id (id_of m.tag) b.applied_ids) (appended m b.placeholder b.chat),
        All-clear_at b.placeholder (b.chat ++ mirrored m ∷ [])
            (All-append IsMarked b.chat (mirrored m ∷ []) a (IsMarked-mirrored m, tt)),
      )
    ]

edit-Refines :
    (id : String) (text : Option String) (b : Bridge)
    → All IsMarked b.chat
    → Refines (ChatFrame.edit id text) b (apply_remote_edit (some id) text b)
unfolding apply_remote_edit replica_step
edit-Refines id text b a =
    let new = cut 100000 (text_or "" text) in
    elim (Bool-cases (has_message (some id) b.chat)) [
      | inl here ↦ rw here (
        same_applied _ _ b.applied_ids (edit-real id new b.chat a),
        All-edit_first (some id) new b.chat a,
      )
      | inr missing ↦ rw missing (
        same_applied _ _ b.applied_ids
            (sym (edit-missing (some id) new (transcript b) (has-real id b.chat a ∙ missing))),
        a,
      )
    ]

delete-Refines :
    (id : String) (index : Option ℕ) (b : Bridge)
    → is_given (some id) ≡ true
    → All IsMarked b.chat
    → Refines (ChatFrame.delete id index) b (apply_remote_delete (some id) index b)
unfolding apply_remote_delete replica_step
delete-Refines id index b given a = elim (Bool-cases (has_message (some id) b.chat)) [
  | inl here ↦
      rw (given, here)
        (
          same_applied _ _ b.applied_ids (remove-real_first id b.chat a),
          All-remove_first (some id) b.chat a,
        )
  | inr missing ↦
      rw (given, missing)
        (
          same_applied _ _ b.applied_ids
              (sym (remove-missing (some id) (transcript b) (has-real id b.chat a ∙ missing))),
          a,
        )
]

IsMarked-blank : (name : String) → IsMarked (blank name)
IsMarked-blank name h = refl

-- The placeholder is there, and it is one.
ready-streams :
    (name : String) (b : Bridge)
    → has_placeholder (ensure_placeholder name b).placeholder (ensure_placeholder name b).chat
      ≡ true
unfolding ensure_placeholder
ready-streams name b = elim (Bool-cases (has_placeholder b.placeholder b.chat)) [
  | inl there ↦ rw there there
  | inr missing ↦ rw missing (streams-append name b.chat)
]

ready-Refines :
    (name : String) (b : Bridge)
    → All IsMarked b.chat
    → Refines ChatFrame.gen_start b (ensure_placeholder name b)
unfolding ensure_placeholder replica_step
ready-Refines name b a = elim (Bool-cases (has_placeholder b.placeholder b.chat)) [
  | inl there ↦ rw there (refl, a)
  | inr missing ↦ rw missing (
    same_applied _ _ b.applied_ids
        (filter-append b.chat (blank name ∷ []) ∙ append-nil (transcript b)),
    All-append IsMarked b.chat (blank name ∷ []) a (IsMarked-blank name, tt),
  )
]

write-Refines :
    (text : String) (p : Option ℕ) (ms : List ChatMessage)
    → has_placeholder p ms ≡ true
    → All IsMarked ms
    → (filter is_real (write_placeholder p text ms) ≡ filter is_real ms)
      × All IsMarked (write_placeholder p text ms)
write-Refines text none ms h a = cc
write-Refines text (some i) ms h a = (write-real i text ms h, All-write_at i text ms a)

token-Refines :
    (name : String) (text : Option String) (b : Bridge)
    → All IsMarked b.chat
    → Refines (ChatFrame.gen_token name text) b (apply_stream_token name text b)
unfolding apply_stream_token replica_step
token-Refines name text b a =
    let ready = ensure_placeholder name b in
    let began = ready-Refines name b a in
    let written =
      write-Refines (cut 100000 (text_or "" text)) ready.placeholder ready.chat
        (ready-streams name b) began.1 in
    if-Refines (ChatFrame.gen_token name text) b b.stream_active _ _
      (λ active. (
        same_applied _ _ ready.applied_ids written.0 ∙ (unfold replica_step in began.0),
        written.1,
      ))
      (λ idle. (refl, a))

end-Refines : (b : Bridge) → All IsMarked b.chat → Refines ChatFrame.gen_end b (end_stream b)
unfolding end_stream replica_step
end-Refines b a = (
  same_applied _ _ b.applied_ids (clear-real b.placeholder b.chat),
  All-clear_at b.placeholder b.chat a,
)

state-Refines :
    (ms : List Incoming) (b : Bridge) → Refines (ChatFrame.state ms) b (apply_snapshot ms b)
unfolding apply_snapshot replica_step
state-Refines ms b =
    (same_applied _ _ (add_ids ms b.applied_ids) (mirror_all-real ms), All-mirrored ms)

pub step-Refines :
    (f : ChatFrame) (b : Bridge) → IsAddressed f → All IsMarked b.chat → Refines f b (chat_step f b)
unfolding chat_step
step-Refines (ChatFrame.append m) b h a = append-Refines m b a
step-Refines (ChatFrame.edit id text) b h a = edit-Refines id text b a
step-Refines (ChatFrame.delete id index) b h a = delete-Refines id index b h a
step-Refines (ChatFrame.state ms) b h a = state-Refines ms b
step-Refines ChatFrame.gen_start b h a = unfold replica_step in (refl, a)
step-Refines (ChatFrame.gen_token name text) b h a = token-Refines name text b a
step-Refines ChatFrame.gen_end b h a = end-Refines b a
