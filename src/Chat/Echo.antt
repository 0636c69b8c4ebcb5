-- ===== src/Chat/Echo.antt =====
-- lib/chat.js: what came from the network is not sent back.
use vibed_st_muliplayer.Chat.Memory.{holds-append}
use vibed_st_muliplayer.Base.{
  ℕ, String, true, false, ◌≡◌, refl, Option, none, some, List, [], ◌∷◌, arith, Bool-cases, inl, inr,
}
use vibed_st_muliplayer.Base.Texts.{same_refl, is_empty}
use vibed_st_muliplayer.Chat.{
  Bridge, ChatMessage, RecentIds, add_id, recalls, holds_text, remember_id, id_of, Tag,
}
use vibed_st_muliplayer.Base.{sym, arith, Bool-cases, inl, inr, refl}
use vibed_st_muliplayer.Base.Texts.{same_refl}
use vibed_st_muliplayer.Chat.{Bridge, ChatMessage, id_of, add_id, recalls, remember_id, RecentIds}
use vibed_st_muliplayer.Chat.Local.{
  Here, Kind, announce_message, on_local_message, on_local_edit, on_local_delete, message_at,
  tag_or_new, stamped_tag,
}
use vibed_st_muliplayer.Chat.Mirror.{
  Incoming, apply_remote_message, apply_remote_edit, clear_placeholder, has_message, hold_back,
}
use vibed_st_muliplayer.Relay.State.{PeerId}
use vibed_st_muliplayer.Base.{is_some, none, some}
use vibed_st_muliplayer.Base.{subst, ap, ◌∙◌, Option}
use vibed_st_muliplayer.Chat.Memory.{IsTidy, remember-recalls}

stamped-id :
    (kind : Kind) (fresh name id : String) (self : Option PeerId) (t : Option Tag)
    → id_of t ≡ some id
    → (stamped_tag kind name self (tag_or_new fresh t)).id ≡ some id
stamped-id Kind.user fresh name id self none e = ground arith
stamped-id Kind.user fresh name id self (some t) e = ground arith
stamped-id Kind.character fresh name id self none e = ground arith
stamped-id Kind.character fresh name id self (some t) e = e

announce-known :
    (h : Here) (kind : Kind) (index : ℕ) (fresh id : String) (m : ChatMessage) (b : Bridge)
    → id_of m.tag ≡ some id
    → recalls (some id) b.applied_ids ≡ true
    → (announce_message h kind index fresh (some m) b).1 ≡ []
unfolding announce_message
announce-known h kind index fresh id m b e known =
    rw (stamped-id kind fresh m.name id h.self m.tag e, known) refl

applied_known :
    (m : Incoming) (b : Bridge)
    → recalls (id_of m.tag) b.applied_ids ≡ true
    → (apply_remote_message m b).applied_ids ≡ b.applied_ids
unfolding apply_remote_message
applied_known m b known = ground arith

applied_new :
    (m : Incoming) (b : Bridge)
    → is_some m.mes ≡ true
    → recalls (id_of m.tag) b.applied_ids ≡ false
    → (apply_remote_message m b).applied_ids ≡ add_id (id_of m.tag) b.applied_ids
unfolding apply_remote_message clear_placeholder
applied_new m b text new = ground arith

-- The id of a message that was taken from the network is in the memory.
applied-recalls :
    (id : String) (m : Incoming) (b : Bridge)
    → is_empty id ≡ false
    → id_of m.tag ≡ some id
    → is_some m.mes ≡ true
    → IsTidy b.applied_ids
    → (recalls (some id) (apply_remote_message m b).applied_ids ≡ true)
      × IsTidy (apply_remote_message m b).applied_ids
unfolding add_id
applied-recalls id m b given e text t =
    let kept = λ (r : RecentIds). (recalls (some id) r ≡ true) × IsTidy r in
    elim (Bool-cases (recalls (some id) b.applied_ids)) [
      | inl known ↦ subst kept (sym (applied_known m b (rw e known))) (known, t)
      | inr new ↦
          let added : (apply_remote_message m b).applied_ids ≡ remember_id id b.applied_ids =
            applied_new m b text (rw e new)
            ∙ ap (λ (o : Option String). add_id o b.applied_ids) e in
          subst kept (sym added) (remember-recalls id b.applied_ids given t)
    ]

held_back : (id : String) (ids : List String) → holds_text id (hold_back (some id) ids) ≡ true
held_back id ids = elim (Bool-cases (holds_text id ids)) [
  | inl known ↦ rw known known
  | inr new ↦ rw (new, holds-append id ids (id ∷ []), new, same_refl id) refl
]

-- What the network brought is not sent back. When SillyTavern reports a message that was taken from a frame,
-- whatever its kind and the role of this player, nothing goes out, as long as the memory of ids is tidy,
-- which the frame leaves it; and while the id of an edited message is held back, reports of an edit
-- or a deletion of it send nothing either.
pub no_echo :
    (id fresh : String) (m : Incoming) (text : Option String) (b : Bridge) (h : Here) (kind : Kind)
    (i j : ℕ) (shown changed : ChatMessage)
    → is_empty id ≡ false
    → id_of m.tag ≡ some id
    → is_some m.mes ≡ true
    → has_message (some id) b.chat ≡ true
    → IsTidy b.applied_ids
    → message_at i (apply_remote_message m b).chat ≡ some shown
    → id_of shown.tag ≡ some id
    → message_at j (apply_remote_edit (some id) text b).chat ≡ some changed
    → id_of changed.tag ≡ some id
    → let added = apply_remote_message m b in
      let edited = apply_remote_edit (some id) text b in
      IsTidy added.applied_ids
      × ((on_local_message h kind i fresh added).1 ≡ [])
      × ((on_local_edit j edited).1 ≡ [])
      × ((on_local_delete j edited).1 ≡ [])
unfolding on_local_message on_local_edit on_local_delete apply_remote_edit
no_echo id fresh m text b h kind i j shown changed given e has here t there own there2 own2 =
    let (known, tidy) = applied-recalls id m b given e has t in
    let held : holds_text id (apply_remote_edit (some id) text b).suppress ≡ true =
      rw here (held_back id b.suppress) in
    (
      tidy,
      rw there (announce-known h kind i fresh id shown (apply_remote_message m b) own known),
      rw (there2, own2, given, held) refl,
      rw (there2, own2, given, held) refl,
    )
