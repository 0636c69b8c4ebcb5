-- ===== src/Chat/Mirroring.antt =====
-- lib/chat.js: a host that writes and edits messages, and a client that applies the frames about them.
use vibed_st_muliplayer.Base.{
  ℕ, zero, suc, String, true, false, ◌||◌, ◌≡◌, refl, ap, ◌∙◌, subst, Option, none, some, List, [],
  ◌∷◌, ◌++◌, map, arith, Bool-cases, inl, inr, length,
}
use vibed_st_muliplayer.Base.Texts.{same, same_refl, is_empty, cut}
use vibed_st_muliplayer.Chat.{
  Bridge, ChatMessage, RecentIds, Tag, id_of, same_id, recalls, holds_text, remember_id,
}
use vibed_st_muliplayer.Chat.Mirror.{mirrored, edit_first, has_message, write_at}
use vibed_st_muliplayer.Chat.Local.{
  Sent, Kind, Here, Sends, serialise, message_at, put_at, on_local_message, on_local_edit,
  announce_message, forward_message, stamped_message, tag_of,
}
use vibed_st_muliplayer.Chat.Replica.{ChatFrame, Replica}
use vibed_st_muliplayer.Base.Texts.{same_sym, same→eq, same_refl}
use vibed_st_muliplayer.Chat.Mirror.{mirrored_tag}
use vibed_st_muliplayer.Chat.Local.{stamped_tag, tag_or_new}
use vibed_st_muliplayer.Relay.State.{PeerId}

-- SillyTavern adds a message to the host's chat, or changes the text of one, and reports it.
pub data Change : Type 0 where
  writes : Kind → String → ChatMessage → Change
  rewrites : ℕ → String → Change

-- What a client gets of the frames.
abbrev pub carried : List Sent → List ChatFrame
carried [] = []
carried (Sent.chat_append m ∷ ss) = ChatFrame.append m ∷ carried ss
carried (Sent.chat_edit id text ∷ ss) = ChatFrame.edit id (some text) ∷ carried ss
carried (_ ∷ ss) = carried ss

unfoldable pub host_step : Here → Change → Sends
unfolding on_local_message on_local_edit write_at
host_step h (Change.writes kind fresh m) b =
    on_local_message h kind (length b.chat) fresh (record b { chat = b.chat ++ m ∷ [] })
host_step h (Change.rewrites i text) b =
    on_local_edit i (record b { chat = write_at i text b.chat })

-- A message of the host as a client shows it.
unfoldable pub shown : Here → ChatMessage → ChatMessage
unfolding mirrored serialise
shown h m = mirrored (serialise h.portrait m)

abbrev pub IsAbsent : Option String → List ChatMessage → Type 0
IsAbsent none ms = Unit
IsAbsent (some id) ms = has_message (some id) ms ≡ false

-- No id twice.
abbrev pub IsUnique : List ChatMessage → Type 0
IsUnique [] = Unit
IsUnique (m ∷ ms) = IsAbsent (id_of m.tag) ms × IsUnique ms

-- The memory has no ids but those of the chat.
abbrev pub IsWithin : RecentIds → List ChatMessage → Type 0
IsWithin r ms = (id : String) → has_message (some id) ms ≡ false → recalls (some id) r ≡ false

-- The client shows the host's chat.
pub record Mirrors (h : Here) (b : Bridge) (r : Replica) : Type 0 where
  pub messages : r.messages ≡ map (shown h) b.chat
  pub unique : IsUnique b.chat
  pub here : IsWithin b.applied_ids b.chat
  pub there : IsWithin r.applied b.chat

-- A new message has no tag yet and gets a new id; an edited one has an id that is not held back.
abbrev pub IsSound : Change → Bridge → Type 0
IsSound (Change.writes kind fresh m) b =
    (m.tag ≡ none) × (is_empty fresh ≡ false) × (has_message (some fresh) b.chat ≡ false)
IsSound (Change.rewrites i text) b =
    (id : String) × (id_of (tag_of (message_at i b.chat)) ≡ some id)
    × (is_empty id ≡ false)
    × (holds_text id b.suppress ≡ false)

pub has-append :
    (id : String) (ms ns : List ChatMessage)
    → has_message (some id) (ms ++ ns) ≡ (has_message (some id) ms || has_message (some id) ns)
unfolding has_message
has-append id [] ns = refl
has-append id (m ∷ ms) ns = ground (arith, has-append id ms ns)

message_last :
    (m : ChatMessage) (ms : List ChatMessage) → message_at (length ms) (ms ++ m ∷ []) ≡ some m
unfolding message_at
message_last m [] = refl
message_last m (x ∷ ms) = message_last m ms

put_last :
    (m n : ChatMessage) (ms : List ChatMessage) → put_at (length ms) n (ms ++ m ∷ []) ≡ ms ++ n ∷ []
unfolding put_at
put_last m n [] = refl
put_last m n (x ∷ ms) = ap (λ (xs : List ChatMessage). x ∷ xs) (put_last m n ms)

pub map-last :
    (f : ChatMessage → ChatMessage) (m : ChatMessage) (ms : List ChatMessage)
    → map f (ms ++ m ∷ []) ≡ map f ms ++ f m ∷ []
map-last f m [] = refl
map-last f m (x ∷ ms) = ap (λ (xs : List ChatMessage). f x ∷ xs) (map-last f m ms)

IsAbsent-nil : (o : Option String) → IsAbsent o []
unfolding has_message
IsAbsent-nil none = tt
IsAbsent-nil (some id) = refl

IsAbsent-last :
    (o : Option String) (fresh : String) (n : ChatMessage) (ms : List ChatMessage)
    → id_of n.tag ≡ some fresh
    → same_id o (some fresh) ≡ false
    → IsAbsent o ms
    → IsAbsent o (ms ++ n ∷ [])
IsAbsent-last none fresh n ms e d a = tt
IsAbsent-last (some id) fresh n ms e d a =
    has-append id ms (n ∷ []) ∙ (unfold has_message in rw (a, e, same_sym id fresh d) refl)

pub IsUnique-last :
    (fresh : String) (n : ChatMessage) (ms : List ChatMessage)
    → id_of n.tag ≡ some fresh
    → has_message (some fresh) ms ≡ false
    → IsUnique ms
    → IsUnique (ms ++ n ∷ [])
unfolding has_message
IsUnique-last fresh n [] e a u = (IsAbsent-nil (id_of n.tag), tt)
IsUnique-last fresh n (m ∷ ms) e a u =
    let apart : same_id (id_of m.tag) (some fresh) ≡ false = ground arith in
    let later : has_message (some fresh) ms ≡ false = ground arith in
    (IsAbsent-last (id_of m.tag) fresh n ms e apart u.0, IsUnique-last fresh n ms e later u.1)

mirrored-id : (t : Option Tag) → (mirrored_tag t).id ≡ id_of t
mirrored-id none = refl
mirrored-id (some t) = refl

pub at-has :
    (i : ℕ) (id : String) (ms : List ChatMessage)
    → id_of (tag_of (message_at i ms)) ≡ some id
    → has_message (some id) ms ≡ true
unfolding message_at has_message
at-has i id [] e = ground arith
at-has zero id (m ∷ ms) e = rw (e, same_refl id) refl
at-has (suc i) id (m ∷ ms) e = ground (arith, at-has i id ms e)

absent-apart :
    (o : Option String) (id : String) (ms : List ChatMessage)
    → IsAbsent o ms
    → has_message (some id) ms ≡ true
    → same_id o (some id) ≡ false
absent-apart none id ms a e = refl
absent-apart (some k) id ms a e = elim (Bool-cases (same k id)) [
  | inr other ↦ other
  | inl equal ↦
      let again : has_message (some id) ms ≡ false =
        subst (λ (x : String). has_message (some x) ms ≡ false) (same→eq k id equal) a in
      ground arith
]

-- An edit of one message of the chat is the edit of that message at the client.
pub edit-map :
    (h : Here) (i : ℕ) (text id : String) (ms : List ChatMessage)
    → id_of (tag_of (message_at i ms)) ≡ some id
    → IsUnique ms
    → edit_first (some id) (cut 100000 text) (map (shown h) ms) ≡ map (shown h) (write_at i text ms)
unfolding edit_first message_at write_at shown mirrored serialise has_message
edit-map h i text id [] e u = ground arith
edit-map h zero text id (m ∷ ms) e u = rw (mirrored-id m.tag, e, same_refl id) refl
edit-map h (suc i) text id (m ∷ ms) e u =
    rw (mirrored-id m.tag, absent-apart (id_of m.tag) id ms u.0 (at-has i id ms e))
      (ap (λ (xs : List ChatMessage). shown h m ∷ xs) (edit-map h i text id ms e u.1))

pub stamped-fresh :
    (kind : Kind) (fresh name : String) (self : Option PeerId)
    → (stamped_tag kind name self (tag_or_new fresh none)).id ≡ some fresh
stamped-fresh Kind.user fresh name self = refl
stamped-fresh Kind.character fresh name self = refl

pub host_writes :
    (h : Here) (kind : Kind) (fresh : String) (m : ChatMessage) (b : Bridge)
    → h.host ≡ true
    → m.tag ≡ none
    → recalls (some fresh) b.applied_ids ≡ false
    → host_step h (Change.writes kind fresh m) b ≡ (
      record b {
        chat = b.chat ++ stamped_message kind fresh h.self m ∷ [];
        applied_ids = remember_id fresh b.applied_ids;
      },
      Sent.chat_append (serialise h.portrait (stamped_message kind fresh h.self m)) ∷ [],
    )
unfolding host_step announce_message forward_message
host_writes h kind fresh m b host new unknown =
    let named : (stamped_tag kind m.name h.self (tag_or_new fresh m.tag)).id ≡ some fresh =
      rw new (stamped-fresh kind fresh m.name h.self) in
    rw (message_last m b.chat, named, unknown, host, put_last) refl
