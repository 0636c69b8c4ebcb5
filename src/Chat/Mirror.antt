-- ===== src/Chat/Mirror.antt =====
-- lib/chat.js: what `ChatBridge` does with the frames of others. Rendering, and saving the chat, are left
-- out.
use vibed_st_muliplayer.Base.{
  ℕ, zero, suc, String, Bool, true, false, not, ◌||◌, Option, none, some, List, [], ◌∷◌, ◌++◌,
  if◌then◌else◌, ltb, length, is_some,
}
use vibed_st_muliplayer.Base.Texts.{is_empty, cut, begins}
use vibed_st_muliplayer.Chat.{
  Tag, ChatMessage, Bridge, RecentIds, id_of, is_streaming, same_id, add_id, recalls, holds_text,
}

-- A message as a frame carries it; `none` is a field that is missing, or no text in the case of `mes`.
pub record Incoming : Type 0 where
  pub name : Option String
  pub is_user : Bool
  pub is_system : Bool
  pub send_date : Option String
  pub mes : Option String
  pub force_avatar : Option String
  pub tag : Option Tag

abbrev pub text_or : String → Option String → String
text_or fallback none = fallback
text_or fallback (some s) = s

-- `/^data:image\//.test(…) ? … : nothing`
abbrev pub portable : Option String → Option String
portable none = none
portable (some url) = if begins "data:image/" url then some url else none

-- The tag of a mirrored message, which keeps who wrote it.
abbrev pub mirrored_tag : Option Tag → Tag
mirrored_tag none = record {
  id = none;
  player = false;
  author = none;
  author_peer = none;
  player_name = none;
  mirrored = true;
  streaming = false;
}
mirrored_tag (some t) = record t { mirrored = true; streaming = false }

-- The message that a receiver makes of one, in `applyRemoteMessage` and `applySnapshot`.
unfoldable pub mirrored : Incoming → ChatMessage
mirrored m = record {
  name = cut 80 (text_or "Unknown" m.name);
  is_user = m.is_user;
  is_system = m.is_system;
  send_date = m.send_date;
  mes = cut 100000 (text_or "" m.mes);
  force_avatar = portable m.force_avatar;
  tag = some (mirrored_tag m.tag);
}

-- `chat.splice(index, 1)`
unfoldable pub remove_at : ℕ → List ChatMessage → List ChatMessage
remove_at i [] = []
remove_at zero (m ∷ ms) = ms
remove_at (suc i) (m ∷ ms) = m ∷ remove_at i ms

-- Whether `chat[index]` is a streaming placeholder.
unfoldable pub streams_at : ℕ → List ChatMessage → Bool
streams_at i [] = false
streams_at zero (m ∷ ms) = is_streaming m.tag
streams_at (suc i) (m ∷ ms) = streams_at i ms

-- `chat[index].mes = text`
unfoldable pub write_at : ℕ → String → List ChatMessage → List ChatMessage
write_at i text [] = []
write_at zero text (m ∷ ms) = record m { mes = text } ∷ ms
write_at (suc i) text (m ∷ ms) = m ∷ write_at i text ms

-- The first message with the id: it is written over, or removed.
unfoldable pub edit_first : Option String → String → List ChatMessage → List ChatMessage
edit_first id text [] = []
edit_first id text (m ∷ ms) =
    if same_id (id_of m.tag) id then record m { mes = text } ∷ ms else m ∷ edit_first id text ms

unfoldable pub remove_first : Option String → List ChatMessage → List ChatMessage
remove_first id [] = []
remove_first id (m ∷ ms) = if same_id (id_of m.tag) id then ms else m ∷ remove_first id ms

-- `findIndex(…) >= 0`
unfoldable pub has_message : Option String → List ChatMessage → Bool
has_message id [] = false
has_message id (m ∷ ms) = same_id (id_of m.tag) id || has_message id ms

-- `#clearStreamPlaceholder`
unfoldable pub clear_at : Option ℕ → List ChatMessage → List ChatMessage
unfolding streams_at remove_at
clear_at none ms = ms
clear_at (some i) ms = if streams_at i ms then remove_at i ms else ms

unfoldable pub clear_placeholder : Bridge → Bridge
unfolding clear_at
clear_placeholder b = record b { chat = clear_at b.placeholder b.chat; placeholder = none }

-- `applyRemoteMessage`, once the payload holds a message with a text.
abbrev pub append_mirrored : Incoming → Bridge → Bridge
append_mirrored m b = clear_placeholder (record b {
  chat = b.chat ++ mirrored m ∷ [];
  applied_ids = add_id (id_of m.tag) b.applied_ids;
})

-- `applyRemoteMessage`
unfoldable pub apply_remote_message : Incoming → Bridge → Bridge
unfolding clear_placeholder mirrored add_id recalls
apply_remote_message m b =
    if not (is_some m.mes) || recalls (id_of m.tag) b.applied_ids then b else append_mirrored m b

-- `suppress.add(id)`; the timer of two seconds is the event that releases it.
abbrev pub hold_back : Option String → List String → List String
hold_back none ids = ids
hold_back (some id) ids = if holds_text id ids then ids else ids ++ id ∷ []

-- `applyRemoteEdit`
unfoldable pub apply_remote_edit : Option String → Option String → Bridge → Bridge
unfolding has_message edit_first
apply_remote_edit id text b =
    if has_message id b.chat
    then record b {
      chat = edit_first id (cut 100000 (text_or "" text)) b.chat;
      suppress = hold_back id b.suppress;
    }
    else b

abbrev pub is_given : Option String → Bool
is_given none = false
is_given (some id) = not (is_empty id)

-- `Number.isInteger(index) && index >= 0 && index < chat.length`, and the removal
abbrev pub remove_index : Option ℕ → Bridge → Bridge
remove_index none b = b
remove_index (some i) b =
    if ltb i (length b.chat) then record b { chat = remove_at i b.chat } else b

-- `applyRemoteDelete`: the index counts only where there is no id.
unfoldable pub apply_remote_delete : Option String → Option ℕ → Bridge → Bridge
unfolding has_message remove_first remove_at
apply_remote_delete id index b =
    if is_given id
    then if has_message id b.chat
      then record b { chat = remove_first id b.chat; suppress = hold_back id b.suppress }
      else b
    else remove_index index b

-- `beginStream` and `endStream`
abbrev pub begin_stream : Bridge → Bridge
begin_stream b = record b { stream_active = true }

unfoldable pub end_stream : Bridge → Bridge
unfolding clear_placeholder
end_stream b = clear_placeholder (record b { stream_active = false })

-- `#ensureStreamPlaceholder`
abbrev pub blank : String → ChatMessage
blank name = record {
  name = name;
  is_user = false;
  is_system = false;
  send_date = none;
  mes = "";
  force_avatar = none;
  tag = some (record {
    id = none;
    player = false;
    author = none;
    author_peer = none;
    player_name = none;
    mirrored = false;
    streaming = true;
  });
}

abbrev pub has_placeholder : Option ℕ → List ChatMessage → Bool
has_placeholder none ms = false
has_placeholder (some i) ms = streams_at i ms

unfoldable pub ensure_placeholder : String → Bridge → Bridge
unfolding streams_at
ensure_placeholder name b =
    if has_placeholder b.placeholder b.chat
    then b
    else record b { chat = b.chat ++ blank name ∷ []; placeholder = some (length b.chat) }

abbrev pub write_placeholder : Option ℕ → String → List ChatMessage → List ChatMessage
write_placeholder none text ms = ms
write_placeholder (some i) text ms = write_at i text ms

-- `applyStreamToken`; the name is that of the character on this machine.
unfoldable pub apply_stream_token : String → Option String → Bridge → Bridge
apply_stream_token name text b =
    let ready = ensure_placeholder name b in
    if b.stream_active
    then record ready {
      chat = write_placeholder ready.placeholder (cut 100000 (text_or "" text)) ready.chat;
    }
    else b

-- `applySnapshot`
unfoldable pub add_ids : List Incoming → RecentIds → RecentIds
unfolding add_id
add_ids [] r = r
add_ids (m ∷ ms) r = add_ids ms (add_id (id_of m.tag) r)

unfoldable pub mirror_all : List Incoming → List ChatMessage
unfolding mirrored
mirror_all [] = []
mirror_all (m ∷ ms) = mirrored m ∷ mirror_all ms

unfoldable pub apply_snapshot : List Incoming → Bridge → Bridge
unfolding add_ids mirror_all
apply_snapshot ms b = record b { chat = mirror_all ms; applied_ids = add_ids ms b.applied_ids }
