-- ===== src/Chat/Local.antt =====
-- lib/chat.js: what `ChatBridge` sends when SillyTavern's chat changes on this machine, and the requests for
-- a reply.
use vibed_st_muliplayer.Base.{
  ℕ, zero, suc, String, Bool, true, false, not, ◌&&◌, ◌||◌, Option, none, some, List, [], ◌∷◌, ◌++◌,
  if◌then◌else◌, is_some,
}
use vibed_st_muliplayer.Base.Texts.{begins, is_empty}
use vibed_st_muliplayer.Relay.State.{PeerId}
use vibed_st_muliplayer.Notice.{Phase}
use vibed_st_muliplayer.Chat.{
  Tag, ChatMessage, Bridge, id_of, add_id, recalls, holds_text, no_ids, without,
}
use vibed_st_muliplayer.Chat.Mirror.{Incoming}

-- A frame that goes out, and the slash command that makes the host reply. The persona that comes with a turn
-- is left out; `persona_state` is the publication that follows it.
pub data Sent : Type 0 where
  chat_append : Incoming → Sent
  chat_turn : Option String → String → Sent
  persona_state : Sent
  chat_edit : String → String → Sent
  chat_delete : Option String → ℕ → Sent
  gen_start : Sent
  gen_end : Sent
  gen_token : String → Sent
  gen_notice : Phase → Option String → Sent
  trigger : Sent

abbrev pub Sends : Type 0
Sends = Bridge → Bridge × List Sent

pub data Kind : Type 0 where
  user character : Kind

-- What the handlers read of their surroundings: the session, this player, and its portrait. `persona_due`
-- is whether the persona has a lorebook, or a portrait that the room has not seen.
pub record Here : Type 0 where
  pub active : Bool
  pub host : Bool
  pub self : Option PeerId
  pub portrait : Option String
  pub persona_due : Bool
  pub auto_reply : Bool

abbrev pub plain : Option String → Tag
plain id = record {
  id = id;
  player = false;
  author = none;
  author_peer = none;
  player_name = none;
  mirrored = false;
  streaming = false;
}

-- `extra[TAG] ??= { id }`, with the id that is drawn.
abbrev pub tag_or_new : String → Option Tag → Tag
tag_or_new fresh none = plain (some fresh)
tag_or_new fresh (some t) = t

-- Who wrote the message.
abbrev pub stamped_tag : Kind → String → Option PeerId → Tag → Tag
stamped_tag Kind.user name self t =
    if is_some t.author_peer
    then t
    else record t { player = true; author = some name; author_peer = self }
stamped_tag Kind.character name self t = record t { player = false }

abbrev pub stamped_message : Kind → String → Option PeerId → ChatMessage → ChatMessage
stamped_message kind fresh self m = record m {
  tag = some (stamped_tag kind m.name self (tag_or_new fresh m.tag));
}

-- `chat[index]`, and the object at it changed.
unfoldable pub message_at : ℕ → List ChatMessage → Option ChatMessage
message_at i [] = none
message_at zero (m ∷ ms) = some m
message_at (suc i) (m ∷ ms) = message_at i ms

unfoldable pub put_at : ℕ → ChatMessage → List ChatMessage → List ChatMessage
put_at i n [] = []
put_at zero n (m ∷ ms) = n ∷ ms
put_at (suc i) n (m ∷ ms) = m ∷ put_at i n ms

-- `#portableAvatar`
abbrev pub own_portrait : Bool → Option String → Option String
own_portrait true portrait = portrait
own_portrait false portrait = none

abbrev pub portable_avatar : Bool → Option String → Option String → Option String
portable_avatar is_user portrait none = own_portrait is_user portrait
portable_avatar is_user portrait (some url) =
    if begins "data:image/" url then some url else own_portrait is_user portrait

-- `#serialise`
unfoldable pub serialise : Option String → ChatMessage → Incoming
serialise portrait m = record {
  name = some m.name;
  is_user = m.is_user;
  is_system = m.is_system;
  send_date = m.send_date;
  mes = some m.mes;
  force_avatar = portable_avatar m.is_user portrait m.force_avatar;
  tag = m.tag;
}

-- The end of `#onLocalMessage`.
unfoldable pub forward_message : Here → Kind → ChatMessage → Sends
unfolding serialise add_id
forward_message h kind m b =
    if h.host then (b, Sent.chat_append (serialise h.portrait m) ∷ []) else elim kind [
      | Kind.character ↦ (b, [])
      | Kind.user ↦ (
        record b { own_ids = add_id (id_of m.tag) b.own_ids },
        Sent.chat_turn (id_of m.tag) m.mes
            ∷ (if h.persona_due then Sent.persona_state ∷ [] else []),
      )
    ]

unfoldable pub announce_message : Here → Kind → ℕ → String → Option ChatMessage → Sends
unfolding forward_message put_at add_id recalls
announce_message h kind index fresh none b = (b, [])
announce_message h kind index fresh (some m) b =
    let stamped = stamped_message kind fresh h.self m in
    let kept = record b { chat = put_at index stamped b.chat } in
    if recalls (id_of stamped.tag) b.applied_ids
    then (kept, [])
    else forward_message h kind stamped
        (record kept { applied_ids = add_id (id_of stamped.tag) b.applied_ids })

-- `#onLocalMessage`
unfoldable pub on_local_message : Here → Kind → ℕ → String → Sends
unfolding announce_message message_at
on_local_message h kind index fresh b =
    announce_message h kind index fresh (message_at index b.chat) b

-- `#onLocalEdit`
abbrev pub tag_of : Option ChatMessage → Option Tag
tag_of none = none
tag_of (some m) = m.tag

abbrev pub text_of : Option ChatMessage → String
text_of none = ""
text_of (some m) = m.mes

abbrev pub edit_frame : Option String → String → List String → List Sent
edit_frame none text suppressed = []
edit_frame (some id) text suppressed =
    if is_empty id || holds_text id suppressed then [] else Sent.chat_edit id text ∷ []

unfoldable pub on_local_edit : ℕ → Sends
unfolding message_at
on_local_edit index b = (
  b,
  edit_frame (id_of (tag_of (message_at index b.chat))) (text_of (message_at index b.chat))
      b.suppress,
)

-- `#onLocalDelete`
abbrev pub is_held : Option String → List String → Bool
is_held none suppressed = false
is_held (some id) suppressed = not (is_empty id) && holds_text id suppressed

unfoldable pub on_local_delete : ℕ → Sends
unfolding message_at
on_local_delete index b =
    let id = id_of (tag_of (message_at index b.chat)) in
    (b, if is_held id b.suppress then [] else Sent.chat_delete id index ∷ [])

-- `#notify`
abbrev pub notify : Here → Phase → Option String → List Sent
notify h phase by = if h.host then Sent.gen_notice phase by ∷ [] else []

-- `#onGenerationStarted`
unfoldable pub on_generation_started : Here → Sends
on_generation_started h b =
    (b, if h.host then notify h Phase.running b.reply_requested_by ++ Sent.gen_start ∷ [] else [])

-- `#onGenerationEnded`
unfoldable pub on_generation_ended : Here → Sends
on_generation_ended h b =
    if h.host
    then (
      record b { stream_timer = false; stream_scheduled = false; reply_requested_by = none },
      Sent.gen_end ∷ notify h Phase.done none,
    )
    else (b, [])

-- `setTimeout`: the timer, and the flag that it runs.
abbrev pub schedule : Bridge → Bridge
schedule b =
    if b.stream_scheduled then b else record b { stream_scheduled = true; stream_timer = true }

-- `#onStreamToken`
unfoldable pub on_stream_token : Here → String → Sends
on_stream_token h text b =
    if h.host then (schedule (record b { pending_stream = text }), []) else (b, [])

-- The callback of the timer, which then runs no more.
unfoldable pub on_stream_timer : Here → Sends
on_stream_timer h b = (
  record b { stream_timer = false; stream_scheduled = false },
  if h.active then Sent.gen_token b.pending_stream ∷ [] else [],
)

-- `#requestReply`, and the end of the slash command.
unfoldable pub request_reply : Sends
request_reply b =
    if b.reply_pending then (b, []) else (record b { reply_pending = true }, Sent.trigger ∷ [])

abbrev pub reply_done : Bridge → Bridge
reply_done b = record b { reply_pending = false }

-- `handleGenerationRequest`
unfoldable pub handle_generation_request : Here → Option String → Sends
unfolding request_reply
handle_generation_request h by b =
    if not h.auto_reply || not h.active
    then (b, [])
    else let out = request_reply (record b { reply_requested_by = by }) in
      (out.0, notify h Phase.pending by ++ out.1)

-- The timer that lets an id go.
unfoldable pub release : String → Bridge → Bridge
release id b = record b { suppress = without id b.suppress }

-- `reset`
unfoldable pub reset_bridge : Bridge → Bridge
reset_bridge b = record b {
  own_ids = no_ids;
  applied_ids = no_ids;
  reply_requested_by = none;
  suppress = [];
  stream_active = false;
  stream_scheduled = false;
  stream_timer = false;
}

-- The listeners of `attach`, which do nothing while the session is not active, the two timers, a request of
-- a player for a reply and the end of one.
pub data LocalEvent : Type 0 where
  message_sent : Kind → ℕ → String → LocalEvent
  message_edited : ℕ → LocalEvent
  message_deleted : ℕ → LocalEvent
  token_received : String → LocalEvent
  generation_started generation_ended stream_due replied : LocalEvent
  reply_asked : Option String → LocalEvent
  id_released : String → LocalEvent

abbrev pub when_active : Here → Sends → Sends
when_active h act b = if h.active then act b else (b, [])

unfoldable pub local_event : LocalEvent → Here → Sends
unfolding on_local_message on_local_edit on_local_delete on_generation_started on_generation_ended
    on_stream_token on_stream_timer handle_generation_request release
local_event (LocalEvent.message_sent kind index fresh) h b =
    when_active h (on_local_message h kind index fresh) b
local_event (LocalEvent.message_edited index) h b = when_active h (on_local_edit index) b
local_event (LocalEvent.message_deleted index) h b = when_active h (on_local_delete index) b
local_event (LocalEvent.token_received text) h b = when_active h (on_stream_token h text) b
local_event LocalEvent.generation_started h b = when_active h (on_generation_started h) b
local_event LocalEvent.generation_ended h b = when_active h (on_generation_ended h) b
local_event LocalEvent.stream_due h b = if b.stream_timer then on_stream_timer h b else (b, [])
local_event LocalEvent.replied h b = (reply_done b, [])
local_event (LocalEvent.reply_asked by) h b = handle_generation_request h by b
local_event (LocalEvent.id_released id) h b = (release id b, [])

unfoldable pub local_run : List (LocalEvent × Here) → Sends
unfolding local_event
local_run [] b = (b, [])
local_run ((e, h) ∷ es) b =
    let out = local_event e h b in let rest = local_run es out.0 in (rest.0, out.1 ++ rest.1)
