-- ===== src/Tests/Chats.antt =====
-- What a chat sends, at concrete messages.
use vibed_st_muliplayer.Chat.Mirroring.{Change, Mirrors}
use vibed_st_muliplayer.Chat.Following.{host_run, client_follows}
use vibed_st_muliplayer.Chat.Convergence.{chat_run}
use vibed_st_muliplayer.Chat.Replica.{ChatFrame, replica}
use vibed_st_muliplayer.Chat.Local.{
  serialise, stamped_message, announce_message, forward_message, Here, Kind, Sent, LocalEvent,
  local_run, local_event, on_local_message, on_local_edit, on_local_delete, message_at,
  on_stream_token, on_stream_timer, on_generation_started, plain,
}
use vibed_st_muliplayer.Chat.Mirror.{
  has_message, Incoming, apply_remote_message, apply_remote_edit, mirrored, clear_placeholder,
  clear_at, edit_first,
}
use vibed_st_muliplayer.Chat.{recalls, ChatMessage, Bridge, no_ids}
use vibed_st_muliplayer.Base.{none, ◌≡◌, refl, true, false, some, List, [], ◌∷◌, arith, All}
use vibed_st_muliplayer.Notice.{Phase}
use vibed_st_muliplayer.Chat.Memory.{IsTidy}
use vibed_st_muliplayer.Chat.Echo.{no_echo}
use vibed_st_muliplayer.Chat.Streaming.{IsOther, silent_after_end}

abbrev host_here : Here
host_here = record {
  active = true;
  host = true;
  self = some 1;
  portrait = none;
  persona_due = false;
  auto_reply = true;
}

abbrev greeting_line : ChatMessage
greeting_line = record {
  name = "Ada";
  is_user = true;
  is_system = false;
  send_date = none;
  mes = "hello";
  force_avatar = none;
  tag = some (plain (some "m1"));
}

abbrev answer : Incoming
answer = record {
  name = some "Bob";
  is_user = true;
  is_system = false;
  send_date = none;
  mes = some "hi";
  force_avatar = none;
  tag = some (plain (some "m2"));
}

abbrev bridge : Bridge
bridge = record {
  chat = greeting_line ∷ [];
  own_ids = no_ids;
  applied_ids = no_ids;
  suppress = [];
  stream_active = false;
  placeholder = none;
  stream_scheduled = false;
  stream_timer = false;
  pending_stream = "";
  reply_requested_by = none;
  reply_pending = false;
}

abbrev streaming : List (LocalEvent × Here)
streaming =
    (LocalEvent.stream_due, host_here)
    ∷ (LocalEvent.generation_started, host_here)
    ∷ (LocalEvent.stream_due, host_here)
    ∷ []

-- A token that is scheduled goes out if its timer fires before the end.
token_sent :
    (local_run ((LocalEvent.token_received "Once", host_here) ∷ streaming) bridge).1
    ≡ Sent.gen_token "Once" ∷ Sent.gen_notice Phase.running none ∷ Sent.gen_start ∷ []
unfolding local_run local_event on_stream_token on_stream_timer on_generation_started
token_sent = refl

silent_after_end_example :
    All IsOther
      (local_run
        ((LocalEvent.generation_ended, host_here) ∷ streaming)
        (record bridge { stream_scheduled = true; stream_timer = true; pending_stream = "Once" })).1
silent_after_end_example =
    silent_after_end host_here streaming
      (record bridge { stream_scheduled = true; stream_timer = true; pending_stream = "Once" }) refl
      refl (tt, (tt, (tt, tt)))

no_echo_example :
    let same_bridge = record bridge {
      chat = record greeting_line { tag = some (plain (some "m2")) } ∷ [];
    } in
    let added = apply_remote_message answer same_bridge in
    let edited = apply_remote_edit (some "m2") (some "hello!") same_bridge in
    IsTidy added.applied_ids
    × ((on_local_message host_here Kind.user 1 "m9" added).1 ≡ [])
    × ((on_local_edit 0 edited).1 ≡ [])
    × ((on_local_delete 0 edited).1 ≡ [])
unfolding apply_remote_message apply_remote_edit message_at mirrored has_message clear_placeholder
    edit_first recalls clear_at
no_echo_example =
    let same_bridge : Bridge = record bridge {
      chat = record greeting_line { tag = some (plain (some "m2")) } ∷ [];
    } in
    no_echo "m2" "m9" answer (some "hello!") same_bridge host_here Kind.user 1 0 (mirrored answer)
      (record greeting_line { tag = some (plain (some "m2")); mes = "hello!" }) refl refl refl refl
      (record { agree = refl; distinct = tt; roomy = omega arith }) refl refl refl refl

-- A host says hello and corrects it, while a client sees a token of a reply.
abbrev typed : ChatMessage
typed = record greeting_line { mes = "helo"; tag = none }

abbrev empty_bridge : Bridge
empty_bridge = record bridge { chat = [] }

abbrev changes : List Change
changes = Change.writes Kind.user "m1" typed ∷ Change.rewrites 0 "hello" ∷ []

abbrev corrected : ChatMessage
corrected = record (stamped_message Kind.user "m1" (some 1) typed) { mes = "hello" }

host_changes :
    ((host_run host_here changes empty_bridge).0.chat ≡ corrected ∷ [])
    × ((host_run host_here changes empty_bridge).1
        ≡ Sent.chat_append (serialise none (stamped_message Kind.user "m1" (some 1) typed))
          ∷ Sent.chat_edit "m1" "hello"
          ∷ [])
unfolding host_run announce_message forward_message
host_changes = (refl, refl)

client_follows_example : Mirrors host_here (host_run host_here changes empty_bridge).0 (
    replica (
      chat_run
        (ChatFrame.append (serialise none (stamped_message Kind.user "m1" (some 1) typed))
          ∷ ChatFrame.gen_start
          ∷ ChatFrame.gen_token "Bot" (some "Once")
          ∷ ChatFrame.edit "m1" (some "hello")
          ∷ [])
        empty_bridge))
unfolding host_run announce_message forward_message has_message recalls
client_follows_example =
    client_follows host_here changes empty_bridge empty_bridge
      (ChatFrame.append (serialise none (stamped_message Kind.user "m1" (some 1) typed))
        ∷ ChatFrame.gen_start
        ∷ ChatFrame.gen_token "Bot" (some "Once")
        ∷ ChatFrame.edit "m1" (some "hello")
        ∷ [])
      refl ((refl, refl, refl), (("m1", refl, refl, refl), tt))
      (record { messages = refl; unique = tt; here = λ id h. refl; there = λ id h. refl })
      (tt, (tt, (tt, (tt, tt)))) tt refl
