-- ===== src/Chat/Replica.antt =====
-- lib/chat.js: the frames of the chat, and the transcript without placeholders as what they change.
use vibed_st_muliplayer.Chat.Transcript.{transcript}
use vibed_st_muliplayer.Base.Texts.{cut}
use vibed_st_muliplayer.Base.{◌||◌, if◌then◌else◌, is_some}
use vibed_st_muliplayer.Chat.{RecentIds, add_id, recalls}
use vibed_st_muliplayer.Chat.Mirror.{text_or, is_given, add_ids}
use vibed_st_muliplayer.Chat.Mirror.{mirrored, edit_first, remove_first, mirror_all}
use vibed_st_muliplayer.Base.{ℕ, ◌≡◌, String, true, not, Option, some, List, [], ◌∷◌, ◌++◌}
use vibed_st_muliplayer.Chat.{ChatMessage, Bridge, id_of}
use vibed_st_muliplayer.Chat.Mirror.{
  Incoming, apply_remote_message, apply_remote_edit, apply_remote_delete, begin_stream, end_stream,
  apply_stream_token, apply_snapshot,
}

-- The frames about the chat that a client handles: what changes the transcript, and what is streamed.
pub data ChatFrame : Type 0 where
  append : Incoming → ChatFrame
  edit : String → Option String → ChatFrame
  delete : String → Option ℕ → ChatFrame
  state : List Incoming → ChatFrame
  gen_start : ChatFrame
  gen_token : String → Option String → ChatFrame
  gen_end : ChatFrame

unfoldable pub chat_step : ChatFrame → Bridge → Bridge
chat_step (ChatFrame.append m) b = apply_remote_message m b
chat_step (ChatFrame.edit id text) b = apply_remote_edit (some id) text b
chat_step (ChatFrame.delete id index) b = apply_remote_delete (some id) index b
chat_step (ChatFrame.state ms) b = apply_snapshot ms b
chat_step ChatFrame.gen_start b = begin_stream b
chat_step (ChatFrame.gen_token name text) b = apply_stream_token name text b
chat_step ChatFrame.gen_end b = end_stream b

-- The transcript and the ids that were applied: all that a durable frame reads or writes.
pub record Replica : Type 0 where
  pub messages : List ChatMessage
  pub applied : RecentIds

abbrev pub replica : Bridge → Replica
replica b = record { messages = transcript b; applied = b.applied_ids }

-- What a frame does to a transcript, without placeholders, indices and streams.
unfoldable pub replica_step : ChatFrame → Replica → Replica
replica_step (ChatFrame.append m) r =
    if not (is_some m.mes) || recalls (id_of m.tag) r.applied then r else record {
      messages = r.messages ++ mirrored m ∷ [];
      applied = add_id (id_of m.tag) r.applied;
    }
replica_step (ChatFrame.edit id text) r = record r {
  messages = edit_first (some id) (cut 100000 (text_or "" text)) r.messages;
}
replica_step (ChatFrame.delete id index) r = record r {
  messages = remove_first (some id) r.messages;
}
replica_step (ChatFrame.state ms) r = record {
  messages = mirror_all ms;
  applied = add_ids ms r.applied;
}
replica_step _ r = r

unfoldable pub replica_run : List ChatFrame → Replica → Replica
unfolding replica_step
replica_run [] r = r
replica_run (f ∷ fs) r = replica_run fs (replica_step f r)

-- A deletion names its message, as `#onLocalDelete` does wherever the message has an id.
abbrev pub IsAddressed : ChatFrame → Type 0
IsAddressed (ChatFrame.delete id index) = is_given (some id) ≡ true
IsAddressed _ = Unit
