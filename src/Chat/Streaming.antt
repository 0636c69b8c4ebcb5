-- ===== src/Chat/Streaming.antt =====
-- lib/chat.js: the tokens of a reply that the host streams, after the end of the reply.
use vibed_st_muliplayer.Base.{
  ℕ, String, true, false, ◌≡◌, refl, Option, none, some, List, [], ◌∷◌, All, arith, Bool-cases, inl,
  inr, All-append,
}
use vibed_st_muliplayer.Chat.{Bridge, ChatMessage}
use vibed_st_muliplayer.Chat.Local.{
  Sent, Kind, Here, LocalEvent, local_event, local_run, forward_message, announce_message,
  on_local_message, on_local_edit, on_local_delete, on_generation_started, on_generation_ended,
  on_stream_timer, handle_generation_request, request_reply, release, edit_frame, message_at,
}

abbrev pub IsOther : Sent → Type 0
IsOther (Sent.gen_token text) = ⊥
IsOther _ = Unit

abbrev pub IsNoToken : LocalEvent → Type 0
IsNoToken (LocalEvent.token_received text) = ⊥
IsNoToken _ = Unit

-- No timer of a token runs, and none goes out.
abbrev Silent : Bridge × List Sent → Type 0
Silent out = (out.0.stream_timer ≡ false) × All IsOther out.1

edit_frame-IsOther :
    (id : Option String) (text : String) (held : List String)
    → All IsOther (edit_frame id text held)
edit_frame-IsOther none text held = tt
edit_frame-IsOther (some id) text held = ground arith

announce-Silent :
    (h : Here) (kind : Kind) (index : ℕ) (fresh : String) (m : Option ChatMessage) (b : Bridge)
    → b.stream_timer ≡ false
    → Silent (announce_message h kind index fresh m b)
unfolding announce_message forward_message
announce-Silent h kind index fresh none b q = (q, tt)
announce-Silent h kind index fresh (some m) b q = ground arith

request-Silent :
    (h : Here) (by : Option String) (b : Bridge)
    → b.stream_timer ≡ false
    → Silent (handle_generation_request h by b)
unfolding handle_generation_request request_reply
request-Silent h by b q = ground arith

event-Silent :
    (e : LocalEvent) (h : Here) (b : Bridge)
    → IsNoToken e
    → b.stream_timer ≡ false
    → Silent (local_event e h b)
unfolding local_event
event-Silent (LocalEvent.message_sent kind index fresh) h b n q = elim (Bool-cases h.active) [
  | inl on ↦
      unfold on_local_message in
      rw on (announce-Silent h kind index fresh (message_at index b.chat) b q)
  | inr off ↦ rw off (q, tt)
]
event-Silent (LocalEvent.message_edited index) h b n q = elim (Bool-cases h.active) [
  | inl on ↦ unfold on_local_edit in rw on (q, edit_frame-IsOther _ _ b.suppress)
  | inr off ↦ rw off (q, tt)
]
event-Silent (LocalEvent.message_deleted index) h b n q = unfold on_local_delete in ground arith
event-Silent (LocalEvent.token_received text) h b n q = absurd n
event-Silent LocalEvent.generation_started h b n q = unfold on_generation_started in ground arith
event-Silent LocalEvent.generation_ended h b n q = unfold on_generation_ended in ground arith
event-Silent LocalEvent.stream_due h b n q = unfold on_stream_timer in ground arith
event-Silent LocalEvent.replied h b n q = (q, tt)
event-Silent (LocalEvent.reply_asked by) h b n q = request-Silent h by b q
event-Silent (LocalEvent.id_released id) h b n q = unfold release in (q, tt)

run-Silent :
    (es : List (LocalEvent × Here)) (b : Bridge)
    → All (λ (e : LocalEvent × Here). IsNoToken e.0) es
    → b.stream_timer ≡ false
    → All IsOther (local_run es b).1
unfolding local_run
run-Silent [] b n q = tt
run-Silent ((e, h) ∷ es) b n q =
    let (quiet, others) = event-Silent e h b n.0 q in
    All-append IsOther (local_event e h b).1 _ others (run-Silent es _ n.1 quiet)

-- Once the generation of an active host has ended, no token of a reply goes out until SillyTavern hands over
-- the next one, whatever else happens, another generation included: the timer of an earlier token, if
-- one was running, no longer fires.
pub silent_after_end :
    (h : Here) (es : List (LocalEvent × Here)) (b : Bridge)
    → h.active ≡ true
    → h.host ≡ true
    → All (λ (e : LocalEvent × Here). IsNoToken e.0) es
    → All IsOther (local_run ((LocalEvent.generation_ended, h) ∷ es) b).1
unfolding local_run local_event on_generation_ended
silent_after_end h es b active host n = rw (active, host) (tt, (tt, run-Silent es _ n refl))
