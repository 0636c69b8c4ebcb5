-- ===== src/Chat/Convergence.antt =====
-- lib/chat.js: the transcript of a client, whatever is streamed to it meanwhile.
use vibed_st_muliplayer.Chat.Refinement.{step-Refines}
use vibed_st_muliplayer.Chat.Replica.{ChatFrame}
use vibed_st_muliplayer.Chat.Transcript.{IsMarked}
use vibed_st_muliplayer.Chat.Replica.{
  ChatFrame, chat_step, Replica, replica, replica_step, replica_run, IsAddressed,
}
use vibed_st_muliplayer.Base.{sym, ◌∙◌}
use vibed_st_muliplayer.Base.Texts.{same}
use vibed_st_muliplayer.Base.{ap}
use vibed_st_muliplayer.Base.{◌≡◌, refl, List, [], ◌∷◌, All}
use vibed_st_muliplayer.Chat.{Bridge}

unfoldable pub chat_run : List ChatFrame → Bridge → Bridge
unfolding chat_step
chat_run [] b = b
chat_run (f ∷ fs) b = chat_run fs (chat_step f b)

-- The frames without what is streamed.
abbrev pub durable : List ChatFrame → List ChatFrame
durable [] = []
durable (ChatFrame.gen_start ∷ fs) = durable fs
durable (ChatFrame.gen_token name text ∷ fs) = durable fs
durable (ChatFrame.gen_end ∷ fs) = durable fs
durable (ChatFrame.append m ∷ fs) = ChatFrame.append m ∷ durable fs
durable (ChatFrame.edit id text ∷ fs) = ChatFrame.edit id text ∷ durable fs
durable (ChatFrame.delete id index ∷ fs) = ChatFrame.delete id index ∷ durable fs
durable (ChatFrame.state ms ∷ fs) = ChatFrame.state ms ∷ durable fs

-- What is streamed does nothing to a replica.
skip-streams :
    (f : ChatFrame) (fs : List ChatFrame) (r : Replica)
    → replica_run (durable fs) (replica_step f r) ≡ replica_run (durable (f ∷ fs)) r
unfolding replica_run replica_step
skip-streams (ChatFrame.append m) fs r = refl
skip-streams (ChatFrame.edit id text) fs r = refl
skip-streams (ChatFrame.delete id index) fs r = refl
skip-streams (ChatFrame.state ms) fs r = refl
skip-streams ChatFrame.gen_start fs r = refl
skip-streams (ChatFrame.gen_token name text) fs r = refl
skip-streams ChatFrame.gen_end fs r = refl

-- A run of a client is a run of its replica over the durable frames alone.
pub run-refines :
    (fs : List ChatFrame) (b : Bridge)
    → All IsAddressed fs
    → All IsMarked b.chat
    → replica (chat_run fs b) ≡ replica_run (durable fs) (replica b)
unfolding chat_run replica_run
run-refines [] b h a = refl
run-refines (f ∷ fs) b h a =
    let (same, marked) = step-Refines f b h.0 a in
    run-refines fs (chat_step f b) h.1 marked
    ∙ ap (λ (r : Replica). replica_run (durable fs) r) same
    ∙ skip-streams f fs (replica b)

-- Two clients whose transcripts, placeholders left out, and memories of ids agree, and whose placeholders
-- have no id, still agree after the same appends, edits, deletions by id and snapshots, whatever was
-- streamed to each of them in between: no token of a reply, and no end of one, changes a message of
-- the transcript or takes one out of it.
pub transcripts_agree :
    (es fs : List ChatFrame) (a b : Bridge)
    → All IsAddressed es
    → All IsAddressed fs
    → All IsMarked a.chat
    → All IsMarked b.chat
    → durable es ≡ durable fs
    → replica a ≡ replica b
    → replica (chat_run es a) ≡ replica (chat_run fs b)
transcripts_agree es fs a b he hf ma mb frames same =
    run-refines es a he ma
    ∙ ap (λ (r : Replica). replica_run (durable es) r) same
    ∙ ap (λ (ds : List ChatFrame). replica_run ds (replica b)) frames
    ∙ sym (run-refines fs b hf mb)
