-- ===== src/Chat/Following.antt =====
-- lib/chat.js: a client that follows a host shows the host's chat.
use vibed_st_muliplayer.Base.{
  ℕ, zero, suc, String, Bool, true, false, ◌≡◌, refl, sym, ap, ◌∙◌, subst, Option, none, some, List,
  [], ◌∷◌, ◌++◌, arith, All, ◌||◌,
}
use vibed_st_muliplayer.Base.Texts.{same, is_empty, cut}
use vibed_st_muliplayer.Chat.{
  Bridge, ChatMessage, RecentIds, id_of, same_id, add_id, recalls, holds_text, remember_id,
}
use vibed_st_muliplayer.Chat.Mirror.{mirrored, edit_first, has_message, write_at}
use vibed_st_muliplayer.Chat.Local.{
  Sent, Kind, Here, serialise, message_at, stamped_message, tag_of, text_of,
}
use vibed_st_muliplayer.Chat.Replica.{
  ChatFrame, Replica, replica, replica_step, replica_run, IsAddressed,
}
use vibed_st_muliplayer.Chat.Transcript.{IsMarked}
use vibed_st_muliplayer.Chat.Convergence.{chat_run, durable, run-refines}
use vibed_st_muliplayer.Chat.Mirroring.{
  Change, carried, host_step, shown, IsAbsent, IsUnique, IsWithin, Mirrors, IsSound, edit-map,
  host_writes, IsUnique-last, has-append, stamped-fresh, map-last,
}
use vibed_st_muliplayer.Chat.Memory.{remember-other}

unfoldable pub host_run : Here → List Change → Bridge → Bridge × List Sent
unfolding host_step
host_run h [] b = (b, [])
host_run h (c ∷ cs) b =
    let out = host_step h c b in let rest = host_run h cs out.0 in (rest.0, out.1 ++ rest.1)

-- Each change is sound in the chat that it meets.
abbrev pub AllSound : Here → List Change → Bridge → Type 0
AllSound h [] b = Unit
AllSound h (c ∷ cs) b = IsSound c b × AllSound h cs (host_step h c b).0

has-write :
    (i : ℕ) (text id : String) (ms : List ChatMessage)
    → has_message (some id) (write_at i text ms) ≡ has_message (some id) ms
unfolding has_message write_at
has-write i text id [] = refl
has-write zero text id (m ∷ ms) = refl
has-write (suc i) text id (m ∷ ms) =
    ap (λ (t : Bool). same_id (id_of m.tag) (some id) || t) (has-write i text id ms)

IsAbsent-write :
    (o : Option String) (i : ℕ) (text : String) (ms : List ChatMessage)
    → IsAbsent o ms
    → IsAbsent o (write_at i text ms)
IsAbsent-write none i text ms a = tt
IsAbsent-write (some id) i text ms a = has-write i text id ms ∙ a

IsUnique-write :
    (i : ℕ) (text : String) (ms : List ChatMessage) → IsUnique ms → IsUnique (write_at i text ms)
unfolding write_at
IsUnique-write i text [] u = tt
IsUnique-write zero text (m ∷ ms) u = u
IsUnique-write (suc i) text (m ∷ ms) u =
    (IsAbsent-write (id_of m.tag) i text ms u.0, IsUnique-write i text ms u.1)

written-id :
    (i : ℕ) (text : String) (ms : List ChatMessage)
    → id_of (tag_of (message_at i (write_at i text ms))) ≡ id_of (tag_of (message_at i ms))
unfolding message_at write_at
written-id i text [] = refl
written-id zero text (m ∷ ms) = refl
written-id (suc i) text (m ∷ ms) = written-id i text ms

written-text :
    (i : ℕ) (text id : String) (ms : List ChatMessage)
    → id_of (tag_of (message_at i ms)) ≡ some id
    → text_of (message_at i (write_at i text ms)) ≡ text
unfolding message_at write_at
written-text i text id [] e = ground arith
written-text zero text id (m ∷ ms) e = refl
written-text (suc i) text id (m ∷ ms) e = written-text i text id ms e

IsWithin-last :
    (fresh : String) (n : ChatMessage) (r : RecentIds) (ms : List ChatMessage)
    → id_of n.tag ≡ some fresh
    → IsWithin r ms
    → IsWithin (remember_id fresh r) (ms ++ n ∷ [])
unfolding has_message
IsWithin-last fresh n r ms e w id absent =
    let split : (has_message (some id) ms || (same_id (id_of n.tag) (some id) || false)) ≡ false =
      sym (has-append id ms (n ∷ [])) ∙ absent in
    let before : has_message (some id) ms ≡ false = ground arith in
    let apart : same fresh id ≡ false = ground arith in
    remember-other id fresh r (w id before) apart

client_writes :
    (p : Option String) (fresh : String) (n : ChatMessage) (r : Replica)
    → id_of n.tag ≡ some fresh
    → recalls (some fresh) r.applied ≡ false
    → replica_run (carried (Sent.chat_append (serialise p n) ∷ [])) r ≡ record {
      messages = r.messages ++ mirrored (serialise p n) ∷ [];
      applied = remember_id fresh r.applied;
    }
unfolding replica_run serialise add_id
client_writes p fresh n r e unknown = rw (e, unknown) refl

writes-Mirrors :
    (h : Here) (kind : Kind) (fresh : String) (m : ChatMessage) (b : Bridge) (r : Replica)
    → h.host ≡ true
    → IsSound (Change.writes kind fresh m) b
    → Mirrors h b r
    → Mirrors h
        (host_step h (Change.writes kind fresh m) b).0
        (replica_run (carried (host_step h (Change.writes kind fresh m) b).1) r)
writes-Mirrors h kind fresh m b r host (new, given, absent) w =
    let n = stamped_message kind fresh h.self m in
    let named : id_of n.tag ≡ some fresh = rw new (stamped-fresh kind fresh m.name h.self) in
    rw
      (
        host_writes h kind fresh m b host new (w.here fresh absent),
        client_writes h.portrait fresh n r named (w.there fresh absent),
      )
      (record {
        messages =
            unfold shown in
            (ap (λ (ms : List ChatMessage). ms ++ mirrored (serialise h.portrait n) ∷ []) w.messages
              ∙ sym (map-last (shown h) n b.chat));
        unique = IsUnique-last fresh n b.chat named absent w.unique;
        here = IsWithin-last fresh n b.applied_ids b.chat named w.here;
        there = IsWithin-last fresh n r.applied b.chat named w.there;
      })

host_rewrites :
    (h : Here) (i : ℕ) (text id : String) (b : Bridge)
    → id_of (tag_of (message_at i b.chat)) ≡ some id
    → is_empty id ≡ false
    → holds_text id b.suppress ≡ false
    → host_step h (Change.rewrites i text) b
      ≡ (record b { chat = write_at i text b.chat }, Sent.chat_edit id text ∷ [])
unfolding host_step
host_rewrites h i text id b e given free =
    rw (written-id i text b.chat, e, given, free, written-text i text id b.chat e) refl

rewrites-Mirrors :
    (h : Here) (i : ℕ) (text : String) (b : Bridge) (r : Replica)
    → IsSound (Change.rewrites i text) b
    → Mirrors h b r
    → Mirrors h
        (host_step h (Change.rewrites i text) b).0
        (replica_run (carried (host_step h (Change.rewrites i text) b).1) r)
unfolding replica_run
rewrites-Mirrors h i text b r (id, e, given, free) w =
    rw (host_rewrites h i text id b e given free) (record {
      messages =
          ap (λ (ms : List ChatMessage). edit_first (some id) (cut 100000 text) ms) w.messages
          ∙ edit-map h i text id b.chat e w.unique;
      unique = IsUnique-write i text b.chat w.unique;
      here = λ x absent. w.here x (sym (has-write i text x b.chat) ∙ absent);
      there = λ x absent. w.there x (sym (has-write i text x b.chat) ∙ absent);
    })

step-Mirrors :
    (h : Here) (c : Change) (b : Bridge) (r : Replica)
    → h.host ≡ true
    → IsSound c b
    → Mirrors h b r
    → Mirrors h (host_step h c b).0 (replica_run (carried (host_step h c b).1) r)
step-Mirrors h (Change.writes kind fresh m) b r host s w =
    writes-Mirrors h kind fresh m b r host s w
step-Mirrors h (Change.rewrites i text) b r host s w = rewrites-Mirrors h i text b r s w

run-append :
    (es fs : List ChatFrame) (r : Replica)
    → replica_run (es ++ fs) r ≡ replica_run fs (replica_run es r)
unfolding replica_run
run-append [] fs r = refl
run-append (e ∷ es) fs r = run-append es fs (replica_step e r)

carried-append : (ss ts : List Sent) → carried (ss ++ ts) ≡ carried ss ++ carried ts
carried-append [] ts = refl
carried-append (Sent.chat_append m ∷ ss) ts =
    ap (λ (fs : List ChatFrame). ChatFrame.append m ∷ fs) (carried-append ss ts)
carried-append (Sent.chat_edit id text ∷ ss) ts =
    ap (λ (fs : List ChatFrame). ChatFrame.edit id (some text) ∷ fs) (carried-append ss ts)
carried-append (Sent.chat_turn id text ∷ ss) ts = carried-append ss ts
carried-append (Sent.persona_state ∷ ss) ts = carried-append ss ts
carried-append (Sent.chat_delete id index ∷ ss) ts = carried-append ss ts
carried-append (Sent.gen_start ∷ ss) ts = carried-append ss ts
carried-append (Sent.gen_end ∷ ss) ts = carried-append ss ts
carried-append (Sent.gen_token text ∷ ss) ts = carried-append ss ts
carried-append (Sent.gen_notice phase by ∷ ss) ts = carried-append ss ts
carried-append (Sent.trigger ∷ ss) ts = carried-append ss ts

run-Mirrors :
    (h : Here) (cs : List Change) (b : Bridge) (r : Replica)
    → h.host ≡ true
    → AllSound h cs b
    → Mirrors h b r
    → Mirrors h (host_run h cs b).0 (replica_run (carried (host_run h cs b).1) r)
unfolding host_run replica_run
run-Mirrors h [] b r host s w = w
run-Mirrors h (c ∷ cs) b r host s w =
    let out = host_step h c b in
    rw (carried-append out.1 (host_run h cs out.0).1, run-append (carried out.1))
      (run-Mirrors h cs out.0 (replica_run (carried out.1) r) host s.1
        (step-Mirrors h c b r host s.0 w))

-- A client that shows a host's chat still shows it after any messages that the host writes and edits that
-- it makes, when it has handled the frames about them, whatever is streamed to it in between. It holds
-- where new messages get new ids and edited ones have an id that is not held back, and placeholders
-- have no id.
pub client_follows :
    (h : Here) (cs : List Change) (b a : Bridge) (es : List ChatFrame)
    → h.host ≡ true
    → AllSound h cs b
    → Mirrors h b (replica a)
    → All IsAddressed es
    → All IsMarked a.chat
    → durable es ≡ carried (host_run h cs b).1
    → Mirrors h (host_run h cs b).0 (replica (chat_run es a))
client_follows h cs b a es host s w addressed marked frames =
    let same_replica : replica (chat_run es a)
        ≡ replica_run (carried (host_run h cs b).1) (replica a) =
      run-refines es a addressed marked
      ∙ ap (λ (fs : List ChatFrame). replica_run fs (replica a)) frames in
    subst (λ (r : Replica). Mirrors h (host_run h cs b).0 r) (sym same_replica)
      (run-Mirrors h cs b (replica a) host s w)
