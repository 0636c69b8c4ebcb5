-- ===== src/Relay/Frames/Authorship.antt =====
-- In whose name the relay passes on what a client sends.
use vibed_st_muliplayer.Base.{
  ap, ℕ, ◌≡◌, ◌≢◌, refl, String, false, not, ◌&&◌, Option, none, some, All, if◌then◌else◌,
}
use vibed_st_muliplayer.Base.Texts.{same, is_empty}
use vibed_st_muliplayer.Protocol.{Op, Role, is_host, client_allowed, to_host_only}
use vibed_st_muliplayer.Relay.State.{◌>>◌, PeerId, Peer, Payload, Message, Effect, Relay, skip}
use vibed_st_muliplayer.Relay.Room.{set_peer, broadcast_roster, broadcast_host_name}
use vibed_st_muliplayer.Relay.Room.Sends.{Emits, Emits->>, Emits-if, Emits-broadcast}
use vibed_st_muliplayer.Relay.Frames.{
  broadcast, Persona, OocMessage, remember, wear, publish, post, announced, rename, measure, post,
  on_ooc, on_persona, ooc_text, host_frame, client_frame, to_host, room_frame, on_op, on_payload,
}

-- A message that carries what players write or do says that it is from this peer, and where it
-- names its author, it gives this peer's name and role.
abbrev pub IsBy : Peer → Message → Type 0
IsBy p (Message.forwarded f author name) = author ≡ some p.id
IsBy p (Message.ooc m) = (m.author ≡ p.id) × (m.name ≡ p.name) × (m.role ≡ p.role)
IsBy p (Message.persona v) = (v.author ≡ p.id) × (v.name ≡ p.name) × (v.role ≡ p.role)
IsBy p (Message.ooc_typing i name) = (i ≡ p.id) × (name ≡ p.name)
IsBy p (Message.chat_typing i name typing) = (i ≡ p.id) × (name ≡ p.name)
IsBy p _ = Unit

abbrev pub IsAuthored : Peer → Effect → Type 0
IsAuthored p (Effect.send i m) = IsBy p m
IsAuthored p _ = Unit

module _ (p : Peer) where
  roster-Emits : Emits (IsAuthored p) broadcast_roster
  unfolding broadcast_roster
  roster-Emits r = Emits-broadcast (IsAuthored p) _ none (λ i. tt) r

  host_name-Emits : Emits (IsAuthored p) broadcast_host_name
  unfolding broadcast_host_name
  host_name-Emits r = Emits-broadcast (IsAuthored p) _ none (λ i. tt) r

  rename-Emits : (name : Option String) → Emits (IsAuthored p) (rename p name)
  unfolding rename
  rename-Emits name =
      Emits-if (IsAuthored p) (same p.name (announced name)) skip _ (λ r. tt)
        (Emits->> (IsAuthored p)
          (set_peer (record p { name = announced name })
            >> (if is_host p.role then broadcast_host_name else skip))
          broadcast_roster
          (Emits->> (IsAuthored p) (set_peer (record p { name = announced name }))
            (if is_host p.role then broadcast_host_name else skip) (λ r. tt)
            (Emits-if (IsAuthored p) (is_host p.role) broadcast_host_name skip host_name-Emits
              (λ r. tt)))
          roster-Emits)

  measure-Emits : (now : ℕ) (t : Option ℕ) → Emits (IsAuthored p) (measure p now t)
  unfolding measure
  measure-Emits now none r = tt
  measure-Emits now (some t) r = tt

  post-Emits : (m : OocMessage) → IsBy p (Message.ooc m) → Emits (IsAuthored p) (post m)
  unfolding post
  post-Emits m h =
      Emits->> (IsAuthored p) (remember m) (broadcast (Message.ooc m) none) (λ r. tt)
        (Emits-broadcast (IsAuthored p) (Message.ooc m) none (λ i. h))

  on_ooc-Emits : (now : ℕ) (stamp text : String) → Emits (IsAuthored p) (on_ooc p now stamp text)
  unfolding on_ooc
  on_ooc-Emits now stamp text =
      Emits-if (IsAuthored p) (is_empty (ooc_text text)) skip _ (λ r. tt)
        (post-Emits _ (refl, refl, refl))

  publish-Emits : (v : Persona) → IsBy p (Message.persona v) → Emits (IsAuthored p) (publish v)
  unfolding publish
  publish-Emits v h =
      Emits->> (IsAuthored p) (wear v) (broadcast (Message.persona v) none) (λ r. tt)
        (Emits-broadcast (IsAuthored p) (Message.persona v) none (λ i. h))

  on_persona-Emits : (persona : Option String) → Emits (IsAuthored p) (on_persona p persona)
  unfolding on_persona
  on_persona-Emits none = λ r. tt
  on_persona-Emits (some v) = publish-Emits _ (refl, refl, refl)

  to_host-All : (f : Payload) (h : Option PeerId) → All (IsAuthored p) (to_host p f h)
  unfolding to_host
  to_host-All f none = (tt, tt)
  to_host-All f (some h) = (refl, tt)

  client_frame-Emits : (f : Payload) → Emits (IsAuthored p) (client_frame p f)
  unfolding client_frame
  client_frame-Emits f =
      Emits-if (IsAuthored p) (to_host_only f.op) _ _ (λ r. to_host-All f r.host)
        (Emits-broadcast (IsAuthored p) _ (some p.id) (λ i. refl))

  module _ (c : is_host p.role ≡ false) (now : ℕ) (stamp : String) (f : Payload) where
    other-Emits : Emits (IsAuthored p) (if is_host p.role then host_frame p f else client_frame p f)
    other-Emits = rw c (client_frame-Emits f)

    room_frame-Emits : (op : Op) → Emits (IsAuthored p) (room_frame p now stamp f op)
    unfolding room_frame
    room_frame-Emits Op.ooc_message = on_ooc-Emits now stamp f.text
    room_frame-Emits Op.ooc_typing =
        Emits-broadcast (IsAuthored p) _ (some p.id) (λ i. (refl, refl))
    room_frame-Emits Op.persona_state = on_persona-Emits f.persona
    room_frame-Emits Op.chat_typing =
        Emits-broadcast (IsAuthored p) _ (some p.id) (λ i. (refl, refl))
    room_frame-Emits _ = other-Emits

    seated-Emits :
        (op : Op) → Emits (IsAuthored p) (if p.admitted then room_frame p now stamp f op else skip)
    seated-Emits op =
        Emits-if (IsAuthored p) p.admitted (room_frame p now stamp f op) skip (room_frame-Emits op)
          (λ r. tt)

    on_op-Emits : (op : Op) → op ≢ Op.parity_report → Emits (IsAuthored p) (on_op p now stamp f op)
    unfolding on_op
    on_op-Emits Op.ping n = λ r. (tt, tt)
    on_op-Emits Op.pong n = measure-Emits now f.t
    on_op-Emits Op.roster n = rename-Emits f.name
    on_op-Emits Op.parity_report n = absurd (n refl)
    on_op-Emits op n = seated-Emits op

-- Of a client's frame other than a parity report: a frame that the relay passes on bears the client's
-- own id as its sender, whatever its payload says (a name and a role inside the payload are not
-- checked); and a message that the relay makes itself, of the player chat, a persona or a typing
-- notice, bears the client's id and name, and its role where it has one.
pub on_payload-IsAuthored :
    (p : Peer) (now : ℕ) (stamp : String) (f : Payload) (r : Relay)
    → p.role ≡ Role.client
    → f.op ≢ Op.parity_report
    → All (IsAuthored p) (on_payload p now stamp (some f) r).1
unfolding on_payload
on_payload-IsAuthored p now stamp f r c n =
    Emits-if (IsAuthored p) (not (is_host p.role) && not (client_allowed f.op)) skip _ (λ s. tt)
      (on_op-Emits p (ap is_host c) now stamp f f.op n) r
