-- ===== src/Relay/Frames/Delivery.antt =====
-- Whom the relay passes a frame on to.
use vibed_st_muliplayer.Base.{
  ap, ◌∙◌, ℕ, ◌≡◌, refl, String, Bool, true, false, Option, none, some, List, [], ◌∷◌, arith,
  if◌then◌else◌, ◌⊎◌,
}
use vibed_st_muliplayer.Protocol.{Op, Role, is_host, client_allowed, to_host_only}
use vibed_st_muliplayer.Relay.State.{PeerId, Peer, Payload, Message, Effect, Relay}
use vibed_st_muliplayer.Relay.Room.Sends.{is_seated}
use vibed_st_muliplayer.Relay.Frames.{
  room_frame, on_op, on_payload, host_frame, client_frame, to_host,
}
use vibed_st_muliplayer.Relay.Frames.Confinement.{IsBare}

-- The recipient of a message with anything that players write or do is in the room, or is the host.
abbrev pub IsDelivered : Relay → Effect → Type 0
IsDelivered r (Effect.send i m) = IsBare m ⊎ (is_seated i r.peers ≡ true) ⊎ (r.host ≡ some i)
IsDelivered r _ = Unit

-- The opcodes that the relay does not answer or stamp itself.
abbrev pub is_passed : Op → Bool
is_passed Op.ping = false
is_passed Op.pong = false
is_passed Op.roster = false
is_passed Op.parity_report = false
is_passed Op.ooc_message = false
is_passed Op.ooc_typing = false
is_passed Op.persona_state = false
is_passed Op.chat_typing = false
is_passed _ = true

abbrev pub IsTo : PeerId → Effect → Type 0
IsTo i (Effect.send j m) = j ≡ i
IsTo i _ = Unit

passed_of_to_host_only :
    (op : Op) → to_host_only op ≡ true → (is_passed op ≡ true) × (client_allowed op ≡ true)
passed_of_to_host_only Op.cards_want h = (refl, refl)
passed_of_to_host_only _ h = ground arith

module _ (p : Peer) (now : ℕ) (stamp : String) (f : Payload) (r : Relay) where
  on_op_passed :
      (op : Op)
      → is_passed op ≡ true
      → p.admitted ≡ true
      → on_op p now stamp f op r ≡ (if is_host p.role then host_frame p f else client_frame p f) r
  unfolding on_op room_frame
  on_op_passed Op.ping h a = cc
  on_op_passed Op.pong h a = cc
  on_op_passed Op.roster h a = cc
  on_op_passed Op.parity_report h a = cc
  on_op_passed Op.ooc_message h a = cc
  on_op_passed Op.ooc_typing h a = cc
  on_op_passed Op.persona_state h a = cc
  on_op_passed Op.chat_typing h a = cc
  on_op_passed _ h a = simp a

  on_payload-to_host :
      p.role ≡ Role.client
      → p.admitted ≡ true
      → to_host_only f.op ≡ true
      → on_payload p now stamp (some f) r ≡ (r, to_host p f r.host)
  unfolding on_payload client_frame
  on_payload-to_host c a t =
      let e : is_host p.role ≡ false = ap is_host c in
      let (k, d) = passed_of_to_host_only f.op t in
      simp (e, d) (on_op_passed f.op k a ∙ simp (e, t))

-- One send, and no more: the frame to the host, or the error to the sender where there is no host.
abbrev pub IsAnswered : Peer → Payload → Option PeerId → List Effect → Type 0
IsAnswered p f none es =
    es ≡ Effect.send p.id (Message.error "The host is not connected right now.") ∷ []
IsAnswered p f (some h) es = es ≡ Effect.send h (Message.forwarded f (some p.id) none) ∷ []

to_host-IsAnswered : (p : Peer) (f : Payload) (h : Option PeerId) → IsAnswered p f h (to_host p f h)
unfolding to_host
to_host-IsAnswered p f none = refl
to_host-IsAnswered p f (some h) = refl

-- What a seated client asks of the host, its turns and corrections included, is sent once, to the
-- host, with the client's id, and to no other player; without a host the client alone is told so. It
-- changes nothing.
pub to_host_frame :
    (p : Peer) (now : ℕ) (stamp : String) (f : Payload) (r : Relay)
    → p.role ≡ Role.client
    → p.admitted ≡ true
    → to_host_only f.op ≡ true
    → IsAnswered p f r.host (on_payload p now stamp (some f) r).1
      × ((on_payload p now stamp (some f) r).0 ≡ r)
to_host_frame p now stamp f r c a t =
    rw (on_payload-to_host p now stamp f r c a t) (to_host-IsAnswered p f r.host, refl)
