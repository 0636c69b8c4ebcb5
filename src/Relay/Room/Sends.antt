-- ===== src/Relay/Room/Sends.antt =====
-- Whom a broadcast reaches.
use vibed_st_muliplayer.Base.{
  if◌then◌else◌, ◌≡◌, Bool, true, false, ◌&&◌, Option, List, [], ◌∷◌, arith, All, All-append, ◌==◌,
  ◌||◌,
}
use vibed_st_muliplayer.Relay.State.{PeerId, Peer, Message, Effect, Relay, Handler, ◌>>◌}
use vibed_st_muliplayer.Relay.Room.{broadcast_to, broadcast}

-- Whether a peer with this id is in the room.
unfoldable pub is_seated : PeerId → List Peer → Bool
is_seated i [] = false
is_seated i (p ∷ ps) = p.id == i && p.admitted || is_seated i ps

-- What holds of a message to every seated peer holds of a broadcast.
module _ (P : Effect → Type 0) (m : Message) (except : Option PeerId) where
  broadcast_to-All :
      (ps : List Peer)
      → ((i : PeerId) → is_seated i ps ≡ true → P (Effect.send i m))
      → All P (broadcast_to m except ps)
  unfolding broadcast_to is_seated
  broadcast_to-All [] h = tt
  broadcast_to-All (p ∷ ps) h =
      ground (arith, h p.id, broadcast_to-All ps (λ i k. h i (ground arith)))

  pub broadcast-All :
      (r : Relay)
      → ((i : PeerId) → is_seated i r.peers ≡ true → P (Effect.send i m))
      → All P (broadcast m except r).1
  unfolding broadcast
  broadcast-All r h = broadcast_to-All r.peers h

-- Handlers that run one after the other.
pub >>-All :
    (P : Effect → Type 0) (f g : Handler) (r : Relay)
    → All P (f r).1
    → All P (g (f r).0).1
    → All P ((f >> g) r).1
>>-All P f g r a b = All-append P (f r).1 (g (f r).0).1 a b

-- Handlers all of whose effects have a property, whatever the state.
abbrev pub Emits : (Effect → Type 0) → Handler → Type 0
Emits P f = (r : Relay) → All P (f r).1

module _ (P : Effect → Type 0) where
  pub Emits->> : (f g : Handler) → Emits P f → Emits P g → Emits P (f >> g)
  Emits->> f g a b r = All-append P (f r).1 (g (f r).0).1 (a r) (b (f r).0)

  pub Emits-if : (b : Bool) (f g : Handler) → Emits P f → Emits P g → Emits P (if b then f else g)
  Emits-if true f g a c = a
  Emits-if false f g a c = c

  pub Emits-broadcast :
      (m : Message) (except : Option PeerId)
      → ((i : PeerId) → P (Effect.send i m))
      → Emits P (broadcast m except)
  Emits-broadcast m except h r = broadcast-All P m except r (λ i k. h i)

pub if-All :
    (P : Effect → Type 0) (b : Bool) (f g : Handler) (r : Relay)
    → All P (f r).1
    → All P (g r).1
    → All P ((if b then f else g) r).1
if-All P true f g r a c = a
if-All P false f g r a c = c
