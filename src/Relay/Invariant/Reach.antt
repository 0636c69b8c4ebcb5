-- ===== src/Relay/Invariant/Reach.antt =====
-- The relay is sound in every state that it reaches.
use vibed_st_muliplayer.Base.{◌≡◌, true, not, ◌&&◌}
use vibed_st_muliplayer.Base.{Bool, List, [], ◌∷◌}
use vibed_st_muliplayer.Relay.State.{Relay}
use vibed_st_muliplayer.Relay.Housekeeping.{created}
use vibed_st_muliplayer.Relay.Server.{Server, Event}
use vibed_st_muliplayer.Relay.Invariant.{IsSound}

-- The event brings no compressed frame.
unfoldable pub is_plain : Event → Bool
is_plain (Event.arrives s m) = not m.frame.compressed
is_plain _ = true

unfoldable pub all_plain : List Event → Bool
unfolding is_plain
all_plain [] = true
all_plain (e ∷ es) = is_plain e && all_plain es

-- Where `strict` is true, no frame is being inflated.
abbrev IsSafe : Bool → Server → Type 0
IsSafe strict v = IsSound strict v.relay × (strict ≡ true → v.opening ≡ [])

abbrev pub idle : Server
idle = record { relay = created; conns = []; opening = [] }
