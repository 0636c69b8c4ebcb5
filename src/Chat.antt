-- ===== src/Chat.antt =====
-- lib/chat.js: the messages of a chat, the memory of ids `RecentIds`, and the state of `ChatBridge`.
pub mod Mirror
pub mod Local
pub mod Streaming
pub mod Memory
pub mod Echo
pub mod Transcript
pub mod Replica
pub mod Refinement
pub mod Mirroring
pub mod Following
pub mod Convergence
use vibed_st_muliplayer.Base.{
  ℕ, zero, suc, ◌-◌, String, Bool, true, false, not, ◌||◌, Option, none, some, List, [], ◌∷◌, ◌++◌,
  if◌then◌else◌, ltb, length, drop,
}
use vibed_st_muliplayer.Base.Texts.{same, is_empty}
use vibed_st_muliplayer.Relay.State.{PeerId}

-- `extra.stmp` of a message.
pub record Tag : Type 0 where
  pub id : Option String
  pub player : Bool
  pub author : Option String
  pub author_peer : Option PeerId
  pub player_name : Option String
  pub mirrored : Bool
  pub streaming : Bool

-- A message of SillyTavern's chat. No `send_date` stands for the clock of this machine.
pub record ChatMessage : Type 0 where
  pub name : String
  pub is_user : Bool
  pub is_system : Bool
  pub send_date : Option String
  pub mes : String
  pub force_avatar : Option String
  pub tag : Option Tag

-- `message?.extra?.[TAG]?.id`
abbrev pub id_of : Option Tag → Option String
id_of none = none
id_of (some t) = t.id

-- `message?.extra?.[TAG]?.streaming`
abbrev pub is_streaming : Option Tag → Bool
is_streaming none = false
is_streaming (some t) = t.streaming

-- `a === b`, where either may be undefined.
abbrev pub same_id : Option String → Option String → Bool
same_id none none = true
same_id (some a) (some b) = same a b
same_id _ _ = false

-- `RecentIds`: the set, and the order in which its ids came.
pub record RecentIds : Type 0 where
  pub limit : ℕ
  pub set : List String
  pub order : List String

abbrev pub holds_text : String → List String → Bool
holds_text s [] = false
holds_text s (x ∷ xs) = same x s || holds_text s xs

-- `Set.prototype.delete`
abbrev pub without : String → List String → List String
without s [] = []
without s (x ∷ xs) = if same x s then without s xs else x ∷ without s xs

-- The loop of `add`: the oldest ids go while there are too many. The set comes first in the result.
unfoldable pub forget_oldest : ℕ → List String → List String → List String × List String
forget_oldest limit [] set = (set, [])
forget_oldest limit (o ∷ os) set =
    if ltb limit (length (o ∷ os)) then forget_oldest limit os (without o set) else (set, o ∷ os)

abbrev pub recent : ℕ → List String × List String → RecentIds
recent limit kept = record { limit = limit; set = kept.0; order = kept.1 }

-- `RecentIds.add` and `RecentIds.has`
unfoldable pub remember_id : String → RecentIds → RecentIds
unfolding forget_oldest
remember_id id r =
    if is_empty id || holds_text id r.set
    then r
    else recent r.limit (forget_oldest r.limit (r.order ++ id ∷ []) (r.set ++ id ∷ []))

unfoldable pub add_id : Option String → RecentIds → RecentIds
unfolding remember_id
add_id none r = r
add_id (some id) r = remember_id id r

unfoldable pub recalls : Option String → RecentIds → Bool
recalls none r = false
recalls (some id) r = holds_text id r.set

abbrev pub no_ids : RecentIds
no_ids = record { limit = 2000; set = []; order = [] }

-- The fields of `ChatBridge`, with SillyTavern's chat. `stream_timer` holds while the timer of a token runs,
-- and `stream_scheduled` is the flag that the bridge keeps beside it.
pub record Bridge : Type 0 where
  pub chat : List ChatMessage
  pub own_ids : RecentIds
  pub applied_ids : RecentIds
  pub suppress : List String
  pub stream_active : Bool
  pub placeholder : Option ℕ
  pub stream_scheduled : Bool
  pub stream_timer : Bool
  pub pending_stream : String
  pub reply_requested_by : Option String
  pub reply_pending : Bool
