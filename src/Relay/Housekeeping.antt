-- ===== src/Relay/Housekeeping.antt =====
-- server/lib/relay.js: `sweep`, `kick`, `unban`, `start`, `rotate` and `stop`.
use vibed_st_muliplayer.Base.{
  ℕ, ◌-◌, String, Bool, false, not, ◌&&◌, Option, none, some, List, [], ◌∷◌, ◌++◌, if◌then◌else◌,
  ltb, map, min, max, true,
}
use vibed_st_muliplayer.Base.Texts.{same, cut}
use vibed_st_muliplayer.Base.Int.{ℤ, pos_part}
use vibed_st_muliplayer.Parity.{Strictness}
use vibed_st_muliplayer.Protocol.Limits
use vibed_st_muliplayer.Relay.State.{
  PeerId, Bytes, Peer, Message, Reason, Control, Effect, Relay, Handler,
}
use vibed_st_muliplayer.Relay.Room.{find_peer}
use vibed_st_muliplayer.Relay.Abuse.{add_ban, still_blocked}

-- What `sweep` does about one peer: a silent one and one that nobody admits are dropped, and an idle
-- one is asked for a sign of life.
unfoldable pub sweep_peer : ℕ → Peer → List Effect
sweep_peer now p =
    if ltb Limits.ping_timeout_ms (now - p.last_seen)
    then Effect.close p.socket 4408 ∷ []
    else if not p.admitted && ltb Limits.lobby_timeout_ms (now - p.joined_at)
    then Effect.send p.id (
        Message.error
          "Timed out waiting to be admitted. Sync your extensions if needed, then rejoin.")
      ∷ Effect.close p.socket 4403
      ∷ []
    else if ltb Limits.ping_interval_ms (now - p.last_seen)
    then Effect.send p.id (Message.ping now) ∷ []
    else []

unfoldable pub sweep_peers : ℕ → List Peer → List Effect
unfolding sweep_peer
sweep_peers now [] = []
sweep_peers now (p ∷ ps) = sweep_peer now p ++ sweep_peers now ps

-- `sweep`
unfoldable pub sweep : ℕ → Handler
unfolding sweep_peers still_blocked
sweep now r = (record r { offenders = still_blocked now r.offenders }, sweep_peers now r.peers)

unfoldable pub kick_peer : Bool → Option Peer → Handler
unfolding add_ban
kick_peer ban none r = (r, [])
kick_peer ban (some p) r = (
  record r { bans = if ban then add_ban p.ip r.bans else r.bans },
  Effect.send p.id Message.kicked ∷ Effect.close p.socket 4403 ∷ [],
)

-- `kick`
unfoldable pub kick : PeerId → Bool → Handler
unfolding kick_peer find_peer
kick i ban r = kick_peer ban (find_peer i r.peers) r

unfoldable pub drop_ban : String → List String → List String
drop_ban ip [] = []
drop_ban ip (b ∷ bs) = if same b ip then bs else b ∷ drop_ban ip bs

-- `unban`
unfoldable pub unban : String → Handler
unfolding drop_ban
unban ip r = (record r { bans = drop_ban ip r.bans }, [])

-- Every peer is told that the server is closing, and its socket is closed.
unfoldable pub dismiss : ℕ → List Peer → List Effect
dismiss code [] = []
dismiss code (p ∷ ps) =
    Effect.send_json p.socket (Control.reject Reason.server_closing)
    ∷ Effect.close p.socket code
    ∷ dismiss code ps

-- `rotate`, with the secrets that it draws; the room's id is derived from the new key. It throws
-- where the relay is not running.
unfoldable pub rotate : Bytes → Bytes → Bytes → Relay → Option (Relay × List Effect)
unfolding dismiss
rotate psk room_id token r =
    if r.running
    then some (
      record r {
        peers = [];
        host = none;
        host_report = none;
        psk = psk;
        room_id = room_id;
        host_token = token;
      },
      dismiss 1000 r.peers,
    )
    else none

-- `new Relay()`, before any peer has got an id.
abbrev pub created : Relay
created = record {
  running = false;
  room_name = "";
  max_peers = 4;
  require_parity = true;
  strictness = Strictness.manifest;
  psk = [];
  room_id = [];
  host_token = [];
  peers = [];
  host = none;
  host_report = none;
  ooc_history = [];
  personas = [];
  pending = [];
  offenders = [];
  bans = [];
  peer_counter = 0;
}

-- What `start` reads of its options, where the numbers are what `parseInt` gives.
pub record Options : Type 0 where
  pub room_name : Option String
  pub max_peers : Option ℤ
  pub require_parity : Bool
  pub strictness : Strictness

-- `clampInt`
unfoldable pub clamp_int : Option ℤ → ℕ → ℕ → ℕ → ℕ
clamp_int none low high fallback = fallback
clamp_int (some n) low high fallback = min high (max low (pos_part n))

abbrev pub named : Option String → String
named none = "SillyTavern room"
named (some name) = cut 60 name

-- `start` once it listens, with the secrets that it draws. It throws where the relay is running.
unfoldable pub start : Options → Bytes → Bytes → Bytes → Relay → Option (Relay × List Effect)
unfolding clamp_int
start options psk room_id token r =
    if r.running
    then none
    else some (
      record r {
        running = true;
        room_name = named options.room_name;
        max_peers = clamp_int options.max_peers 2 Limits.max_peers 4;
        require_parity = options.require_parity;
        strictness = options.strictness;
        psk = psk;
        room_id = room_id;
        host_token = token;
      },
      [],
    )

-- `stop`
unfoldable pub stop : Handler
unfolding dismiss
stop r =
    if r.running
    then (
      record r {
        running = false;
        peers = [];
        pending = [];
        host = none;
        host_report = none;
        ooc_history = [];
        personas = [];
        psk = [];
        room_id = [];
        host_token = [];
      },
      dismiss 1001 r.peers ++ map (λ socket. Effect.close socket 1001) r.pending,
    )
    else (r, [])
