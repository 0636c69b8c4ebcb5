-- ===== src/Tests/Data.antt =====
-- A room with a host, a player and a newcomer in the lobby, and what they send.
use vibed_st_muliplayer.Base.Int.{pos}
use vibed_st_muliplayer.Base.{
  zero, suc, suc, ℕ, String, Bool, true, false, Option, none, some, List, [], ◌∷◌, ◌++◌,
  if◌then◌else◌, take,
}
use vibed_st_muliplayer.Base.Texts.{same}
use vibed_st_muliplayer.Protocol.{Op, Role}
use vibed_st_muliplayer.Parity.{Entry, Report, Strictness}
use vibed_st_muliplayer.Replay.{fresh}
use vibed_st_muliplayer.Limiter.{message_bucket, byte_bucket}
use vibed_st_muliplayer.Relay.State.{PeerId, Peer, Status, RawReport, Payload, Relay}
use vibed_st_muliplayer.Relay.Frames.{Frame}
use vibed_st_muliplayer.Relay.Handshake.{Crypto, Conn, Session, Stage, Hello, Ephemeral}
use vibed_st_muliplayer.Relay.Housekeeping.{Options, created}
use vibed_st_muliplayer.Relay.Server.{Text, Incoming, Server}

abbrev pub zeros : ℕ → List ℕ
zeros zero = []
zeros (suc n) = 0 ∷ zeros n

-- A pre-shared key, which is the room's id as well.
abbrev pub code : List ℕ
code = 1 ∷ 2 ∷ 3 ∷ 4 ∷ 5 ∷ 6 ∷ 7 ∷ 8 ∷ []

abbrev pub entry : String → String → Entry
entry id version = record {
  id = id;
  display_name = id;
  version = version;
  commit_hash = "";
  branch = "";
  remote_url = "";
  home_page = "";
}

abbrev pub baseline : Report
baseline = record {
  strictness = Strictness.manifest;
  hash = "h";
  extensions = entry "a" "1" ∷ entry "b" "2" ∷ [];
}

abbrev pub shuffled : Report
shuffled = record {
  strictness = Strictness.manifest;
  hash = "h";
  extensions = entry "b" "2" ∷ entry "a" "1" ∷ [];
}

abbrev pub raw : RawReport
raw = record {
  strictness = Strictness.manifest;
  hash = "h";
  extensions = some (entry "b" "2") ∷ some (entry "a" "1") ∷ [];
}

abbrev pub player : PeerId → Role → Bool → String → Option Report → Peer
player id role admitted name report = record {
  id = id;
  socket = id;
  ip = "10.0.0.1";
  role = role;
  name = name;
  admitted = admitted;
  replay = fresh;
  message_bucket = message_bucket 0;
  byte_bucket = byte_bucket 0;
  status = Status.pending;
  report = report;
  rtt = none;
  last_seen = 0;
  joined_at = 0;
  bytes_in = 0;
}

abbrev pub the_host : Peer
the_host = player 1 Role.host true "Host" (some baseline)

abbrev pub ann : Peer
ann = player 2 Role.client true "Ann" (some baseline)

abbrev pub bob : Peer
bob = player 3 Role.client false "Bob" (some shuffled)

-- Two seats, and both are taken.
abbrev pub room : Relay
room = record created {
  running = true;
  max_peers = 2;
  psk = code;
  room_id = code;
  host_token = 9 ∷ [];
  peers = the_host ∷ ann ∷ bob ∷ [];
  host = some 1;
  host_report = some baseline;
  personas = (2, record { author = 2; name = "Ann"; role = Role.client; persona = "{}" }) ∷ [];
  peer_counter = 3;
}

abbrev pub payload : Op → Option PeerId → Payload
payload op to = record {
  op = op;
  t = none;
  name = some "Ann";
  report = none;
  to = to;
  text = "hello";
  typing = true;
  persona = none;
  rest = "{}";
}

abbrev pub frame : Payload → Frame
frame f = record {
  binary = true;
  compressed = false;
  size = 100;
  now = 10;
  stamp = "m1";
  opened = some (1, some f);
}

-- A stand-in for node's cryptography.
abbrev pub crypto : Crypto
crypto = record {
  room_of = take 8;
  derive = λ secret own peer own_nonce peer_nonce psk.
      some (record { keys = psk; transcript = own_nonce ++ peer_nonce });
  confirmation =
      λ session label. (if same label "client" then 1 else 2) ∷ session.keys ++ session.transcript;
}

abbrev pub session : Session
session = record { keys = code; transcript = 5 ∷ zeros 16 }

abbrev pub conn : Conn
conn = record {
  socket = 1;
  ip = "127.0.0.1";
  stage = Stage.confirm session true;
  peer = some 1;
  closed = false;
}

abbrev pub confirming : Incoming
confirming = record {
  frame = record {
    binary = false;
    compressed = false;
    size = 40;
    now = 20;
    stamp = "";
    opened = none;
  };
  text = Text.confirm (crypto.confirmation session "client");
  ephemeral = record { secret = []; public_key = []; nonce = [] };
}

abbrev pub server : Server
server = record { relay = room; conns = conn ∷ []; opening = [] }

abbrev pub options : Options
options = record {
  room_name = some "room";
  max_peers = some (pos 4);
  require_parity = true;
  strictness = Strictness.manifest;
}

abbrev pub ephemeral : Ephemeral
ephemeral = record { secret = 1 ∷ []; public_key = 2 ∷ []; nonce = 5 ∷ [] }

-- A `HELLO` with the token of the host.
abbrev pub hello : Hello
hello = record {
  revision = "STMP/1.4.0";
  public_key = some (4 ∷ zeros 64);
  nonce = some (zeros 16);
  room = some code;
  token = some (9 ∷ []);
}

abbrev pub greeting : Incoming
greeting = record {
  frame = record {
    binary = false;
    compressed = false;
    size = 90;
    now = 5;
    stamp = "";
    opened = none;
  };
  text = Text.hello hello;
  ephemeral = ephemeral;
}

-- The host's report, compressed.
abbrev pub reporting : Incoming
reporting = record {
  frame = record {
    binary = true;
    compressed = true;
    size = 90;
    now = 30;
    stamp = "";
    opened = some (1, some (record (payload Op.parity_report none) { report = some raw }));
  };
  text = Text.unreadable;
  ephemeral = ephemeral;
}

-- A room that nobody is in, and the first connection to it.
abbrev pub lonely : Relay
lonely = record room { peers = []; host = none; host_report = none }

abbrev pub arriving : Conn
arriving = record { socket = 9; ip = "127.0.0.1"; stage = Stage.hello; peer = none; closed = false }

-- Ann under her new name.
abbrev pub renamed : Peer
renamed = player 2 Role.client true "Anna" (some baseline)
