-- ===== src/Tests/Sockets.antt =====
-- The theorems on the browser's socket and chat at concrete events.
use vibed_st_muliplayer.Base.{false}
use vibed_st_muliplayer.Base.{
  suc, ◌≡◌, refl, true, false, ◌&&◌, none, some, List, [], ◌∷◌, ◌++◌, arith, length, take,
}
use vibed_st_muliplayer.Relay.State.{Relay}
use vibed_st_muliplayer.Relay.State.{Reason as RelayReason}
use vibed_st_muliplayer.Relay.Handshake.{
  Stage, Ephemeral, Session, holds_token, is_loopback, admitted_count, lobby_count, reject_socket,
}
use vibed_st_muliplayer.Secrets.{Primitives, client_keys, server_keys, derive_room_id}
use vibed_st_muliplayer.Secrets.Agreement.{IsCrossed}
use vibed_st_muliplayer.Transport.{State, Ready, Transport}
use vibed_st_muliplayer.Transport.Lifecycle.{new_transport}
use vibed_st_muliplayer.Transport.Messages.{Inbound}
use vibed_st_muliplayer.Transport.Handlers.{Event, run}
use vibed_st_muliplayer.Transport.Sealing.{sealed, Ascends}
use vibed_st_muliplayer.Transport.Nonces.{counters_ascend}
use vibed_st_muliplayer.Transport.Backoff.{delays}
use vibed_st_muliplayer.Transport.Meeting.{meet}
use vibed_st_muliplayer.Transport.Meeting.Success.{pair, handshake_succeeds}
use vibed_st_muliplayer.Transport.Meeting.Refusal.{felt, refusal_is_final}
use vibed_st_muliplayer.Chat.{Bridge, no_ids}
use vibed_st_muliplayer.Chat.Mirror.{Incoming as Line}
use vibed_st_muliplayer.Chat.Replica.{ChatFrame, replica}
use vibed_st_muliplayer.Chat.Convergence.{chat_run, transcripts_agree}
use vibed_st_muliplayer.Tests.Data

-- Stand-ins for the primitives: the two sides of the exchange come to one secret.
abbrev toys : Primitives
toys = record {
  ecdh = λ secret peer. some (7 ∷ []);
  sha256 = λ bs. take 8 bs;
  hkdf = λ key salt info n. key ++ salt ++ info;
  hmac = λ key message. key ++ message;
}

abbrev browser : Ephemeral
browser = pair (1 ∷ []) (Data.zeros 64) (Data.zeros 16)

abbrev drawn_by_relay : Ephemeral
drawn_by_relay = record { secret = 2 ∷ []; public_key = 4 ∷ Data.zeros 64; nonce = Data.zeros 16 }

-- A socket that opens, sends twice, is lost, and opens again.
abbrev twice : List Event
twice =
    Event.dials true 0 0
    ∷ Event.opens 1
    ∷ Event.prepares 1 (some browser)
    ∷ Event.receives 1 (Inbound.challenge (some (4 ∷ Data.zeros 64)) (some (Data.zeros 16))) 5
    ∷ Event.seals 1 true true
    ∷ Event.closes 1 1006 9 0
    ∷ Event.retries true 20 0
    ∷ []

counters_ascend_example : Ascends (sealed (run toys twice (new_transport Data.code none true)).1)
counters_ascend_example = counters_ascend toys Data.code none true twice

abbrev at_rest : Transport
at_rest = record (new_transport Data.code none true) {
  state = State.open_session;
  socket = some (record { id = 1; ready = Ready.up; preparing = false });
  dialled = 1;
  attempts = 3;
  opened_at = some 100;
}

abbrev meeting_room : Relay
meeting_room = record Data.lonely { room_id = derive_room_id toys Data.lonely.psk }

handshake_succeeds_example :
    let out =
      meet toys meeting_room.psk none browser
        (record Data.arriving { stage = Stage.hello })
        (record Data.greeting { ephemeral = drawn_by_relay })
        Data.confirming
        30
        meeting_room in
    (out.0.state ≡ State.open_session)
    × (out.2.peer ≡ some (suc meeting_room.peer_counter))
    × ((s : Session) × (out.2.stage
          ≡ Stage.confirm s
              (holds_token none meeting_room.host_token && is_loopback Data.arriving.ip))
        × (out.0.keys ≡ some (client_keys s.keys))
        × IsCrossed (client_keys s.keys) (server_keys s.keys))
unfolding derive_room_id admitted_count lobby_count
handshake_succeeds_example =
    handshake_succeeds toys (1 ∷ []) (Data.zeros 64) (Data.zeros 16) drawn_by_relay (7 ∷ []) none
      meeting_room
      (record {
        point_size = refl;
        nonce_size = refl;
        relay_point_size = refl;
        relay_nonce_size = refl;
        forth = refl;
        back = refl;
        room = refl;
        room_size = refl;
        seats = omega arith;
        lobby = omega arith;
      })
      Data.arriving Data.greeting Data.confirming 30

refusal_is_final_example :
    let out =
      run toys
        (felt at_rest.dialled 5000 1 (reject_socket 1 RelayReason.room_full Data.room).1)
        at_rest in
    (length (delays out.1) ≡ 0) × (out.0.auto_reconnect ≡ false) × (out.0.state ≡ State.closed)
unfolding new_transport
refusal_is_final_example =
    refusal_is_final toys at_rest 1 5000 1 RelayReason.room_full Data.room (omega arith) refl

abbrev blank_bridge : Bridge
blank_bridge = record {
  chat = [];
  own_ids = no_ids;
  applied_ids = no_ids;
  suppress = [];
  stream_active = false;
  placeholder = none;
  stream_scheduled = false;
  stream_timer = false;
  pending_stream = "";
  reply_requested_by = none;
  reply_pending = false;
}

abbrev line : Line
line = record {
  name = some "Ann";
  is_user = true;
  is_system = false;
  send_date = some "today";
  mes = some "Good morning.";
  force_avatar = none;
  tag = some (record {
    id = some "a1";
    player = true;
    author = some "Ann";
    author_peer = some 2;
    player_name = some "Ann";
    mirrored = false;
    streaming = false;
  });
}

-- One client is streamed a reply, and the other is not.
abbrev streamed : List ChatFrame
streamed =
    ChatFrame.append line
    ∷ ChatFrame.gen_start
    ∷ ChatFrame.gen_token "Seraphina" (some "Well")
    ∷ ChatFrame.edit "a1" (some "Good evening.")
    ∷ ChatFrame.gen_end
    ∷ []

abbrev unstreamed : List ChatFrame
unstreamed = ChatFrame.append line ∷ ChatFrame.edit "a1" (some "Good evening.") ∷ []

transcripts_agree_example :
    replica (chat_run streamed blank_bridge) ≡ replica (chat_run unstreamed blank_bridge)
transcripts_agree_example =
    transcripts_agree streamed unstreamed blank_bridge blank_bridge (tt, (tt, (tt, (tt, (tt, tt)))))
      (tt, (tt, tt)) tt tt refl refl
