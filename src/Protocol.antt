-- ===== src/Protocol.antt =====
-- server/lib/protocol.js: the opcodes, the tables of what the relay does with them, and the limits.
pub mod Limits
use vibed_st_muliplayer.Base.{String, Bool, true, false}

-- `OP`. A frame may carry any string as its opcode: `other` is one that the table lacks.
pub data Op : Type 0 where
  welcome_update welcome roster peer_join peer_leave kick ping pong : Op
  parity_challenge parity_report parity_result parity_urls_request parity_urls : Op
  cards_index cards_want cards_avatar cards_definition : Op
  session_state session_join : Op
  chat_state chat_append chat_turn chat_typing : Op
  persona_state : Op
  ooc_message ooc_history ooc_typing : Op
  chat_edit chat_delete : Op
  gen_request gen_notice gen_start gen_token gen_end gen_abort : Op
  error : Op
  other : String → Op

-- `ROLE`
pub data Role : Type 0 where
  host client : Role

abbrev pub is_host : Role → Bool
is_host host = true
is_host client = false

-- `CLIENT_ALLOWED_OPS`: what a peer that is not the host may originate.
abbrev pub client_allowed : Op → Bool
client_allowed ping = true
client_allowed pong = true
client_allowed roster = true
client_allowed parity_report = true
client_allowed cards_want = true
client_allowed chat_turn = true
client_allowed chat_typing = true
client_allowed ooc_message = true
client_allowed ooc_typing = true
client_allowed parity_urls_request = true
client_allowed session_join = true
client_allowed gen_request = true
client_allowed persona_state = true
client_allowed chat_edit = true
client_allowed chat_delete = true
client_allowed _ = false

-- `TO_HOST_ONLY`: forwarded to the host, and to nobody else.
abbrev pub to_host_only : Op → Bool
to_host_only cards_want = true
to_host_only chat_turn = true
to_host_only parity_urls_request = true
to_host_only session_join = true
to_host_only gen_request = true
to_host_only chat_edit = true
to_host_only chat_delete = true
to_host_only _ = false

-- `ECHO_TO_SENDER`
abbrev pub echo_to_sender : Op → Bool
echo_to_sender ooc_message = true
echo_to_sender _ = false

-- `STAMP_IDENTITY`: stamped with the sender's name as well as its id.
abbrev pub stamp_identity : Op → Bool
stamp_identity ooc_message = true
stamp_identity persona_state = true
stamp_identity chat_typing = true
stamp_identity _ = false
