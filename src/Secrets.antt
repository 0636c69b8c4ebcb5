-- ===== src/Secrets.antt =====
-- lib/crypto.js and server/lib/crypto.js: the key schedule of a session, on both of its sides. The
-- primitives are those of WebCrypto and of node, which compute the same functions.
pub mod Agreement
use vibed_st_muliplayer.Base.{
  ℕ, zero, suc, ◌-◌, String, Bool, true, false, Option, none, some, List, [], ◌∷◌, ◌++◌,
  if◌then◌else◌, length, take, drop, ◌==◌,
}
use vibed_st_muliplayer.Relay.State.{Bytes}
use vibed_st_muliplayer.Relay.Handshake.{Session, Crypto}
use Prim.Native.Char.{code}

-- ECDH on P-256, SHA-256, HKDF over it (key, salt, info, length) and HMAC (key, message). `ecdh` is
-- `none` where the import of the public key throws.
pub record Primitives : Type 0 where
  pub ecdh : Bytes → Bytes → Option Bytes
  pub sha256 : Bytes → Bytes
  pub hkdf : Bytes → Bytes → Bytes → ℕ → Bytes
  pub hmac : Bytes → Bytes → Bytes

-- `encoder.encode(label)`, for a label in ASCII.
abbrev pub label : String → Bytes
label String.[] = []
label (String.◌∷◌ c s) = code c ∷ label s

pub record Keys : Type 0 where
  pub send : Bytes
  pub receive : Bytes
  pub send_salt : Bytes
  pub receive_salt : Bytes
  pub confirm_key : Bytes

-- `KDF_SLICES`: from one offset to another.
unfoldable pub slice : ℕ → ℕ → Bytes → Bytes
slice from to okm = take (to - from) (drop from okm)

-- The keys of the browser, which is the client: `isClient` is true wherever lib/crypto.js is called.
unfoldable pub client_keys : Bytes → Keys
client_keys okm = record {
  send = slice 0 32 okm;
  receive = slice 32 64 okm;
  send_salt = slice 64 68 okm;
  receive_salt = slice 68 72 okm;
  confirm_key = slice 72 104 okm;
}

-- The keys of the relay.
unfoldable pub server_keys : Bytes → Keys
server_keys okm = record {
  receive = slice 0 32 okm;
  send = slice 32 64 okm;
  receive_salt = slice 64 68 okm;
  send_salt = slice 68 72 okm;
  confirm_key = slice 72 104 okm;
}

-- What `deriveSessionKeys` returns to the browser.
pub record Derived : Type 0 where
  pub keys : Keys
  pub transcript : Bytes

module _ (p : Primitives) where
  -- The hash of the transcript, in the order client, server.
  unfoldable pub transcript_of : (client_pub server_pub client_nonce server_nonce : Bytes) → Bytes
  transcript_of cp sp cn sn = p.sha256 (label "STMP/1 handshake" ++ (cp ++ (sp ++ (cn ++ sn))))

  unfoldable pub okm_of : (shared psk transcript : Bytes) → Bytes
  okm_of shared psk transcript = p.hkdf (shared ++ psk) transcript (label "STMP/1 keys") 104

  abbrev pub derived_from : Bytes → Bytes → Option Bytes → Option Derived
  derived_from psk transcript none = none
  derived_from psk transcript (some shared) =
      some (record { keys = client_keys (okm_of shared psk transcript); transcript = transcript })

  -- `deriveSessionKeys` of lib/crypto.js
  unfoldable pub derive_client : (secret own peer own_nonce peer_nonce psk : Bytes) → Option Derived
  unfolding transcript_of
  derive_client secret own peer own_nonce peer_nonce psk =
      derived_from psk (transcript_of own peer own_nonce peer_nonce) (p.ecdh secret peer)

  abbrev pub session_from : Bytes → Bytes → Option Bytes → Option Session
  session_from psk transcript none = none
  session_from psk transcript (some shared) =
      some (record { keys = okm_of shared psk transcript; transcript = transcript })

  -- `deriveSessionKeys` of server/lib/crypto.js, once the point is known to be uncompressed.
  unfoldable pub derive_server : (secret own peer own_nonce peer_nonce psk : Bytes) → Option Session
  unfolding transcript_of
  derive_server secret own peer own_nonce peer_nonce psk =
      session_from psk (transcript_of peer own peer_nonce own_nonce) (p.ecdh secret peer)

  -- `computeConfirmation`
  unfoldable pub compute_confirmation : Bytes → Bytes → String → Bytes
  compute_confirmation confirm_key transcript who = p.hmac confirm_key (label who ++ transcript)

  -- `deriveRoomId`
  unfoldable pub derive_room_id : Bytes → Bytes
  derive_room_id psk = take 8 (p.sha256 (label "STMP/1 room-id" ++ psk))

  -- The relay's cryptography out of the primitives.
  abbrev pub node_crypto : Crypto
  node_crypto = record {
    room_of = derive_room_id;
    derive = derive_server;
    confirmation = λ s who. compute_confirmation (server_keys s.keys).confirm_key s.transcript who;
  }
