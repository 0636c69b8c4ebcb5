-- ===== src/Secrets/Agreement.antt =====
-- lib/crypto.js and server/lib/crypto.js: the two sides of a session come to the same secrets.
use vibed_st_muliplayer.Base.{refl}
use vibed_st_muliplayer.Relay.State.{Bytes}
use vibed_st_muliplayer.Secrets.{client_keys, server_keys}
use vibed_st_muliplayer.Base.{◌≡◌}
use vibed_st_muliplayer.Secrets.{Keys}

-- What one side sends with, the other receives with; both confirm with one key.
pub record IsCrossed (a b : Keys) : Type 0 where
  pub forth : a.send ≡ b.receive
  pub back : a.receive ≡ b.send
  pub forth_salt : a.send_salt ≡ b.receive_salt
  pub back_salt : a.receive_salt ≡ b.send_salt
  pub confirm : a.confirm_key ≡ b.confirm_key

pub crossed : (okm : Bytes) → IsCrossed (client_keys okm) (server_keys okm)
unfolding client_keys server_keys
crossed okm = record {
  forth = refl;
  back = refl;
  forth_salt = refl;
  back_salt = refl;
  confirm = refl;
}
