-- ===== src/Relay/Abuse.antt =====
-- server/lib/relay.js: failed handshakes, blocked and banned addresses, and half-open connections.
pub mod Blocking
use vibed_st_muliplayer.Base.{
  ℕ, ◌+◌, String, Bool, false, not, ◌&&◌, ◌||◌, Option, none, some, List, [], ◌∷◌, if◌then◌else◌,
  ltb, leb, filter,
}
use vibed_st_muliplayer.Base.Texts.{same}
use vibed_st_muliplayer.Protocol.Limits
use vibed_st_muliplayer.Relay.State.{Offender}

-- `this.bans.has(ip)`
unfoldable pub is_banned : String → List String → Bool
is_banned ip [] = false
is_banned ip (b ∷ bs) = same b ip || is_banned ip bs

-- `this.bans.add(ip)`
unfoldable pub add_ban : String → List String → List String
unfolding is_banned
add_ban ip bs = if is_banned ip bs then bs else ip ∷ bs

-- `this.offenders.get(ip)`
unfoldable pub find_offender : String → List Offender → Option Offender
find_offender ip [] = none
find_offender ip (o ∷ os) = if same o.ip ip then some o else find_offender ip os

-- `this.offenders.set(ip, …)` and `this.offenders.delete(ip)`
unfoldable pub put_offender : Offender → List Offender → List Offender
put_offender o [] = o ∷ []
put_offender o (x ∷ xs) = if same x.ip o.ip then o ∷ xs else x ∷ put_offender o xs

unfoldable pub drop_offender : String → List Offender → List Offender
drop_offender ip [] = []
drop_offender ip (x ∷ xs) = if same x.ip ip then xs else x ∷ drop_offender ip xs

-- A failure more; the fifth blocks the address for a minute, and the count starts again.
unfoldable pub one_more : ℕ → Offender → Offender
one_more now o =
    if leb Limits.max_handshake_failures (o.failures + 1)
    then record o { failures = 0; blocked_until = now + Limits.handshake_block_ms }
    else record o { failures = o.failures + 1 }

unfoldable pub offender_or_new : String → Option Offender → Offender
offender_or_new ip none = record { ip = ip; failures = 0; blocked_until = 0 }
offender_or_new ip (some o) = o

-- `#noteFailure`
unfoldable pub note_failure : String → ℕ → List Offender → List Offender
unfolding put_offender one_more offender_or_new find_offender
note_failure ip now os = put_offender (one_more now (offender_or_new ip (find_offender ip os))) os

-- `#isBlocked`
unfoldable pub is_blocked : String → ℕ → List Offender → Bool
unfolding find_offender
is_blocked ip now os = elim (find_offender ip os) [
  | none ↦ false
  | some o ↦ ltb now o.blocked_until
]

-- What `sweep` does to the offenders: a block that is over is forgotten.
unfoldable pub still_blocked : ℕ → List Offender → List Offender
still_blocked now os = filter (λ o. not (ltb 0 o.blocked_until && ltb o.blocked_until now)) os
