-- ===== src/Code/Address.antt =====
-- lib/protocol.js: the address that a code advertises. A text is the list of its UTF-16 units.
pub mod Reach
use vibed_st_muliplayer.Base.{
  ℕ, zero, suc, ◌+◌, ◌-◌, Bool, true, false, not, ◌&&◌, ◌||◌, Option, none, some, List, [], ◌∷◌,
  ◌++◌, if◌then◌else◌, leb, ◌==◌, drop, length, map,
}
use vibed_st_muliplayer.Base.Texts.{is_space}
use vibed_st_muliplayer.Code.Letters.{Units}
use vibed_st_muliplayer.Code.Body.{Octets, octets_of, in_range}

unfoldable pub units_equal : Units → Units → Bool
units_equal [] [] = true
units_equal [] (v ∷ vs) = false
units_equal (u ∷ us) [] = false
units_equal (u ∷ us) (v ∷ vs) = u == v && units_equal us vs

unfoldable pub starts_with : Units → Units → Bool
starts_with [] text = true
starts_with (p ∷ ps) [] = false
starts_with (p ∷ ps) (u ∷ us) = u == p && starts_with ps us

unfoldable pub ends_with : Units → Units → Bool
unfolding units_equal
ends_with end text =
    leb (length end) (length text) && units_equal (drop (length text - length end) text) end

unfoldable pub trimmed_start : Units → Units
trimmed_start [] = []
trimmed_start (u ∷ us) = if is_space u then trimmed_start us else u ∷ us

abbrev pub is_blank : Units → Bool
is_blank [] = true
is_blank (u ∷ us) = false

unfoldable pub trimmed_end : Units → Units
trimmed_end [] = []
trimmed_end (u ∷ us) =
    let rest = trimmed_end us in if is_blank rest && is_space u then [] else u ∷ rest

unfoldable pub trimmed : Units → Units
unfolding trimmed_start trimmed_end
trimmed text = trimmed_end (trimmed_start text)

-- `toLowerCase`, on the letters A to Z; what it makes of letters outside ASCII is not modelled.
abbrev pub lower : ℕ → ℕ
lower u = if leb 65 u && leb u 90 then u + 32 else u

-- `String(host ?? '').trim().toLowerCase()`
unfoldable pub normal : Units → Units
unfolding trimmed
normal host = map lower (trimmed host)

-- localhost, ::1, .localhost and .local
abbrev pub localhost : Units
localhost = 108 ∷ 111 ∷ 99 ∷ 97 ∷ 108 ∷ 104 ∷ 111 ∷ 115 ∷ 116 ∷ []

abbrev pub loopback_v6 : Units
loopback_v6 = 58 ∷ 58 ∷ 49 ∷ []

abbrev pub dot_localhost : Units
dot_localhost = 46 ∷ localhost

abbrev pub dot_local : Units
dot_local = 46 ∷ 108 ∷ 111 ∷ 99 ∷ 97 ∷ 108 ∷ []

pub data Kind : Type 0 where
  loopback lan tailnet public hostname unknown : Kind

-- The kind of four numbers.
unfoldable pub kind_of_octets : Octets → Kind
kind_of_octets o =
    if not (in_range o)
    then Kind.unknown
    else if o.first == 127
    then Kind.loopback
    else if o.first == 100 && leb 64 o.second && leb o.second 127
    then Kind.tailnet
    else if o.first == 10
    then Kind.lan
    else if o.first == 192 && o.second == 168
    then Kind.lan
    else if o.first == 172 && leb 16 o.second && leb o.second 31
    then Kind.lan
    else if o.first == 169 && o.second == 254
    then Kind.lan
    else Kind.public

abbrev pub kind_of_match : Option Octets → Kind
kind_of_match none = Kind.hostname
kind_of_match (some o) = kind_of_octets o

-- `classifyAddress`
unfoldable pub classify_address : Units → Kind
unfolding normal units_equal ends_with kind_of_octets octets_of
classify_address host =
    let value = normal host in
    if is_blank value
    then Kind.unknown
    else if units_equal value localhost
        || units_equal value loopback_v6
        || ends_with dot_localhost value
    then Kind.loopback
    else if ends_with dot_local value
    then Kind.lan
    else kind_of_match (octets_of value)

unfoldable pub private_octets : Octets → Bool
private_octets o =
    o.first == 10
    || o.first == 127
    || o.first == 192 && o.second == 168
    || o.first == 172 && leb 16 o.second && leb o.second 31
    || o.first == 169 && o.second == 254

abbrev pub private_match : Units → Option Octets → Bool
private_match value none = units_equal value loopback_v6
private_match value (some o) = private_octets o

-- `isPrivateAddress`
unfoldable pub is_private_address : Units → Bool
unfolding normal units_equal ends_with private_octets octets_of
is_private_address host =
    let value = normal host in
    if is_blank value
    then false
    else if units_equal value localhost
        || ends_with dot_local value
        || ends_with dot_localhost value
    then true
    else private_match value (octets_of value)

pub data Source : Type 0 where
  typed router detected invalid : Source

-- The errors and the warnings, without their words.
pub data Refusal : Type 0 where
  secure_without_host unreachable : Refusal

pub data Warning : Type 0 where
  points_at_loopback points_at_lan points_at_tailnet : Warning

pub record Wish : Type 0 where
  pub advertise_host : Units
  pub advertise_port : ℕ
  pub advertise_secure : Bool
  pub bind_lan : Bool
  pub public_host : Option Units
  pub detected_host : Units
  pub listen_port : ℕ

pub record Advertisement : Type 0 where
  pub host : Units
  pub port : ℕ
  pub secure : Bool
  pub source : Source
  pub error : Option Refusal
  pub warnings : List Warning

-- `/^(127\.|localhost$|::1$)/`
unfoldable pub points_here : Units → Bool
unfolding starts_with units_equal
points_here text =
    starts_with (49 ∷ 50 ∷ 55 ∷ 46 ∷ []) text
    || units_equal text localhost
    || units_equal text loopback_v6

-- What the router reported, if it is a text with something in it, or else the detected host.
abbrev pub router_or_detected : Option Units → Units → Units × Source
router_or_detected none own = (own, Source.detected)
router_or_detected (some []) own = (own, Source.detected)
router_or_detected (some (u ∷ us)) own = (u ∷ us, Source.router)

abbrev pub chosen : Units → Option Units → Units → Units × Source
chosen [] reported own = router_or_detected reported own
chosen (u ∷ us) reported own = (u ∷ us, Source.typed)

abbrev pub non_zero : ℕ → ℕ → ℕ
non_zero zero other = other
non_zero (suc n) other = suc n

abbrev pub is_typed : Source → Bool
is_typed Source.typed = true
is_typed _ = false

abbrev pub warnings_for : Kind → Source → List Warning
warnings_for Kind.loopback source = Warning.points_at_loopback ∷ []
warnings_for Kind.lan source = if is_typed source then [] else Warning.points_at_lan ∷ []
warnings_for Kind.tailnet source = Warning.points_at_tailnet ∷ []
warnings_for _ source = []

abbrev pub refused : Units → Bool → Refusal → Advertisement
refused host secure error = record {
  host = host;
  port = 0;
  secure = secure;
  source = Source.invalid;
  error = some error;
  warnings = [];
}

-- The advertisement without an error, for the text that the player typed, trimmed.
unfoldable pub advertised : Units → Wish → Advertisement
unfolding classify_address
advertised text w =
    let (host, source) = chosen text w.public_host w.detected_host in
    let listening = non_zero w.listen_port 8899 in
    record {
      host = host;
      port = non_zero w.advertise_port (if w.advertise_secure then 0 else listening);
      secure = w.advertise_secure;
      source = source;
      error = none;
      warnings = warnings_for (classify_address host) source;
    }

unfoldable pub advertise : Units → Wish → Advertisement
unfolding points_here advertised
advertise text w =
    if w.advertise_secure && is_blank text
    then refused [] w.advertise_secure Refusal.secure_without_host
    else if not (is_blank text) && not w.bind_lan && not (points_here text)
    then refused text w.advertise_secure Refusal.unreachable
    else advertised text w

-- `resolveAdvertisement`
unfoldable pub resolve_advertisement : Wish → Advertisement
unfolding trimmed advertise
resolve_advertisement w = advertise (trimmed w.advertise_host) w
