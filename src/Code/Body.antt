-- ===== src/Code/Body.antt =====
-- lib/protocol.js, `encodeConnectionCode` and `decodeConnectionCode`: the bytes of a code.
pub mod Decoding
use Prim.Native.Nat.{bit_xor}
use vibed_st_muliplayer.Base.{
  ℕ, zero, suc, ◌+◌, ◌-◌, ◌*◌, ◌/◌, ◌%◌, Bool, true, false, not, ◌&&◌, ◌||◌, Option, none, some,
  List, [], ◌∷◌, ◌++◌, if◌then◌else◌, leb, ltb, ◌==◌, take, drop, length,
}
use vibed_st_muliplayer.Code.Letters.{Units, written, read}

-- `TextEncoder` and `TextDecoder` of the platform.
pub record Utf8 : Type 0 where
  pub encode : Units → List ℕ
  pub decode : List ℕ → Units

-- One of the eight rounds of `crc16` for a byte.
unfoldable pub crc_bit : ℕ → ℕ
crc_bit crc =
    if crc / 0x8000 % 2 == 1 then bit_xor (crc * 2) 0x1021 % 0x10000 else crc * 2 % 0x10000

unfoldable pub crc_bits : ℕ → ℕ → ℕ
unfolding crc_bit
crc_bits zero crc = crc
crc_bits (suc n) crc = crc_bits n (crc_bit crc)

unfoldable pub crc_bytes : ℕ → List ℕ → ℕ
unfolding crc_bits
crc_bytes crc [] = crc
crc_bytes crc (b ∷ bs) = crc_bytes (crc_bits 8 (bit_xor crc (b * 256))) bs

-- `crc16`
unfoldable pub crc16 : List ℕ → ℕ
unfolding crc_bytes
crc16 bytes = crc_bytes 0xffff bytes

pub record Octets : Type 0 where
  pub first : ℕ
  pub second : ℕ
  pub third : ℕ
  pub fourth : ℕ

-- The parts of a text between its dots.
unfoldable pub add_unit : ℕ → List Units → List Units
add_unit u [] = (u ∷ []) ∷ []
add_unit u (p ∷ ps) = (u ∷ p) ∷ ps

unfoldable pub dotted_parts : Units → List Units
unfolding add_unit
dotted_parts [] = [] ∷ []
dotted_parts (u ∷ us) = let rest = dotted_parts us in if u == 46 then [] ∷ rest else add_unit u rest

abbrev pub is_digit : ℕ → Bool
is_digit u = leb 48 u && leb u 57

-- One to three digits, `\d{1,3}`, and their number.
unfoldable pub octet_of : Units → Option ℕ
octet_of (a ∷ []) = if is_digit a then some (a - 48) else none
octet_of (a ∷ b ∷ []) = if is_digit a && is_digit b then some ((a - 48) * 10 + (b - 48)) else none
octet_of (a ∷ b ∷ c ∷ []) =
    if is_digit a && is_digit b && is_digit c
    then some ((a - 48) * 100 + (b - 48) * 10 + (c - 48))
    else none
octet_of _ = none

unfoldable pub four_octets : Option ℕ → Option ℕ → Option ℕ → Option ℕ → Option Octets
four_octets (some a) (some b) (some c) (some d) =
    some (record { first = a; second = b; third = c; fourth = d })
four_octets _ _ _ _ = none

unfoldable pub octets_in : List Units → Option Octets
unfolding octet_of four_octets
octets_in (a ∷ b ∷ c ∷ d ∷ []) = four_octets (octet_of a) (octet_of b) (octet_of c) (octet_of d)
octets_in _ = none

-- The match of `host` with four numbers between dots.
unfoldable pub octets_of : Units → Option Octets
unfolding octets_in dotted_parts
octets_of host = octets_in (dotted_parts host)

abbrev pub in_range : Octets → Bool
in_range o = leb o.first 255 && leb o.second 255 && leb o.third 255 && leb o.fourth 255

-- The address at the head of the body: its kind, and the octets or the name with its length.
unfoldable pub named_head : Bool → List ℕ → Option (List ℕ)
named_head secure name =
    if ltb 255 (length name) then none else some ((if secure then 4 else 2) ∷ length name ∷ name)

unfoldable pub address_head : Utf8 → Bool → Units → Option Octets → Option (List ℕ)
unfolding named_head
address_head utf8 secure host none = named_head secure (utf8.encode host)
address_head utf8 secure host (some o) =
    if in_range o
    then some ((if secure then 3 else 1) ∷ o.first ∷ o.second ∷ o.third ∷ o.fourth ∷ [])
    else none

-- The body and its checksum.
abbrev pub summed : List ℕ → List ℕ
summed payload = payload ++ crc16 payload / 256 % 256 ∷ crc16 payload % 256 ∷ []

unfoldable pub finish : ℕ → List ℕ → Option (List ℕ) → Option Units
unfolding crc16 written
finish port psk none = none
finish port psk (some head) =
    if ltb 65535 port
    then none
    else some (written (summed (head ++ port / 256 % 256 ∷ port % 256 ∷ psk)))

-- `encodeConnectionCode`: `none` where it throws.
unfoldable pub encode_code : Utf8 → Units → ℕ → List ℕ → Bool → Option Units
unfolding octets_of address_head finish
encode_code utf8 host port psk secure =
    if length psk == 16
    then finish port psk (address_head utf8 secure host (octets_of host))
    else none

pub record Decoded : Type 0 where
  pub host : Units
  pub port : ℕ
  pub psk : List ℕ
  pub secure : Bool

-- `bytes[i]`, where a byte out of range counts as 0 in the shifts.
unfoldable pub byte_at : ℕ → List ℕ → ℕ
byte_at i [] = 0
byte_at zero (b ∷ bs) = b
byte_at (suc i) (b ∷ bs) = byte_at i bs

-- A number below 1000 as it is written.
unfoldable pub decimal : ℕ → Units
decimal n =
    if ltb n 10
    then (48 + n) ∷ []
    else if ltb n 100
    then (48 + n / 10) ∷ (48 + n % 10) ∷ []
    else (48 + n / 100) ∷ (48 + n / 10 % 10) ∷ (48 + n % 10) ∷ []

-- `Array.from(…).join('.')`
unfoldable pub joined : List ℕ → Units
unfolding decimal
joined [] = []
joined (a ∷ []) = decimal a
joined (a ∷ b ∷ bs) = decimal a ++ 46 ∷ joined (b ∷ bs)

-- The port and the key, after the address.
unfoldable pub decode_tail : Bool → Units → List ℕ → Option Decoded
unfolding byte_at
decode_tail secure host rest =
    let psk = take 16 (drop 2 rest) in
    if length psk == 16
    then some (record {
      host = host;
      port = byte_at 0 rest * 256 + byte_at 1 rest;
      psk = psk;
      secure = secure;
    })
    else none

unfoldable pub decode_ipv4 : Bool → List ℕ → Option Decoded
unfolding joined decode_tail
decode_ipv4 secure bytes = decode_tail secure (joined (take 4 bytes)) (drop 4 bytes)

unfoldable pub decode_named : Utf8 → Bool → List ℕ → Option Decoded
unfolding decode_tail
decode_named utf8 secure [] = none
decode_named utf8 secure (n ∷ bytes) =
    decode_tail secure (utf8.decode (take n bytes)) (drop n bytes)

-- The body, by its kind.
unfoldable pub decode_payload : Utf8 → List ℕ → Option Decoded
unfolding decode_ipv4 decode_named
decode_payload utf8 [] = none
decode_payload utf8 (kind ∷ bytes) =
    if kind == 1
    then decode_ipv4 false bytes
    else if kind == 2
    then decode_named utf8 false bytes
    else if kind == 3
    then decode_ipv4 true bytes
    else if kind == 4
    then decode_named utf8 true bytes
    else none

-- The payload, if the two bytes after it are its checksum.
unfoldable pub verified : Utf8 → List ℕ → ℕ → ℕ → Option Decoded
unfolding crc16 decode_payload
verified utf8 payload high low =
    if crc16 payload == high * 256 + low then decode_payload utf8 payload else none

-- All the bytes, with the checksum at their end.
unfoldable pub decode_full : Utf8 → List ℕ → Option Decoded
unfolding verified byte_at
decode_full utf8 full =
    let size = length full - 2 in
    if ltb (length full) 4
    then none
    else verified utf8 (take size full) (byte_at size full) (byte_at (size + 1) full)

abbrev pub decode_bytes : Utf8 → Option (List ℕ) → Option Decoded
decode_bytes utf8 none = none
decode_bytes utf8 (some full) = decode_full utf8 full

-- `decodeConnectionCode`: `none` where it throws.
unfoldable pub decode_code : Utf8 → Units → Option Decoded
unfolding read decode_full
decode_code utf8 text = decode_bytes utf8 (read text)
