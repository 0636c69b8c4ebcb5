-- ===== src/Code/Base32.antt =====
-- lib/protocol.js, `base32Encode` and `base32Decode`: the bytes of a code as digits of five bits. The
-- bits of `buffer` wrap around at 32.
pub mod Roundtrip
use vibed_st_muliplayer.Base.{
  ℕ, zero, suc, ◌+◌, ◌-◌, ◌*◌, ◌/◌, ◌%◌, ◌^◌, Option, none, some, List, [], ◌∷◌, ◌++◌,
  if◌then◌else◌, leb, ltb,
}

-- The `while` loop: five bits go out while there are five, at most as often as there are bits.
unfoldable pub digits_out : ℕ → ℕ → ℕ → List ℕ × ℕ
digits_out zero buffer bits = ([], bits)
digits_out (suc fuel) buffer bits =
    let rest = digits_out fuel buffer (bits - 5) in
    if leb 5 bits then (buffer / 2 ^ (bits - 5) % 32 ∷ rest.0, rest.1) else ([], bits)

-- `(buffer << n) | value`, for a value of at most `n` bits.
abbrev pub shift_in : ℕ → ℕ → ℕ → ℕ
shift_in buffer n value = buffer * 2 ^ n % 2 ^ 32 + value

-- The bits that are left over fill a last digit.
unfoldable pub last_digit : ℕ → ℕ → List ℕ
last_digit buffer bits = if ltb 0 bits then buffer * 2 ^ (5 - bits) % 2 ^ 32 % 32 ∷ [] else []

-- `base32Encode` from a state of its loop, to digits.
unfoldable pub digits_of : ℕ → ℕ → List ℕ → List ℕ
unfolding digits_out last_digit
digits_of buffer bits [] = last_digit buffer bits
digits_of buffer bits (b ∷ bs) =
    let buffer' = shift_in buffer 8 b in
    let out = digits_out (bits + 8) buffer' (bits + 8) in out.0 ++ digits_of buffer' out.1 bs

-- `base32Decode` from a state of its loop, from digits.
unfoldable pub bytes_of : ℕ → ℕ → List ℕ → List ℕ
bytes_of buffer bits [] = []
bytes_of buffer bits (v ∷ vs) =
    let buffer' = shift_in buffer 5 v in
    let full = bytes_of buffer' (bits + 5 - 8) vs in
    let more = bytes_of buffer' (bits + 5) vs in
    if leb 8 (bits + 5) then buffer' / 2 ^ (bits + 5 - 8) % 256 ∷ full else more
