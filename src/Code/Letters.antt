-- ===== src/Code/Letters.antt =====
-- lib/protocol.js: the letters of a connection code. A text is the list of its UTF-16 units.
pub mod Cleaning
use vibed_st_muliplayer.Base.{
  ℕ, zero, suc, ◌+◌, ◌-◌, Bool, true, false, not, ◌&&◌, ◌||◌, Option, none, some, List, [], ◌∷◌,
  ◌++◌, if◌then◌else◌, leb, ◌==◌, filter, take, drop, length, map,
}
use vibed_st_muliplayer.Base.Texts.{is_space}
use vibed_st_muliplayer.Code.Base32.{digits_of, bytes_of}

abbrev pub Units : Type 0
Units = List ℕ

-- `CROCKFORD`: 0-9 and A-Z without I, L, O and U.
abbrev pub crockford : Units
crockford =
    48 ∷ 49 ∷ 50 ∷ 51 ∷ 52 ∷ 53 ∷ 54 ∷ 55 ∷ 56 ∷ 57 ∷ 65 ∷ 66 ∷ 67 ∷ 68 ∷ 69 ∷ 70 ∷ 71 ∷ 72 ∷ 74
    ∷ 75 ∷ 77 ∷ 78 ∷ 80 ∷ 81 ∷ 82 ∷ 83 ∷ 84 ∷ 86 ∷ 87 ∷ 88 ∷ 89 ∷ 90 ∷ []

-- `CROCKFORD[i]`; a digit is never out of range.
unfoldable pub letter_in : Units → ℕ → ℕ
letter_in [] i = 0
letter_in (c ∷ cs) zero = c
letter_in (c ∷ cs) (suc i) = letter_in cs i

unfoldable pub index_in : ℕ → ℕ → Units → Option ℕ
index_in i u [] = none
index_in i u (c ∷ cs) = let later = index_in (suc i) u cs in if u == c then some i else later

-- `CROCKFORD_MAP.get`: O is read as 0, I and L as 1.
unfoldable pub value_of : ℕ → Option ℕ
unfolding index_in
value_of u =
    let index = index_in 0 u crockford in
    if u == 79 then some 0 else if u == 73 || u == 76 then some 1 else index

abbrev pub and_then : ℕ → Option (List ℕ) → Option (List ℕ)
and_then v none = none
and_then v (some vs) = some (v ∷ vs)

abbrev pub read_next : Option ℕ → Option (List ℕ) → Option (List ℕ)
read_next none rest = none
read_next (some v) rest = and_then v rest

-- The values of the letters, if each has one.
unfoldable pub values_of : Units → Option (List ℕ)
unfolding value_of
values_of [] = some []
values_of (u ∷ us) = read_next (value_of u) (values_of us)

-- `base32Encode`
unfoldable pub base32_encode : List ℕ → Units
unfolding letter_in
base32_encode bytes = map (letter_in crockford) (digits_of 0 0 bytes)

abbrev pub packed : Option (List ℕ) → Option (List ℕ)
packed none = none
packed (some vs) = some (bytes_of 0 0 vs)

-- `base32Decode`: it throws at the first letter without a value.
unfoldable pub base32_decode : Units → Option (List ℕ)
unfolding values_of
base32_decode text = packed (values_of text)

-- `raw.match(/.{1,5}/g)`, on at most as many groups as there are letters.
unfoldable pub groups_of : ℕ → Units → List Units
groups_of fuel [] = []
groups_of zero (u ∷ us) = []
groups_of (suc fuel) (u ∷ us) = take 5 (u ∷ us) ∷ groups_of fuel (drop 5 (u ∷ us))

abbrev pub dash : ℕ
dash = 45

-- `groups.join('-')`
unfoldable pub join_dashes : List Units → Units
join_dashes [] = []
join_dashes (g ∷ []) = g
join_dashes (g ∷ h ∷ gs) = g ++ dash ∷ join_dashes (h ∷ gs)

-- `CODE_PREFIX`: STMP1
abbrev pub prefix : Units
prefix = 83 ∷ 84 ∷ 77 ∷ 80 ∷ 49 ∷ []

-- The text of a code, from all its bytes.
unfoldable pub written : List ℕ → Units
unfolding base32_encode groups_of join_dashes
written bytes =
    let raw = base32_encode bytes in prefix ++ dash ∷ join_dashes (groups_of (length raw) raw)

-- `toUpperCase`, on the letters a to z; what it makes of letters outside ASCII is not modelled.
abbrev pub upper : ℕ → ℕ
upper u = if leb 97 u && leb u 122 then u - 32 else u

-- `.toUpperCase().replace(/[\s-]/g, '')`
unfoldable pub cleaned : Units → Units
cleaned text = filter (λ u. not (is_space u || u == dash)) (map upper text)

-- The rest of the text after the prefix, if it starts with it.
unfoldable pub after : Units → Units → Option Units
after [] text = some text
after (p ∷ ps) [] = none
after (p ∷ ps) (u ∷ us) = let rest = after ps us in if u == p then rest else none

abbrev pub decoded : Option Units → Option (List ℕ)
decoded none = none
decoded (some text) = base32_decode text

-- The bytes of a code, from its text.
unfoldable pub read : Units → Option (List ℕ)
unfolding cleaned after base32_decode
read text = decoded (after prefix (cleaned text))
