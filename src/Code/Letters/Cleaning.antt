-- ===== src/Code/Letters/Cleaning.antt =====
-- The text of a code is read back, whatever cleaning does to its dashes.
use vibed_st_muliplayer.Base.{
  length-drop, ltb, All-append, subst, ==_iff, ℕ, zero, suc, ◌+◌, ◌-◌, ◌<◌, ◌≤◌, ◌≡◌, refl, sym,
  ◌∙◌, ap, Bool, true, false, not, ◌&&◌, ◌||◌, Option, none, some, List, [], ◌∷◌, ◌++◌, leb, ◌==◌,
  take, drop, length, map, All, arith, Bool-cases, inl, inr,
}
use vibed_st_muliplayer.Base.Texts.{is_space}
use vibed_st_muliplayer.Code.Base32.{shift_in, digits_of, digits_out, last_digit}
use vibed_st_muliplayer.Code.Base32.Roundtrip.{bytes-digits}
use vibed_st_muliplayer.Code.Letters.{
  packed, Units, crockford, letter_in, value_of, index_in, values_of, base32_encode, base32_decode,
  groups_of, join_dashes, dash, written, upper, cleaned, after, read,
}

-- The digit's letter is read as the digit, and cleaning keeps it.
abbrev is_good : ℕ → Bool
is_good v =
    let u = letter_in crockford v in
    (elim (value_of u) [ none ↦ false | some w ↦ w == v ])
    && upper u == u
    && not (is_space u || u == dash)

all_below : ℕ → (ℕ → Bool) → Bool
all_below zero p = true
all_below (suc n) p = all_below n p && p n

all_below-holds : (n : ℕ) (p : ℕ → Bool) (v : ℕ) → all_below n p ≡ true → v < n → p v ≡ true
unfolding all_below
all_below-holds zero p v h k = ground arith
all_below-holds (suc n) p v h k = elim (Bool-cases (v == n)) [
  | inl last ↦ subst (λ w. p w ≡ true) (sym ((==_iff v n).0 last)) (ground arith)
  | inr earlier ↦ all_below-holds n p v (ground arith) (ground arith)
]

digit-is_good : all_below 32 is_good ≡ true
unfolding all_below letter_in value_of index_in
digit-is_good = refl

and_split : (a b c : Bool) → (a && b && not c) ≡ true → (a ≡ true) × (b ≡ true) × (c ≡ false)
and_split a b c h = ground arith

good-digit :
    (v : ℕ) (o : Option ℕ) (u : ℕ)
    → o ≡ value_of u
    → ((elim o [ none ↦ false | some w ↦ w == v ]) && upper u == u && not (is_space u || u == dash))
      ≡ true
    → (o ≡ some v) × (upper u ≡ u) × ((is_space u || u == dash) ≡ false)
good-digit v none u e h = cc
good-digit v (some w) u e h =
    let (a, b, c) = and_split (w == v) (upper u == u) (is_space u || u == dash) h in
    (ap some ((==_iff w v).0 a), (==_iff (upper u) u).0 b, c)

digit-letter :
    (v : ℕ)
    → v < 32
    → (value_of (letter_in crockford v) ≡ some v)
      × (upper (letter_in crockford v) ≡ letter_in crockford v)
      × ((is_space (letter_in crockford v) || letter_in crockford v == dash) ≡ false)
digit-letter v h =
    good-digit v (value_of (letter_in crockford v)) (letter_in crockford v) refl
      (all_below-holds 32 is_good v digit-is_good h)

-- Cleaning one part after the other.
cleaned-append : (xs ys : Units) → cleaned (xs ++ ys) ≡ cleaned xs ++ cleaned ys
unfolding cleaned
cleaned-append [] ys = refl
cleaned-append (x ∷ xs) ys = ground (arith, cleaned-append xs ys)

take-drop : (n : ℕ) (xs : Units) → take n xs ++ drop n xs ≡ xs
take-drop zero xs = refl
take-drop (suc n) [] = refl
take-drop (suc n) (x ∷ xs) = ap (λ ys. x ∷ ys) (take-drop n xs)

cleaned-dash : (xs : Units) → cleaned (dash ∷ xs) ≡ cleaned xs
unfolding cleaned
cleaned-dash xs = refl

append_nil : (xs : Units) → xs ++ [] ≡ xs
append_nil [] = refl
append_nil (x ∷ xs) = ap (λ ys. x ∷ ys) (append_nil xs)

cleaned-join_cons :
    (g : Units) (gs : List Units)
    → cleaned (join_dashes (g ∷ gs)) ≡ cleaned g ++ cleaned (join_dashes gs)
unfolding join_dashes cleaned
cleaned-join_cons g [] = sym (append_nil (cleaned g))
cleaned-join_cons g (h ∷ gs) =
    cleaned-append g (dash ∷ join_dashes (h ∷ gs))
    ∙ ap (λ ys. cleaned g ++ ys) (cleaned-dash (join_dashes (h ∷ gs)))

cleaned-groups :
    (n : ℕ) (xs : Units) → length xs ≤ n → cleaned (join_dashes (groups_of n xs)) ≡ cleaned xs
unfolding groups_of join_dashes
cleaned-groups n [] h = refl
cleaned-groups zero (x ∷ xs) h = ground arith
cleaned-groups (suc n) (x ∷ xs) h =
    cleaned-join_cons (take 5 (x ∷ xs)) (groups_of n (drop 5 (x ∷ xs)))
    ∙ ap (λ ys. cleaned (take 5 (x ∷ xs)) ++ ys)
        (cleaned-groups n (drop 5 (x ∷ xs)) (omega (arith, length-drop 4 xs)))
    ∙ sym (cleaned-append (take 5 (x ∷ xs)) (drop 5 (x ∷ xs)))
    ∙ ap cleaned (take-drop 5 (x ∷ xs))

letters-cleaned :
    (ds : List ℕ)
    → All (λ v. v < 32) ds
    → cleaned (map (letter_in crockford) ds) ≡ map (letter_in crockford) ds
unfolding cleaned
letters-cleaned [] h = refl
letters-cleaned (d ∷ ds) h =
    let (_, up, kept) = digit-letter d h.0 in
    rw up (rw kept (ap (λ ys. letter_in crockford d ∷ ys) (letters-cleaned ds h.1)))

letters-values :
    (ds : List ℕ) → All (λ v. v < 32) ds → values_of (map (letter_in crockford) ds) ≡ some ds
unfolding values_of
letters-values [] h = refl
letters-values (d ∷ ds) h =
    let (value, _, _) = digit-letter d h.0 in rw value (rw (letters-values ds h.1) refl)

digits_out-All : (fuel buffer bits : ℕ) → All (λ v. v < 32) (digits_out fuel buffer bits).0
unfolding digits_out
digits_out-All zero buffer bits = tt
digits_out-All (suc fuel) buffer bits = elim (Bool-cases (leb 5 bits)) [
  | inl more ↦ rw more (omega arith, digits_out-All fuel buffer (bits - 5))
  | inr over ↦ rw over tt
]

digits_of-All : (buffer bits : ℕ) (bs : List ℕ) → All (λ v. v < 32) (digits_of buffer bits bs)
unfolding digits_of last_digit
digits_of-All buffer bits [] = elim (Bool-cases (ltb 0 bits)) [
  | inl left ↦ rw left (omega arith, tt)
  | inr whole ↦ rw whole tt
]
digits_of-All buffer bits (b ∷ bs) =
    let out = digits_out (bits + 8) (shift_in buffer 8 b) (bits + 8) in
    All-append (λ v. v < 32) out.0 (digits_of (shift_in buffer 8 b) out.1 bs)
      (digits_out-All (bits + 8) (shift_in buffer 8 b) (bits + 8))
      (digits_of-All (shift_in buffer 8 b) out.1 bs)

base32_decode-encode :
    (bs : List ℕ) → All (λ b. b < 256) bs → base32_decode (base32_encode bs) ≡ some bs
unfolding base32_encode base32_decode
base32_decode-encode bs h =
    ap packed (letters-values (digits_of 0 0 bs) (digits_of-All 0 0 bs))
    ∙ ap some (bytes-digits bs h)

-- A code that is written is read back: for any bytes, upper case and the removal of white space and
-- dashes leave the letters of the code, whose values decode to these bytes.
pub read-written : (bs : List ℕ) → All (λ b. b < 256) bs → read (written bs) ≡ some bs
unfolding read written after cleaned base32_encode
read-written bs h =
    let raw = base32_encode bs in
    let letters : cleaned (join_dashes (groups_of (length raw) raw)) ≡ raw =
      cleaned-groups (length raw) raw (omega arith)
      ∙ letters-cleaned (digits_of 0 0 bs) (digits_of-All 0 0 bs) in
    ap base32_decode letters ∙ base32_decode-encode bs h
