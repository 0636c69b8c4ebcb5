-- ===== src/Code/Base32/Roundtrip.antt =====
-- The digits of some bytes decode to these bytes.
use vibed_st_muliplayer.Base.{ℕ, ◌-◌, ◌*◌, ◌/◌, ◌%◌, ◌^◌, ◌<◌, ◌≡◌, refl, List, [], ◌∷◌, All, arith}
use vibed_st_muliplayer.Code.Base32.{shift_in, digits_out, last_digit, digits_of, bytes_of}

-- `n` bits of the byte `c` are still to go out, and the others have come in.
record IsSplit (n d e c : ℕ) : Type 0 where
  came_in : d % 2 ^ (8 - n) ≡ c / 2 ^ n
  to_go : e % 2 ^ n ≡ c % 2 ^ n
  byte : c < 256

abbrev Resumes : ℕ → List ℕ → Type 0
Resumes n bs = (d e c : ℕ) → IsSplit n d e c → bytes_of d (8 - n) (digits_of e n bs) ≡ c ∷ bs

abbrev Starts : List ℕ → Type 0
Starts bs = (d e : ℕ) → bytes_of d 0 (digits_of e 0 bs) ≡ bs

cons_eq : (x c : ℕ) (xs ys : List ℕ) → x ≡ c → xs ≡ ys → x ∷ xs ≡ c ∷ ys
cons_eq x c xs ys e h = cc

zero-cons : (x : ℕ) (bs : List ℕ) → x < 256 → Resumes 3 bs → Starts (x ∷ bs)
unfolding bytes_of digits_of digits_out
zero-cons x bs h resume d e =
    resume (shift_in d 5 (shift_in e 8 x / 8 % 32)) (shift_in e 8 x) x
      (record { came_in = omega arith; to_go = omega arith; byte = h })

three-cons : (x : ℕ) (bs : List ℕ) → x < 256 → Resumes 1 bs → Resumes 3 (x ∷ bs)
unfolding bytes_of digits_of digits_out
three-cons x bs h resume d e c s =
    cons_eq ((shift_in d 5 (shift_in e 8 x / 64 % 32)) / 4 % 256) c _ (x ∷ bs) (grind arith) (
      resume (shift_in (shift_in d 5 (shift_in e 8 x / 64 % 32)) 5 (shift_in e 8 x / 2 % 32))
        (shift_in e 8 x) x (record { came_in = grind arith; to_go = omega arith; byte = h }))

one-cons : (x : ℕ) (bs : List ℕ) → x < 256 → Resumes 4 bs → Resumes 1 (x ∷ bs)
unfolding bytes_of digits_of digits_out
one-cons x bs h resume d e c s =
    cons_eq ((shift_in d 5 (shift_in e 8 x / 16 % 32)) / 16 % 256) c _ (x ∷ bs) (grind arith) (
      resume (shift_in d 5 (shift_in e 8 x / 16 % 32)) (shift_in e 8 x) x
        (record { came_in = grind arith; to_go = omega arith; byte = h }))

four-cons : (x : ℕ) (bs : List ℕ) → x < 256 → Resumes 2 bs → Resumes 4 (x ∷ bs)
unfolding bytes_of digits_of digits_out
four-cons x bs h resume d e c s =
    cons_eq ((shift_in d 5 (shift_in e 8 x / 128 % 32)) / 2 % 256) c _ (x ∷ bs) (grind arith) (
      resume (shift_in (shift_in d 5 (shift_in e 8 x / 128 % 32)) 5 (shift_in e 8 x / 4 % 32))
        (shift_in e 8 x) x (record { came_in = grind arith; to_go = omega arith; byte = h }))

two-cons : (x : ℕ) (bs : List ℕ) → x < 256 → Starts bs → Resumes 2 (x ∷ bs)
unfolding bytes_of digits_of digits_out
two-cons x bs h start d e c s =
    cons_eq ((shift_in d 5 (shift_in e 8 x / 32 % 32)) / 8 % 256) c _ (x ∷ bs) (grind arith) (
      cons_eq
        ((shift_in (shift_in d 5 (shift_in e 8 x / 32 % 32)) 5 (shift_in e 8 x / 1 % 32)) / 1 % 256)
        x _ bs (omega arith)
        (start (shift_in (shift_in d 5 (shift_in e 8 x / 32 % 32)) 5 (shift_in e 8 x / 1 % 32))
          (shift_in e 8 x)))

-- All the states of the two loops that belong together.
record IsRoundtrip (bs : List ℕ) : Type 0 where
  start : Starts bs
  one : Resumes 1 bs
  two : Resumes 2 bs
  three : Resumes 3 bs
  four : Resumes 4 bs

nil-IsRoundtrip : IsRoundtrip []
unfolding bytes_of digits_of last_digit
nil-IsRoundtrip = record {
  start = λ d e. refl;
  one = λ d e c s.
      cons_eq (shift_in d 5 (e * 16 % 4294967296 % 32) / 16 % 256) c [] [] (grind arith) refl;
  two = λ d e c s.
      cons_eq (shift_in d 5 (e * 8 % 4294967296 % 32) / 8 % 256) c [] [] (grind arith) refl;
  three = λ d e c s.
      cons_eq (shift_in d 5 (e * 4 % 4294967296 % 32) / 4 % 256) c [] [] (grind arith) refl;
  four = λ d e c s.
      cons_eq (shift_in d 5 (e * 2 % 4294967296 % 32) / 2 % 256) c [] [] (grind arith) refl;
}

bytes-IsRoundtrip : (bs : List ℕ) → All (λ b. b < 256) bs → IsRoundtrip bs
bytes-IsRoundtrip [] h = nil-IsRoundtrip
bytes-IsRoundtrip (x ∷ bs) h =
    let rest = bytes-IsRoundtrip bs h.1 in
    record {
      start = zero-cons x bs h.0 rest.three;
      one = one-cons x bs h.0 rest.four;
      two = two-cons x bs h.0 rest.start;
      three = three-cons x bs h.0 rest.one;
      four = four-cons x bs h.0 rest.two;
    }

-- Decoding the digits of any bytes gives these bytes again, and nothing of the bits that fill the last
-- digit.
pub bytes-digits : (bs : List ℕ) → All (λ b. b < 256) bs → bytes_of 0 0 (digits_of 0 0 bs) ≡ bs
bytes-digits bs h = (bytes-IsRoundtrip bs h).start 0 0
