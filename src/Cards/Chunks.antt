-- ===== src/Cards/Chunks.antt =====
-- lib/cards.js: the chunks of a file, put together, make the file again.
use vibed_st_muliplayer.Base.{
  sym, ℕ, zero, suc, ◌+◌, ◌*◌, ◌≤◌, ◌≡◌, refl, ap, ◌∙◌, List, [], ◌∷◌, ◌++◌, length, take, drop,
  arith,
}
use vibed_st_muliplayer.Relay.State.{Bytes}
use vibed_st_muliplayer.Protocol.Limits
use vibed_st_muliplayer.Cards.{piece, chunk_count}

module _ {ℓ} {A : Type ℓ} where
  take-nil : (n : ℕ) → take {A = A} n [] ≡ []
  take-nil zero = refl
  take-nil (suc n) = refl

  drop-nil : (n : ℕ) → drop {A = A} n [] ≡ []
  drop-nil zero = refl
  drop-nil (suc n) = refl

  take-add : (m n : ℕ) (xs : List A) → take (m + n) xs ≡ take m xs ++ take n (drop m xs)
  take-add zero n xs = let none_before : 0 + n ≡ n = omega arith in rw none_before refl
  take-add (suc m) n [] = take-nil (suc m + n) ∙ sym (take-nil n)
  take-add (suc m) n (x ∷ xs) =
      let on : suc m + n ≡ suc (m + n) = omega arith in rw (on, take-add m n xs) refl

  drop-add : (m n : ℕ) (xs : List A) → drop (m + n) xs ≡ drop n (drop m xs)
  drop-add zero n xs = let none_before : 0 + n ≡ n = omega arith in rw none_before refl
  drop-add (suc m) n [] = drop-nil (suc m + n) ∙ sym (drop-nil n)
  drop-add (suc m) n (x ∷ xs) =
      let on : suc m + n ≡ suc (m + n) = omega arith in rw (on, drop-add m n xs) refl

  take-all : (n : ℕ) (xs : List A) → length xs ≤ n → take n xs ≡ xs
  take-all zero [] h = refl
  take-all zero (x ∷ xs) h = ground arith
  take-all (suc n) [] h = refl
  take-all (suc n) (x ∷ xs) h = ap (λ (ys : List A). x ∷ ys) (take-all n xs (omega arith))

-- So many pieces of a file, from a number on, one after the other.
unfoldable pub glued : ℕ → ℕ → Bytes → Bytes
unfolding piece
glued zero seq file = []
glued (suc n) seq file = piece seq file ++ glued n (suc seq) file

take_piece :
    (c n seq : ℕ) (file : Bytes)
    → take c (drop (seq * c) file) ++ take (n * c) (drop (suc seq * c) file)
      ≡ take (suc n * c) (drop (seq * c) file)
take_piece c n seq file =
    let forth : suc n * c ≡ c + n * c = grind arith in
    let on : suc seq * c ≡ seq * c + c = grind arith in rw (forth, on, take-add, drop-add) refl

glued_lem :
    (n seq : ℕ) (file : Bytes)
    → glued n seq file ≡ take (n * Limits.chunk_bytes) (drop (seq * Limits.chunk_bytes) file)
unfolding glued
glued_lem zero seq file = refl
glued_lem (suc n) seq file =
    rw (glued_lem n (suc seq) file) (take_piece Limits.chunk_bytes n seq file)

count_is_enough : (file : Bytes) → length file ≤ chunk_count file * Limits.chunk_bytes
unfolding chunk_count
count_is_enough file = omega arith

-- All the chunks of a file are the file.
pub glued_whole : (file : Bytes) → glued (chunk_count file) 0 file ≡ file
glued_whole file =
    glued_lem (chunk_count file) 0 file
    ∙ take-all (chunk_count file * Limits.chunk_bytes) file (count_is_enough file)

pub count-positive : (file : Bytes) → 1 ≤ chunk_count file
unfolding chunk_count
count-positive file = omega arith

pub count-bound : (file : Bytes) → length file ≤ Limits.max_frame_bytes * 8 → chunk_count file ≤ 128
unfolding chunk_count
count-bound file h = omega arith
