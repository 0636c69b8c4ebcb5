-- ===== src/Cards/Parts.antt =====
-- lib/cards.js: the parts of a transfer, against the pieces of the file that is sent.
use vibed_st_muliplayer.Base.{◌==◌}
use vibed_st_muliplayer.Base.{
  ℕ, zero, suc, ◌+◌, ◌≤◌, ◌<◌, ◌≡◌, refl, sym, ap, false, Option, none, some, List, [], ◌∷◌, length,
  arith,
}
use vibed_st_muliplayer.Relay.State.{Bytes}
use vibed_st_muliplayer.Cards.{piece, holes, has_part, set_part, joined_parts}
use vibed_st_muliplayer.Cards.Chunks.{glued}

-- Every part that is there is the file's, the first of them with this number.
abbrev pub Fits : ℕ → Bytes → List (Option Bytes) → Type 0
Fits seq file [] = Unit
Fits seq file (none ∷ ps) = Fits (suc seq) file ps
Fits seq file (some b ∷ ps) = (b ≡ piece seq file) × Fits (suc seq) file ps

-- How many parts are there.
abbrev pub held : List (Option Bytes) → ℕ
held [] = 0
held (none ∷ ps) = held ps
held (some b ∷ ps) = suc (held ps)

pub Fits-holes : (n seq : ℕ) (file : Bytes) → Fits seq file (holes n)
unfolding holes
Fits-holes zero seq file = tt
Fits-holes (suc n) seq file = Fits-holes n (suc seq) file

pub held-holes : (n : ℕ) → held (holes n) ≡ 0
unfolding holes
held-holes zero = refl
held-holes (suc n) = held-holes n

pub length-holes : (n : ℕ) → length (holes n) ≡ n
unfolding holes
length-holes zero = refl
length-holes (suc n) = ap (λ (k : ℕ). suc k) (length-holes n)

pub has_part-holes : (i n : ℕ) → has_part i (holes n) ≡ false
unfolding holes has_part
has_part-holes i zero = refl
has_part-holes zero (suc n) = refl
has_part-holes (suc i) (suc n) = has_part-holes i n

pub length-set_part :
    (i : ℕ) (b : Bytes) (ps : List (Option Bytes)) → length (set_part i b ps) ≡ length ps
unfolding set_part
length-set_part i b [] = refl
length-set_part zero b (p ∷ ps) = refl
length-set_part (suc i) b (p ∷ ps) = ap (λ (k : ℕ). suc k) (length-set_part i b ps)

pub Fits-set_part :
    (i seq at : ℕ) (b file : Bytes) (ps : List (Option Bytes))
    → at ≡ seq + i
    → b ≡ piece at file
    → Fits seq file ps
    → Fits seq file (set_part i b ps)
unfolding set_part
Fits-set_part i seq at b file [] e own f = tt
Fits-set_part zero seq at b file (none ∷ ps) e own f =
    let here : at ≡ seq = omega arith in (rw (sym here) own, f)
Fits-set_part zero seq at b file (some c ∷ ps) e own f =
    let here : at ≡ seq = omega arith in (rw (sym here) own, f.1)
Fits-set_part (suc i) seq at b file (none ∷ ps) e own f =
    Fits-set_part i (suc seq) at b file ps (omega arith) own f
Fits-set_part (suc i) seq at b file (some c ∷ ps) e own f =
    (f.0, Fits-set_part i (suc seq) at b file ps (omega arith) own f.1)

-- A part in a hole is one more.
pub held-set_part :
    (i : ℕ) (b : Bytes) (ps : List (Option Bytes))
    → has_part i ps ≡ false
    → i < length ps
    → held (set_part i b ps) ≡ suc (held ps)
unfolding set_part has_part
held-set_part i b [] h l = ground arith
held-set_part zero b (none ∷ ps) h l = refl
held-set_part zero b (some c ∷ ps) h l = ground arith
held-set_part (suc i) b (none ∷ ps) h l = held-set_part i b ps h (omega arith)
held-set_part (suc i) b (some c ∷ ps) h l =
    ap (λ (k : ℕ). suc k) (held-set_part i b ps h (omega arith))

-- It leaves the other holes.
pub has_part-set_part :
    (i j : ℕ) (b : Bytes) (ps : List (Option Bytes))
    → (i == j) ≡ false
    → has_part j (set_part i b ps) ≡ has_part j ps
unfolding set_part has_part
has_part-set_part i j b [] h = refl
has_part-set_part zero zero b (p ∷ ps) h = ground arith
has_part-set_part zero (suc j) b (p ∷ ps) h = refl
has_part-set_part (suc i) zero b (none ∷ ps) h = refl
has_part-set_part (suc i) zero b (some c ∷ ps) h = refl
has_part-set_part (suc i) (suc j) b (p ∷ ps) h = has_part-set_part i j b ps (ground arith)

held-le : (ps : List (Option Bytes)) → held ps ≤ length ps
held-le [] = omega arith
held-le (none ∷ ps) = omega (arith, held-le ps)
held-le (some b ∷ ps) = omega (arith, held-le ps)

-- With no hole left, the parts are the pieces of the file.
pub joined-full :
    (seq : ℕ) (file : Bytes) (ps : List (Option Bytes))
    → Fits seq file ps
    → length ps ≤ held ps
    → joined_parts ps ≡ some (glued (length ps) seq file)
unfolding joined_parts glued
joined-full seq file [] f h = refl
joined-full seq file (none ∷ ps) f h = ground (arith, held-le ps)
joined-full seq file (some b ∷ ps) f h =
    rw (joined-full (suc seq) file ps f.1 (omega arith), f.0) refl
