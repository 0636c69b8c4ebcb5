-- ===== src/Base/Texts.antt =====
-- Texts: equality, and the cuts that the program makes. A character stands for a UTF-16 unit.
use Prim.Native.Nat.{ℕ, zero, suc}
use Prim.Native.Char.{code}
use vibed_st_muliplayer.Base.Tests.{if◌then◌else◌, leb}
use vibed_st_muliplayer.Base.Tests.{◌==◌ as equals}
use Prim.Native.String.{String}
use mathlib.Core.Path.{◌≡◌, refl}
use mathlib.Core.Bool.{Bool, true, false, ◌&&◌, ◌||◌}
use text.Mathlib.Text.{◌==◌ as text_eq}
use native.Mathlib.Omega.{arith}
use text.Mathlib.TextEquality.{eq_iff}

-- `a === b`
abbrev pub same : String → String → Bool
same a b = text_eq a b

pub same→eq : (a b : String) → same a b ≡ true → a ≡ b
same→eq a b h = (eq_iff a b).0 h

pub same_refl : (a : String) → same a a ≡ true
same_refl a = (eq_iff a a).1 refl

pub same_sym : (a b : String) → same a b ≡ false → same b a ≡ false
same_sym a b h = ground (arith, eq_iff a b, eq_iff b a)

-- `text.slice(0, n)`
abbrev pub cut : ℕ → String → String
cut zero s = ""
cut (suc n) String.[] = ""
cut (suc n) (String.◌∷◌ c s) = String.◌∷◌ c (cut n s)

-- `text || fallback`
abbrev pub or_else : String → String → String
or_else String.[] fallback = fallback
or_else (String.◌∷◌ c s) fallback = String.◌∷◌ c s

-- `Boolean(text)`
abbrev pub is_empty : String → Bool
is_empty String.[] = true
is_empty (String.◌∷◌ c s) = false

-- White space and line ends, as `String.prototype.trim` counts them.
abbrev pub is_space : ℕ → Bool
is_space c =
    leb 9 c && leb c 13
    || equals c 32
    || equals c 160
    || equals c 0x1680
    || leb 0x2000 c && leb c 0x200a
    || equals c 0x2028
    || equals c 0x2029
    || equals c 0x202f
    || equals c 0x205f
    || equals c 0x3000
    || equals c 0xfeff

-- `replace(/\u0000/g, '')`
unfoldable pub without_nul : String → String
without_nul String.[] = String.[]
without_nul (String.◌∷◌ c s) =
    if equals (code c) 0 then without_nul s else String.◌∷◌ c (without_nul s)

unfoldable pub trim_start : String → String
trim_start String.[] = String.[]
trim_start (String.◌∷◌ c s) = if is_space (code c) then trim_start s else String.◌∷◌ c s

unfoldable pub trim_end : String → String
trim_end String.[] = String.[]
trim_end (String.◌∷◌ c s) =
    let rest = trim_end s in
    if is_empty rest && is_space (code c) then String.[] else String.◌∷◌ c rest

-- `text.trim()`
unfoldable pub trim : String → String
unfolding trim_start trim_end
trim s = trim_end (trim_start s)

-- `text.length`
abbrev pub size : String → ℕ
size String.[] = 0
size (String.◌∷◌ c s) = suc (size s)

-- `text.startsWith(start)`
abbrev pub begins : String → String → Bool
begins String.[] s = true
begins (String.◌∷◌ c cs) String.[] = false
begins (String.◌∷◌ c cs) (String.◌∷◌ d s) = equals (code c) (code d) && begins cs s
