-- ===== src/Parity/Maps.antt =====
-- The maps from ids to entries, against the list that they are filled from.
use vibed_st_muliplayer.Base.{
  All-map, All, ◌≡◌, refl, String, Option, none, some, List, [], ◌∷◌, arith, if◌then◌else◌,
}
use vibed_st_muliplayer.Base.Texts.{same, same_refl}
use vibed_st_muliplayer.Parity.{Entry, get, put, fill}
use text.Mathlib.TextEquality.{eq_iff}

-- The last entry of a list with this id, `d` if it has none.
unfoldable pub last_of : String → Option Entry → List Entry → Option Entry
last_of i d [] = d
last_of i d (e ∷ es) = last_of i (if same e.id i then some e else d) es

pub get-put :
    (i : String) (e : Entry) (m : List Entry)
    → get i (put e m) ≡ (if same e.id i then some e else get i m)
unfolding get put
get-put i e [] = refl
get-put i e (x ∷ m) = ground (arith, eq_iff x.id e.id, eq_iff x.id i, eq_iff e.id i, get-put i e m)

get-fill_from : (i : String) (m es : List Entry) → get i (fill m es) ≡ last_of i (get i m) es
unfolding fill last_of
get-fill_from i m [] = refl
get-fill_from i m (e ∷ es) = rw (get-fill_from i (put e m) es, get-put i e m)

-- A later entry replaces an earlier one with its id.
pub get-fill : (i : String) (es : List Entry) → get i (fill [] es) ≡ last_of i none es
unfolding get
get-fill i es = get-fill_from i [] es

-- No two entries of a map have one id.
abbrev pub IsMap : List Entry → Type 0
IsMap [] = Unit
IsMap (e ∷ m) = (get e.id m ≡ none) × IsMap m

put-IsMap : (e : Entry) (m : List Entry) → IsMap m → IsMap (put e m)
unfolding get put
put-IsMap e [] h = (refl, tt)
put-IsMap e (x ∷ m) h =
    ground (arith, eq_iff x.id e.id, eq_iff e.id x.id, get-put x.id e m, put-IsMap e m h.1)

pub fill-IsMap : (m es : List Entry) → IsMap m → IsMap (fill m es)
unfolding fill
fill-IsMap m [] h = h
fill-IsMap m (e ∷ es) h = fill-IsMap (put e m) es (put-IsMap e m h)

-- Each entry of a map is found under its id.
pub IsMap-get : (m : List Entry) → IsMap m → All (λ e. get e.id m ≡ some e) m
unfolding get
IsMap-get [] h = tt
IsMap-get (x ∷ m) h = (
  rw same_refl,
  All-map (λ e. get e.id m ≡ some e) (λ e. get e.id (x ∷ m) ≡ some e) m
      (λ e k. ground (arith, eq_iff x.id e.id)) (IsMap-get m h.1),
)
