-- ===== src/Sync/Settling.antt =====
-- lib/parity.js: what is missing, mismatched and extra, laid over what a player has, agrees with the host.
use vibed_st_muliplayer.Base.{
  subst, ◌⊎◌, ◌≡◌, refl, ap, ◌∙◌, String, Bool, true, false, not, Option, none, some, List, [], ◌∷◌,
  filter, is_some, if◌then◌else◌, arith, Option-cases, Bool-cases, inl, inr,
}
use vibed_st_muliplayer.Base.Texts.{same→eq, same, same_refl}
use vibed_st_muliplayer.Parity.{Entry, Mismatch, get, missing_of, mismatched_of, note, same_version}
use vibed_st_muliplayer.Parity.Maps.{last_of, IsMap}
use vibed_st_muliplayer.Parity.Agreement.{matches}
use text.Mathlib.TextEquality.{eq_iff}

-- No entry of the list has the id, so none of what is missing or mismatched has.
last_of-missing_none :
    (i : String) (d : Option Entry) (hosts clients : List Entry)
    → get i hosts ≡ none
    → last_of i d (missing_of hosts clients) ≡ d
unfolding get missing_of last_of
last_of-missing_none i d [] clients h = refl
last_of-missing_none i d (e ∷ hosts) clients h =
    ground (arith, last_of-missing_none i d hosts clients)

unfoldable pub entries : List Mismatch → List Entry
entries [] = []
entries (m ∷ ms) = m.entry ∷ entries ms

last_of-mismatched_none :
    (strict : Bool) (i : String) (d : Option Entry) (hosts clients : List Entry)
    → get i hosts ≡ none
    → last_of i d (entries (mismatched_of strict hosts clients)) ≡ d
unfolding get mismatched_of last_of note entries
last_of-mismatched_none strict i d [] clients h = refl
last_of-mismatched_none strict i d (e ∷ hosts) clients h = elim (Option-cases (get e.id clients)) [
  | inl lacks ↦ rw lacks (ground (arith, last_of-mismatched_none strict i d hosts clients))
  | inr (c, has) ↦ rw has (ground (arith, last_of-mismatched_none strict i d hosts clients))
]

last_of-at :
    (i : String) (d : Option Entry) (x : Entry) (es : List Entry)
    → same x.id i ≡ true
    → last_of i d (x ∷ es) ≡ last_of i (some x) es
unfolding last_of
last_of-at i d x es h = ap (λ b. last_of i (if b then some x else d) es) h

last_of-past :
    (i : String) (d : Option Entry) (x : Entry) (es : List Entry)
    → same x.id i ≡ false
    → last_of i d (x ∷ es) ≡ last_of i d es
unfolding last_of
last_of-past i d x es h = ap (λ b. last_of i (if b then some x else d) es) h

missing-head :
    (d : Option Entry) (x : Entry) (hosts clients : List Entry)
    → get x.id hosts ≡ none
    → last_of x.id d (missing_of (x ∷ hosts) clients)
      ≡ (if is_some (get x.id clients) then d else some x)
unfolding missing_of last_of
missing-head d x hosts clients h = elim (Bool-cases (is_some (get x.id clients))) [
  | inl has ↦ rw has (last_of-missing_none x.id d hosts clients h)
  | inr lacks ↦ rw lacks (
      last_of-at x.id d x (missing_of hosts clients) (same_refl x.id)
      ∙ last_of-missing_none x.id (some x) hosts clients h)
]

-- A map's entry under an id is its head, or stands behind it.
get-cons :
    (i : String) (x e : Entry) (hosts : List Entry)
    → get i (x ∷ hosts) ≡ some e
    → ((x.id ≡ i) × (x ≡ e)) ⊎ ((same x.id i ≡ false) × (get i hosts ≡ some e))
unfolding get
get-cons i x e hosts h = elim (Bool-cases (same x.id i)) [
  | inl hit ↦ inl (same→eq x.id i hit, ground arith)
  | inr miss ↦ inr (miss, ground arith)
]

last_of-missing :
    (i : String) (d : Option Entry) (hosts clients : List Entry) (e : Entry)
    → IsMap hosts
    → get i hosts ≡ some e
    → last_of i d (missing_of hosts clients) ≡ (if is_some (get i clients) then d else some e)
unfolding get missing_of last_of
last_of-missing i d [] clients e m h = cc
last_of-missing i d (x ∷ hosts) clients e m h = elim (get-cons i x e hosts h) [
  | inl (here, found) ↦
      subst
        (λ j.
          last_of j d (missing_of (x ∷ hosts) clients)
          ≡ (if is_some (get j clients) then d else some e))
        here
        (subst
          (λ y.
            last_of x.id d (missing_of (x ∷ hosts) clients)
            ≡ (if is_some (get x.id clients) then d else some y))
          found (missing-head d x hosts clients m.0))
  | inr (miss, later) ↦ ground (arith, last_of-missing i d hosts clients e m.1)
]

-- What overlaying the mismatched entries makes of a host's entry and the client's.
abbrev replaced : Bool → Entry → Option Entry → Option Entry → Option Entry
replaced strict e none d = d
replaced strict e (some c) d = if same_version strict e c then d else some e

mismatched-head :
    (strict : Bool) (d : Option Entry) (x : Entry) (hosts clients : List Entry)
    → get x.id hosts ≡ none
    → last_of x.id d (entries (mismatched_of strict (x ∷ hosts) clients))
      ≡ replaced strict x (get x.id clients) d
unfolding mismatched_of last_of note entries
mismatched-head strict d x hosts clients h = elim (Option-cases (get x.id clients)) [
  | inl lacks ↦ rw lacks (last_of-mismatched_none strict x.id d hosts clients h)
  | inr (c, has) ↦ elim (Bool-cases (same_version strict x c)) [
    | inl agrees ↦ rw has (rw agrees (last_of-mismatched_none strict x.id d hosts clients h))
    | inr differs ↦ rw has (
        rw differs (
          last_of-at x.id d x (entries (mismatched_of strict hosts clients)) (same_refl x.id)
          ∙ last_of-mismatched_none strict x.id (some x) hosts clients h))
  ]
]

mismatched-tail :
    (strict : Bool) (i : String) (d : Option Entry) (x : Entry) (hosts clients : List Entry)
    → same x.id i ≡ false
    → last_of i d (entries (mismatched_of strict (x ∷ hosts) clients))
      ≡ last_of i d (entries (mismatched_of strict hosts clients))
unfolding mismatched_of last_of note entries
mismatched-tail strict i d x hosts clients miss = elim (Option-cases (get x.id clients)) [
  | inl lacks ↦ rw lacks refl
  | inr (c, has) ↦ elim (Bool-cases (same_version strict x c)) [
    | inl agrees ↦ rw has (rw agrees refl)
    | inr differs ↦
        rw has (rw differs (last_of-past i d x (entries (mismatched_of strict hosts clients)) miss))
  ]
]

last_of-mismatched :
    (strict : Bool) (i : String) (d : Option Entry) (hosts clients : List Entry) (e : Entry)
    → IsMap hosts
    → get i hosts ≡ some e
    → last_of i d (entries (mismatched_of strict hosts clients))
      ≡ replaced strict e (get i clients) d
unfolding get
last_of-mismatched strict i d [] clients e m h = cc
last_of-mismatched strict i d (x ∷ hosts) clients e m h = elim (get-cons i x e hosts h) [
  | inl (here, found) ↦
      subst
        (λ j.
          last_of j d (entries (mismatched_of strict (x ∷ hosts) clients))
          ≡ replaced strict e (get j clients) d)
        here
        (subst
          (λ y.
            last_of x.id d (entries (mismatched_of strict (x ∷ hosts) clients))
            ≡ replaced strict y (get x.id clients) d)
          found (mismatched-head strict d x hosts clients m.0))
  | inr (miss, later) ↦
      mismatched-tail strict i d x hosts clients miss
      ∙ last_of-mismatched strict i d hosts clients e m.1 later
]

-- The extras of a client.
abbrev pub extras : List Entry → List Entry → List Entry
extras hosts clients = filter (λ e. not (is_some (get e.id hosts))) clients

extras-shared :
    (i : String) (hosts clients : List Entry) (e : Entry)
    → get i hosts ≡ some e
    → is_some (get i (extras hosts clients)) ≡ false
unfolding get
extras-shared i hosts [] e h = refl
extras-shared i hosts (c ∷ clients) e h =
    ground (arith, eq_iff c.id i, extras-shared i hosts clients e h)

extras-own :
    (i : String) (hosts clients : List Entry)
    → get i hosts ≡ none
    → is_some (get i (extras hosts clients)) ≡ is_some (get i clients)
unfolding get
extras-own i hosts [] h = refl
extras-own i hosts (c ∷ clients) h = ground (arith, eq_iff c.id i, extras-own i hosts clients h)

-- What an extension is after the plan: overlaid by what is missing and mismatched, without the extras.
abbrev pub settled : Bool → List Entry → List Entry → String → Option Entry
settled strict hosts clients i =
    if is_some (get i (extras hosts clients))
    then none
    else last_of i (last_of i (get i clients) (missing_of hosts clients))
        (entries (mismatched_of strict hosts clients))

matches-replaced :
    (strict : Bool) (e : Entry) (o : Option Entry)
    → matches strict (some e) (replaced strict e o (if is_some o then o else some e)) ≡ true
unfolding matches same_version
matches-replaced strict e none = ground (arith, same_refl e.version, same_refl e.commit_hash)
matches-replaced strict e (some c) = ground (arith, same_refl e.version, same_refl e.commit_hash)

matches-foreign :
    (strict : Bool) (o : Option Entry) → matches strict none (if is_some o then none else o) ≡ true
unfolding matches
matches-foreign strict none = refl
matches-foreign strict (some c) = refl

pub settled-matches :
    (strict : Bool) (hosts clients : List Entry) (i : String)
    → IsMap hosts
    → matches strict (get i hosts) (settled strict hosts clients i) ≡ true
settled-matches strict hosts clients i m = elim (Option-cases (get i hosts)) [
  | inl foreign ↦
      rw
        (
          foreign,
          extras-own i hosts clients foreign,
          last_of-missing_none i (get i clients) hosts clients foreign,
          last_of-mismatched_none strict i (get i clients) hosts clients foreign,
        )
        (matches-foreign strict (get i clients))
  | inr (e, shared) ↦
      rw
        (
          shared,
          extras-shared i hosts clients e shared,
          last_of-missing i (get i clients) hosts clients e m shared,
          last_of-mismatched strict i (if is_some (get i clients) then get i clients else some e)
              hosts clients e m shared,
        )
        (matches-replaced strict e (get i clients))
]
