-- ===== src/Parity/Agreement.antt =====
-- What a clean diff of two reports means.
use vibed_st_muliplayer.Base.{
  if◌then◌else◌, ◌≡◌, refl, ap, ◌↔◌, String, Bool, true, false, not, ◌&&◌, Option, none, some, List,
  [], ◌∷◌, arith, is_some, filter, All, All-map, Option-cases, inl, inr,
}
use vibed_st_muliplayer.Parity.{
  same, Entry, Report, is_strict, get, same_version, missing_of, note, mismatched_of, none_of,
  compare_maps, diff_reports,
}
use vibed_st_muliplayer.Parity.Maps.{last_of, get-fill, IsMap, fill-IsMap, IsMap-get}
use text.Mathlib.TextEquality.{eq_iff}

-- Both sides lack an extension, or both have it in the same version; where the host is strict,
-- from the same commit.
unfoldable pub matches : Bool → Option Entry → Option Entry → Bool
matches strict none none = true
matches strict (some e) (some c) =
    same c.version e.version && (if strict then same c.commit_hash e.commit_hash else true)
matches strict none (some c) = false
matches strict (some e) none = false

module _ (strict : Bool) (hosts clients : List Entry) where
  abbrev Covered : List Entry → Type 0
  Covered = All (λ e. matches strict (some e) (get e.id clients) ≡ true)

  abbrev Expected : List Entry → Type 0
  Expected = All (λ c. is_some (get c.id hosts) ≡ true)

  Covered-iff :
      (es : List Entry)
      → ((none_of (missing_of es clients) && none_of (mismatched_of strict es clients)) ≡ true)
        ↔ Covered es
  unfolding missing_of mismatched_of matches note same_version
  Covered-iff [] = (λ _. tt, λ _. refl)
  Covered-iff (e ∷ es) = (λ h. ground (arith, Covered-iff es), λ h. ground (arith, Covered-iff es))

  Expected-iff :
      (cs : List Entry)
      → (none_of (filter (λ e. not (is_some (get e.id hosts))) cs) ≡ true) ↔ Expected cs
  Expected-iff [] = (λ _. tt, λ _. refl)
  Expected-iff (c ∷ cs) =
      (λ h. ground (arith, Expected-iff cs), λ h. ground (arith, Expected-iff cs))

  Covered-get :
      (es : List Entry) (i : String) (e : Entry)
      → Covered es
      → get i es ≡ some e
      → matches strict (some e) (get i clients) ≡ true
  unfolding get
  Covered-get [] i e a k = cc
  Covered-get (x ∷ es) i e a k = ground (arith, eq_iff x.id i, Covered-get es i e a.1)

  Expected-get :
      (cs : List Entry) (i : String) (c : Entry)
      → Expected cs
      → get i cs ≡ some c
      → is_some (get i hosts) ≡ true
  unfolding get
  Expected-get [] i c a k = cc
  Expected-get (x ∷ cs) i c a k = ground (arith, eq_iff x.id i, Expected-get cs i c a.1)

module _ (strict : Bool) (hosts clients : List Entry) where
  abbrev Agree : Type 0
  Agree = (i : String) → matches strict (get i hosts) (get i clients) ≡ true

  Agree-Covered : IsMap hosts → Agree → Covered strict hosts clients hosts
  Agree-Covered m a =
      All-map (λ e. get e.id hosts ≡ some e)
        (λ e. matches strict (some e) (get e.id clients) ≡ true) hosts (λ e k. rw (← k) (a e.id))
        (IsMap-get hosts m)

  Agree-Expected : IsMap clients → Agree → Expected strict hosts clients clients
  unfolding matches
  Agree-Expected m a =
      All-map (λ c. get c.id clients ≡ some c) (λ c. is_some (get c.id hosts) ≡ true) clients
        (λ c k. ground (arith, a c.id)) (IsMap-get clients m)

  compare_maps-Agree : (compare_maps strict hosts clients).ok ≡ true → Agree
  unfolding compare_maps matches
  compare_maps-Agree h i =
      let covered : Covered strict hosts clients hosts =
        (Covered-iff strict hosts clients hosts).0 (ground arith) in
      let expected : Expected strict hosts clients clients =
        (Expected-iff strict hosts clients clients).0 (ground arith) in
      elim (Option-cases (get i hosts)) [
        | inl absent ↦ elim (Option-cases (get i clients)) [
          | inl both ↦ rw (absent, both)
          | inr (c, there) ↦
              let k = Expected-get strict hosts clients clients i c expected there in
              cc (k, ap is_some absent)
        ]
        | inr (e, here) ↦ rw here (Covered-get strict hosts clients hosts i e covered here)
      ]

  Agree-compare_maps :
      IsMap hosts → IsMap clients → Agree → (compare_maps strict hosts clients).ok ≡ true
  unfolding compare_maps
  Agree-compare_maps m n a = ground (
    arith,
    (Covered-iff strict hosts clients hosts).1 (Agree-Covered m a),
    (Expected-iff strict hosts clients clients).1 (Agree-Expected n a),
  )

-- A comparison of two reports is clean exactly when every extension id stands in both or in
-- neither, where both have it in one version, and from one commit if the host's report is strict.
-- Where a report names an id more than once, its last entry counts.
pub diff_reports_ok_iff :
    (h c : Report)
    → ((diff_reports (some h) (some c)).ok ≡ true) ↔ (
        (i : String)
        → matches
            (is_strict h.strictness)
            (last_of i none h.extensions)
            (last_of i none c.extensions)
          ≡ true)
unfolding diff_reports
diff_reports_ok_iff h c = (
  λ k i.
      rw (← get-fill i h.extensions, ← get-fill i c.extensions)
        (compare_maps-Agree (is_strict h.strictness) _ _ k i),
  λ a.
      Agree-compare_maps (is_strict h.strictness) _ _ (fill-IsMap [] h.extensions tt)
        (fill-IsMap [] c.extensions tt)
        λ i. rw (get-fill i h.extensions, get-fill i c.extensions) (a i),
)
