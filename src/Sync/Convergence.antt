-- ===== src/Sync/Convergence.antt =====
-- lib/parity.js, `applyPlan`: a plan that is carried out makes the extensions agree with the host's.
use vibed_st_muliplayer.Base.{
  subst, ◌≡◌, refl, sym, ap, ◌∙◌, String, Bool, true, false, Option, none, some, List, [], ◌∷◌,
  ◌++◌, map, is_some, if◌then◌else◌, All, All-map, Option-cases, Bool-cases, inl, inr,
}
use vibed_st_muliplayer.Base.Texts.{same}
use vibed_st_muliplayer.Parity.{
  Report, fill, is_strict, diff_reports, Entry, Mismatch, get, missing_of, mismatched_of, note,
  same_version, compare_maps,
}
use vibed_st_muliplayer.Parity.Maps.{last_of, IsMap, fill-IsMap, IsMap-get, get-fill}
use vibed_st_muliplayer.Parity.Agreement.{matches, diff_reports_ok_iff}
use vibed_st_muliplayer.Sync.{
  Urls, Step, build_sync_plan, missing_step, mismatched_step, extra_step, url_of, Installer,
  apply_step, apply_plan,
}
use vibed_st_muliplayer.Sync.Settling.{entries, extras, settled, settled-matches}

-- What the calls of SillyTavern promise, seen by what is enabled: an installation fetches the head of a
-- branch of the repository at a URL, which is `head url branch`, whatever version anybody has; and
-- an extension that is deleted or disabled is not enabled.
pub record IsFaithful {ℓ} {S : Type ℓ} (installer : Installer S)
    (enabled : S → String → Option Entry) (head : String → String → Entry) : Type ℓ where
  pub installs :
      (url branch : String) (s : S)
      → ((installer.install url branch s).1 ≡ true)
        × ((i : String)
            → enabled (installer.install url branch s).0 i
              ≡ (if same (head url branch).id i then some (head url branch) else enabled s i))
  pub deletes :
      (id : String) (s : S)
      → ((installer.delete id s).1 ≡ true)
        × ((i : String)
            → enabled (installer.delete id s).0 i ≡ (if same id i then none else enabled s i))
  pub disables :
      (id : String) (s : S)
      → ((installer.disable id s).1 ≡ true)
        × ((i : String)
            → enabled (installer.disable id s).0 i ≡ (if same id i then none else enabled s i))

-- The host has the extension at the head of its branch, and gives a URL of its repository.
abbrev pub IsAtHead : Urls → (String → String → Entry) → Entry → Type 0
IsAtHead urls head e = (url : String) × (url_of urls e ≡ some url) × (head url e.branch ≡ e)

either_way :
    (b : Bool) (x y d : Option Entry)
    → y ≡ (if b then none else d)
    → (if b then x else y) ≡ (if b then x else d)
either_way true x y d h = refl
either_way false x y d h = h

without_more :
    (b : Bool) (e : Entry) (o d x : Option Entry)
    → x ≡ (if b then none else d)
    → (if is_some o then none else x) ≡ (if is_some (if b then some e else o) then none else d)
without_more true e none d x h = h
without_more true e (some c) d x h = refl
without_more false e none d x h = h
without_more false e (some c) d x h = refl

module _ {ℓ} {S : Type ℓ} (installer : Installer S) (enabled : S → String → Option Entry)
    (urls : Urls) (hosts : List Entry) (head : String → String → Entry)
    (faithful : IsFaithful installer enabled head) where
  abbrev Published : Entry → Type 0
  Published = IsAtHead urls head

  -- What the URL and the branch of such an extension install is the host's.
  installs-host :
      (e : Entry) (url : String) (s : S) (i : String)
      → head url e.branch ≡ e
      → enabled (installer.install url e.branch s).0 i
        ≡ (if same e.id i then some e else enabled s i)
  installs-host e url s i latest =
      subst
        (λ x.
          enabled (installer.install url e.branch s).0 i
          ≡ (if same x.id i then some x else enabled s i))
        latest ((faithful.installs url e.branch s).1 i)

  apply-append :
      (xs ys : List Step) (s : S)
      → (apply_plan installer (xs ++ ys) s).0
        ≡ (apply_plan installer ys (apply_plan installer xs s).0).0
  unfolding apply_plan
  apply-append [] ys s = refl
  apply-append (x ∷ xs) ys s = apply-append xs ys (apply_step installer x s).0

  apply-missing :
      (es : List Entry) (s : S) (i : String)
      → All Published es
      → enabled (apply_plan installer (map (λ e. missing_step e (url_of urls e)) es) s).0 i
        ≡ last_of i (enabled s i) es
  unfolding apply_plan apply_step missing_step last_of
  apply-missing [] s i h = refl
  apply-missing (e ∷ es) s i h =
      let (url, found, latest) = h.0 in
      let s' = (installer.install url e.branch s).0 in
      rw found
        (apply-missing es s' i h.1 ∙ ap (λ d. last_of i d es) (installs-host e url s i latest))

  reinstalls :
      (e : Entry) (s : S) (i : String)
      → Published e
      → enabled (apply_step installer (mismatched_step e (url_of urls e)) s).0 i
        ≡ (if same e.id i then some e else enabled s i)
  unfolding apply_step mismatched_step
  reinstalls e s i (url, found, latest) =
      let gone = (installer.delete e.id s).0 in
      let back = installs-host e url gone i latest in
      let left = (faithful.deletes e.id s).1 i in
      rw (found, (faithful.deletes e.id s).0)
        (back ∙ either_way (same e.id i) (some e) (enabled gone i) (enabled s i) left)

  apply-mismatched :
      (ms : List Mismatch) (s : S) (i : String)
      → All Published (entries ms)
      → enabled
          (apply_plan installer (map (λ m. mismatched_step m.entry (url_of urls m.entry)) ms) s).0
          i
        ≡ last_of i (enabled s i) (entries ms)
  unfolding apply_plan apply_step mismatched_step last_of entries
  apply-mismatched [] s i h = refl
  apply-mismatched (m ∷ ms) s i h =
      apply-mismatched ms (apply_step installer (mismatched_step m.entry (url_of urls m.entry)) s).0
        i h.1
      ∙ ap (λ d. last_of i d (entries ms)) (reinstalls m.entry s i h.0)

  apply-extra :
      (remove : Bool) (es : List Entry) (s : S) (i : String)
      → enabled (apply_plan installer (map (extra_step remove) es) s).0 i
        ≡ (if is_some (get i es) then none else enabled s i)
  unfolding apply_plan apply_step extra_step get
  apply-extra remove [] s i = refl
  apply-extra true (e ∷ es) s i =
      apply-extra true es (installer.delete e.id s).0 i
      ∙ without_more (same e.id i) e (get i es) (enabled s i)
          (enabled (installer.delete e.id s).0 i) ((faithful.deletes e.id s).1 i)
  apply-extra false (e ∷ es) s i =
      apply-extra false es (installer.disable e.id s).0 i
      ∙ without_more (same e.id i) e (get i es) (enabled s i)
          (enabled (installer.disable e.id s).0 i) ((faithful.disables e.id s).1 i)

  -- The host's entries that a plan is about are the host's.
  Published-missing :
      (es clients : List Entry) → All Published es → All Published (missing_of es clients)
  unfolding missing_of
  Published-missing [] clients h = tt
  Published-missing (e ∷ es) clients h = elim (Bool-cases (is_some (get e.id clients))) [
    | inl has ↦ rw has (Published-missing es clients h.1)
    | inr lacks ↦ rw lacks (h.0, Published-missing es clients h.1)
  ]

  Published-mismatched :
      (strict : Bool) (es clients : List Entry)
      → All Published es
      → All Published (entries (mismatched_of strict es clients))
  unfolding mismatched_of note entries
  Published-mismatched strict [] clients h = tt
  Published-mismatched strict (e ∷ es) clients h = elim (Option-cases (get e.id clients)) [
    | inl lacks ↦ rw lacks (Published-mismatched strict es clients h.1)
    | inr (c, has) ↦ elim (Bool-cases (same_version strict e c)) [
      | inl agrees ↦ rw has (rw agrees (Published-mismatched strict es clients h.1))
      | inr differs ↦ rw has (rw differs (h.0, Published-mismatched strict es clients h.1))
    ]
  ]

  -- The plan of a comparison, carried out, leaves enabled what is settled.
  apply-settled :
      (strict remove : Bool) (clients : List Entry) (s : S) (i : String)
      → All Published hosts
      → enabled s i ≡ get i clients
      → enabled
          (apply_plan installer
            (build_sync_plan urls (compare_maps strict hosts clients) remove)
            s).0
          i
        ≡ settled strict hosts clients i
  unfolding build_sync_plan compare_maps
  apply-settled strict remove clients s i h e =
      let missing = missing_of hosts clients in
      let mismatched = mismatched_of strict hosts clients in
      let installing = map (λ x. missing_step x (url_of urls x)) missing in
      let reinstalling = map (λ m. mismatched_step m.entry (url_of urls m.entry)) mismatched in
      let removing = map (extra_step remove) (extras hosts clients) in
      let s1 = (apply_plan installer installing s).0 in
      let s2 = (apply_plan installer reinstalling s1).0 in
      ap (λ t. enabled t i)
        (apply-append installing (reinstalling ++ removing) s
          ∙ apply-append reinstalling removing s1)
      ∙ apply-extra remove (extras hosts clients) s2 i
      ∙ ap (λ d. if is_some (get i (extras hosts clients)) then none else d)
          (apply-mismatched mismatched s1 i (Published-mismatched strict hosts clients h)
            ∙ ap (λ d. last_of i d (entries mismatched))
                (apply-missing missing s i (Published-missing hosts clients h)
                  ∙ ap (λ d. last_of i d missing) e))

-- A player whose extensions differ from the host's carries out the plan, with or without the removal of
-- extras, and reports again: the comparison is clean. It holds where the host has each of its
-- extensions at the head of the branch that it reports, with a URL to install it from, since a plan
-- names a URL and a branch but no version; and where the calls of SillyTavern succeed and do what they
-- promise.
pub sync-converges {ℓ} :
    {S : Type ℓ} (installer : Installer S) (enabled : S → String → Option Entry) (urls : Urls)
    (head : String → String → Entry) (s : S) (h before after : Report) (remove : Bool)
    → IsFaithful installer enabled head
    → ((e : Entry) → get e.id (fill [] h.extensions) ≡ some e → IsAtHead urls head e)
    → ((i : String) → enabled s i ≡ last_of i none before.extensions)
    → ((i : String)
        → last_of i none after.extensions
          ≡ enabled
              (apply_plan installer
                (build_sync_plan urls (diff_reports (some h) (some before)) remove)
                s).0
              i)
    → (diff_reports (some h) (some after)).ok ≡ true
unfolding diff_reports
sync-converges installer enabled urls head s h before after remove faithful published seen again =
    let hosts = fill [] h.extensions in
    let clients = fill [] before.extensions in
    let strict = is_strict h.strictness in
    let map_of_host : IsMap hosts = fill-IsMap [] h.extensions tt in
    let all =
      All-map (λ e. get e.id hosts ≡ some e) (IsAtHead urls head) hosts (λ e k. published e k)
        (IsMap-get hosts map_of_host) in
    (diff_reports_ok_iff h after).1 (λ i.
      let settle =
        apply-settled installer enabled urls hosts head faithful strict remove clients s i all
          (seen i ∙ sym (get-fill i before.extensions)) in
      let agree = settled-matches strict hosts clients i map_of_host in
      subst (λ o. matches strict (last_of i none h.extensions) o ≡ true) (sym (again i ∙ settle))
        (subst (λ o. matches strict o (settled strict hosts clients i) ≡ true)
          (get-fill i h.extensions) agree))
