-- ===== src/Sync/Plan.antt =====
-- lib/parity.js, `buildSyncPlan`: what a plan holds, and what it does not.
use vibed_st_muliplayer.Base.{
  All-map, ◌||◌, ◌≡◌, refl, String, Bool, true, false, Option, List, [], ◌∷◌, map, All, All-append,
  arith, Option-cases, inl, inr,
}
use vibed_st_muliplayer.Base.Texts.{same, same_refl}
use vibed_st_muliplayer.Parity.{Entry, Mismatch, Diff}
use vibed_st_muliplayer.Sync.{
  Urls, Step, build_sync_plan, missing_step, mismatched_step, extra_step, url_of,
}

-- Some mismatched entry has this id.
unfoldable pub names_mismatch : String → List Mismatch → Bool
names_mismatch i [] = false
names_mismatch i (m ∷ ms) = same m.entry.id i || names_mismatch i ms

-- A step that deletes nothing, or an extension to install the host's version of it at once.
abbrev pub IsMild : List Mismatch → Step → Type 0
IsMild ms (Step.delete id) = ⊥
IsMild ms (Step.reinstall id url branch) = names_mismatch id ms ≡ true
IsMild ms _ = Unit

missing-IsMild :
    (ms : List Mismatch) (f : Entry → Option String) (es : List Entry)
    → All (IsMild ms) (map (λ e. missing_step e (f e)) es)
unfolding missing_step
missing-IsMild ms f [] = tt
missing-IsMild ms f (e ∷ es) = elim (Option-cases (f e)) [
  | inl no_url ↦ rw no_url (tt, missing-IsMild ms f es)
  | inr (url, found) ↦ rw found (tt, missing-IsMild ms f es)
]

extra-IsMild : (ms : List Mismatch) (es : List Entry) → All (IsMild ms) (map (extra_step false) es)
unfolding extra_step
extra-IsMild ms [] = tt
extra-IsMild ms (e ∷ es) = (tt, extra-IsMild ms es)

IsMild-weaken : (m : Mismatch) (ms : List Mismatch) (st : Step) → IsMild ms st → IsMild (m ∷ ms) st
unfolding names_mismatch
IsMild-weaken m ms (Step.delete id) h = h
IsMild-weaken m ms (Step.reinstall id url branch) h = ground arith
IsMild-weaken m ms (Step.install id url branch) h = tt
IsMild-weaken m ms (Step.manual id) h = tt
IsMild-weaken m ms (Step.disable id) h = tt

mismatched-IsMild :
    (f : Mismatch → Option String) (ms : List Mismatch)
    → All (IsMild ms) (map (λ m. mismatched_step m.entry (f m)) ms)
unfolding mismatched_step names_mismatch
mismatched-IsMild f [] = tt
mismatched-IsMild f (m ∷ ms) =
    let rest =
      All-map (IsMild ms) (IsMild (m ∷ ms)) (map (λ m. mismatched_step m.entry (f m)) ms)
        (IsMild-weaken m ms) (mismatched-IsMild f ms) in
    elim (Option-cases (f m)) [
      | inl no_url ↦ rw no_url (tt, rest)
      | inr (url, found) ↦ rw found (rw (same_refl m.entry.id) refl, rest)
    ]

-- Unless the player asks for it, a plan deletes no extension for good: it has no step that deletes an
-- extra, and it reinstalls only what the comparison found in another version.
pub plan-IsMild :
    (urls : Urls) (diff : Diff) → All (IsMild diff.mismatched) (build_sync_plan urls diff false)
unfolding build_sync_plan
plan-IsMild urls diff =
    All-append (IsMild diff.mismatched) _ _
      (missing-IsMild diff.mismatched (url_of urls) diff.missing)
      (All-append (IsMild diff.mismatched) _ _
        (mismatched-IsMild (λ m. url_of urls m.entry) diff.mismatched)
        (extra-IsMild diff.mismatched diff.extra))
