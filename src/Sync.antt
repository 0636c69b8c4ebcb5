-- ===== src/Sync.antt =====
-- lib/parity.js: the plan that brings a player's extensions in line with the host's, and its execution.
pub mod Plan
pub mod Settling
pub mod Convergence
use vibed_st_muliplayer.Base.{
  ℕ, suc, ◌+◌, String, Bool, true, false, not, ◌&&◌, ◌||◌, Option, none, some, List, [], ◌∷◌, ◌++◌,
  if◌then◌else◌, ◌==◌, map,
}
use vibed_st_muliplayer.Base.Texts.{same, or_else, trim, is_empty}
use vibed_st_muliplayer.Parity.{Entry, Mismatch, Diff}

-- The path of a URL, as its UTF-16 units.
abbrev pub PathUnits : Type 0
PathUnits = List ℕ

-- `new URL(raw)`: the protocol and the path.
pub record Url : Type 0 where
  pub protocol : String
  pub pathname : PathUnits

-- The URL class of the platform. `show` is the text of the URL of a raw text with another path, and
-- without its hash and its search.
pub record Urls : Type 0 where
  pub parse : String → Option Url
  pub show : String → PathUnits → String

abbrev pub slash : ℕ
slash = 47

-- One unit that is no slash, at least.
abbrev pub named_branch : PathUnits → Bool
named_branch [] = false
named_branch (u ∷ us) = not (u == slash)

abbrev pub starts_branch : PathUnits → Bool
starts_branch (a ∷ b ∷ c ∷ d ∷ e ∷ f ∷ us) =
    (a == slash && f == slash && named_branch us)
    && (b == 116 && c == 114 && d == 101 && e == 101 || b == 98 && c == 108 && d == 111 && e == 98)
starts_branch _ = false

-- `.replace(/\/(tree|blob)\/[^/]+\/?.*$/, '')`
unfoldable pub without_branch : PathUnits → PathUnits
without_branch [] = []
without_branch (u ∷ us) =
    let rest = without_branch us in if starts_branch (u ∷ us) then [] else u ∷ rest

abbrev pub is_git : PathUnits → Bool
is_git (a ∷ b ∷ c ∷ d ∷ []) = a == 46 && b == 103 && c == 105 && d == 116
is_git (a ∷ b ∷ c ∷ d ∷ e ∷ []) = a == 46 && b == 103 && c == 105 && d == 116 && e == slash
is_git _ = false

-- `.replace(/\.git\/?$/, '')`
unfoldable pub without_git : PathUnits → PathUnits
without_git [] = []
without_git (u ∷ us) = let rest = without_git us in if is_git (u ∷ us) then [] else u ∷ rest

abbrev pub is_nil : PathUnits → Bool
is_nil [] = true
is_nil (u ∷ us) = false

abbrev pub is_root : PathUnits → Bool
is_root (u ∷ []) = u == slash
is_root _ = false

-- `.replace(/\/+$/, '')`
unfoldable pub without_slashes : PathUnits → PathUnits
without_slashes [] = []
without_slashes (u ∷ us) =
    let rest = without_slashes us in if is_nil rest && u == slash then [] else u ∷ rest

unfoldable pub cleaned_path : PathUnits → PathUnits
unfolding without_branch without_git without_slashes
cleaned_path path = without_slashes (without_git (without_branch path))

abbrev pub is_web : String → Bool
is_web protocol = same protocol "http:" || same protocol "https:"

-- The URL of one candidate, if it is one that can be installed.
unfoldable pub usable : Urls → String → Option Url → Option String
unfolding cleaned_path
usable urls raw none = none
usable urls raw (some url) =
    let path = cleaned_path url.pathname in
    if not (is_web url.protocol) || is_nil path || is_root path
    then none
    else some (urls.show raw path)

unfoldable pub candidate_url : Urls → String → Option String
unfolding usable trim
candidate_url urls candidate =
    let raw = trim candidate in if is_empty raw then none else usable urls raw (urls.parse raw)

abbrev pub or_next : Option String → Option String → Option String
or_next none next = next
or_next (some url) next = some url

-- `normaliseInstallUrl`: `none` is its empty text.
unfoldable pub normalise_install_url : Urls → List String → Option String
unfolding candidate_url
normalise_install_url urls [] = none
normalise_install_url urls (candidate ∷ rest) =
    or_next (candidate_url urls candidate) (normalise_install_url urls rest)

-- A step of the plan, without the label and the note that the player reads.
pub data Step : Type 0 where
  install : String → String → String → Step
  reinstall : String → String → String → Step
  manual : String → Step
  disable : String → Step
  delete : String → Step

abbrev pub url_of : Urls → Entry → Option String
url_of urls e = normalise_install_url urls (e.remote_url ∷ e.home_page ∷ [])

unfoldable pub missing_step : Entry → Option String → Step
missing_step e none = Step.manual e.id
missing_step e (some url) = Step.install e.id url e.branch

unfoldable pub mismatched_step : Entry → Option String → Step
mismatched_step e none = Step.manual e.id
mismatched_step e (some url) = Step.reinstall e.id url e.branch

unfoldable pub extra_step : Bool → Entry → Step
extra_step remove_extras e = if remove_extras then Step.delete e.id else Step.disable e.id

-- `buildSyncPlan`
unfoldable pub build_sync_plan : Urls → Diff → Bool → List Step
unfolding normalise_install_url missing_step mismatched_step extra_step
build_sync_plan urls diff remove_extras =
    map (λ e. missing_step e (url_of urls e)) diff.missing
    ++ (map (λ m. mismatched_step m.entry (url_of urls m.entry)) diff.mismatched
        ++ map (extra_step remove_extras) diff.extra)

-- SillyTavern's calls on the installed extensions: the new state, and whether the call returns.
pub record Installer {ℓ} (S : Type ℓ) : Type ℓ where
  pub install : String → String → S → S × Bool
  pub delete : String → S → S × Bool
  pub disable : String → S → S × Bool

pub data Outcome : Type 0 where
  finished failed skipped : Outcome

abbrev pub outcome : Bool → Outcome
outcome true = Outcome.finished
outcome false = Outcome.failed

module _ {ℓ} {S : Type ℓ} (installer : Installer S) where
  -- One round of the loop: what throws is a failed step, and what it has done stays done.
  unfoldable pub apply_step : Step → S → S × Outcome
  apply_step (Step.install id url branch) s =
      let out = installer.install url branch s in (out.0, outcome out.1)
  apply_step (Step.reinstall id url branch) s =
      let gone = installer.delete id s in
      let back = installer.install url branch gone.0 in
      if gone.1 then (back.0, outcome back.1) else (gone.0, Outcome.failed)
  apply_step (Step.disable id) s = let out = installer.disable id s in (out.0, outcome out.1)
  apply_step (Step.delete id) s = let out = installer.delete id s in (out.0, outcome out.1)
  apply_step (Step.manual id) s = (s, Outcome.skipped)

  -- `applyPlan`
  unfoldable pub apply_plan : List Step → S → S × List Outcome
  unfolding apply_step
  apply_plan [] s = (s, [])
  apply_plan (step ∷ steps) s =
      let out = apply_step step s in let rest = apply_plan steps out.0 in (rest.0, out.1 ∷ rest.1)
