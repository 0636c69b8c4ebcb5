-- ===== src/Tests/Syncing.antt =====
-- A player with an old version of the host's extension, and another one, that syncs.
use vibed_st_muliplayer.Base.{
  Bool-cases, inl, inr, ◌≡◌, refl, subst, String, true, false, not, Option, none, some, List, [],
  ◌∷◌, if◌then◌else◌, filter, All, arith,
}
use vibed_st_muliplayer.Base.Texts.{same, same→eq, trim, trim_start, trim_end}
use vibed_st_muliplayer.Parity.{
  Entry, Report, Strictness, get, put, fill, diff_reports, compare_maps, missing_of, mismatched_of,
  note, same_version,
}
use vibed_st_muliplayer.Parity.Maps.{last_of, get-put}
use vibed_st_muliplayer.Sync.{
  Urls, Installer, url_of, build_sync_plan, apply_plan, apply_step, normalise_install_url,
  candidate_url, usable, cleaned_path, without_branch, without_git, without_slashes, missing_step,
  mismatched_step, extra_step,
}
use vibed_st_muliplayer.Sync.Plan.{IsMild, plan-IsMild}
use vibed_st_muliplayer.Sync.Convergence.{IsFaithful, sync-converges}
use text.Mathlib.TextEquality.{eq_iff}

abbrev extension : String → String → Entry
extension id version = record {
  id = id;
  display_name = id;
  version = version;
  commit_hash = "";
  branch = "main";
  remote_url = "https://h/a";
  home_page = "";
}

abbrev report : List Entry → Report
report es = record { strictness = Strictness.manifest; hash = ""; extensions = es }

abbrev wanted : Entry
wanted = extension "a" "2"

-- Every text is the URL of a path with two parts.
abbrev urls : Urls
urls = record {
  parse = λ raw. some (record { protocol = "https:"; pathname = 47 ∷ 104 ∷ 47 ∷ 97 ∷ [] });
  show = λ raw path. raw;
}

-- The enabled extensions; the one repository that there is holds the host's version.
abbrev installer : Installer (List Entry)
installer = record {
  install = λ url branch s. (put wanted s, true);
  delete = λ id s. (filter (λ e. not (same e.id id)) s, true);
  disable = λ id s. (filter (λ e. not (same e.id id)) s, true);
}

abbrev enabled : List Entry → String → Option Entry
enabled s i = get i s

get-filter :
    (id : String) (s : List Entry) (i : String)
    → get i (filter (λ e. not (same e.id id)) s) ≡ (if same id i then none else get i s)
unfolding get
get-filter id [] i = ground arith
get-filter id (e ∷ s) i =
    ground (arith, eq_iff e.id id, eq_iff e.id i, eq_iff id i, get-filter id s i)

only_wanted : (e : Entry) → get e.id (wanted ∷ []) ≡ some e → wanted ≡ e
unfolding get
only_wanted e h = ground arith

installer-IsFaithful : IsFaithful installer enabled (λ url branch. wanted)
installer-IsFaithful = record {
  installs = λ url branch s. (refl, λ i. get-put i wanted s);
  deletes = λ id s. (refl, λ i. get-filter id s i);
  disables = λ id s. (refl, λ i. get-filter id s i);
}

abbrev old : List Entry
old = extension "a" "1" ∷ extension "z" "1" ∷ []

seen_before : (i : String) → get i old ≡ last_of i none (report old).extensions
unfolding get last_of
seen_before i = elim (Bool-cases (same "a" i)) [
  | inl hit ↦
      subst (λ j. get j old ≡ last_of j none (report old).extensions) (same→eq "a" i hit) refl
  | inr miss ↦ rw miss refl
]

sync-converges_example :
    (diff_reports (some (report (wanted ∷ []))) (some (report (wanted ∷ [])))).ok ≡ true
unfolding fill put get last_of diff_reports compare_maps missing_of mismatched_of note same_version
    build_sync_plan apply_plan apply_step normalise_install_url candidate_url usable cleaned_path
    without_branch without_git without_slashes missing_step mismatched_step extra_step trim
    trim_start trim_end
sync-converges_example =
    sync-converges installer enabled urls (λ url branch. wanted) old (report (wanted ∷ []))
      (report old) (report (wanted ∷ [])) false installer-IsFaithful
      (λ e held. (
        "https://h/a",
        subst (λ x. url_of urls x ≡ some "https://h/a") (only_wanted e held) refl,
        only_wanted e held,
      ))
      seen_before (λ i. refl)

plan-IsMild_example :
    All
      (IsMild (diff_reports (some (report (wanted ∷ []))) (some (report old))).mismatched)
      (build_sync_plan urls (diff_reports (some (report (wanted ∷ []))) (some (report old))) false)
plan-IsMild_example =
    plan-IsMild urls (diff_reports (some (report (wanted ∷ []))) (some (report old)))
