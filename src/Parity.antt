-- ===== src/Parity.antt =====
-- server/lib/relay.js, `diffReports`: the comparison that decides who may enter the room.
-- lib/parity.js has the same function for the browser.
pub mod Maps
pub mod Agreement
use vibed_st_muliplayer.Base.{
  String, Bool, true, false, not, ◌&&◌, ◌||◌, Option, none, some, List, [], ◌∷◌, filter,
  if◌then◌else◌, is_some,
}
use vibed_st_muliplayer.Base.Texts.{same}

pub data Strictness : Type 0 where
  manifest commit : Strictness

-- One extension, as a report names it.
pub record Entry : Type 0 where
  pub id : String
  pub display_name : String
  pub version : String
  pub commit_hash : String
  pub branch : String
  pub remote_url : String
  pub home_page : String

pub record Report : Type 0 where
  pub strictness : Strictness
  pub hash : String
  pub extensions : List Entry

pub record Mismatch : Type 0 where
  pub entry : Entry
  pub client_version : String
  pub client_commit : String

pub record Diff : Type 0 where
  pub ok : Bool
  pub missing : List Entry
  pub extra : List Entry
  pub mismatched : List Mismatch

-- `Map.prototype.get`, `has` and `set` on a map from ids to entries, in order of insertion.
unfoldable pub get : String → List Entry → Option Entry
get i [] = none
get i (e ∷ m) = if same e.id i then some e else get i m

unfoldable pub put : Entry → List Entry → List Entry
put e [] = e ∷ []
put e (x ∷ m) = if same x.id e.id then e ∷ m else x ∷ put e m

-- `new Map(entries.map(entry => [entry.id, entry]))`
unfoldable pub fill : List Entry → List Entry → List Entry
fill m [] = m
fill m (e ∷ es) = fill (put e m) es

abbrev pub is_strict : Strictness → Bool
is_strict manifest = false
is_strict commit = true

-- The test by which the loop calls an entry mismatched, negated.
unfoldable pub same_version : Bool → Entry → Entry → Bool
same_version strict e c =
    same c.version e.version && (not strict || same c.commit_hash e.commit_hash)

unfoldable pub missing_of : List Entry → List Entry → List Entry
missing_of [] clients = []
missing_of (e ∷ hosts) clients =
    if is_some (get e.id clients) then missing_of hosts clients else e ∷ missing_of hosts clients

unfoldable pub note : Bool → Entry → Option Entry → List Mismatch → List Mismatch
note strict e none later = later
note strict e (some c) later =
    if same_version strict e c
    then later
    else record { entry = e; client_version = c.version; client_commit = c.commit_hash } ∷ later

unfoldable pub mismatched_of : Bool → List Entry → List Entry → List Mismatch
unfolding note
mismatched_of strict [] clients = []
mismatched_of strict (e ∷ hosts) clients =
    note strict e (get e.id clients) (mismatched_of strict hosts clients)

-- `list.length === 0`
abbrev pub none_of {ℓ} : {A : Type ℓ} → List A → Bool
none_of [] = true
none_of (x ∷ xs) = false

unfoldable pub compare_maps : Bool → List Entry → List Entry → Diff
unfolding missing_of mismatched_of
compare_maps strict hosts clients =
    let missing = missing_of hosts clients in
    let mismatched = mismatched_of strict hosts clients in
    let extra = filter (λ e. not (is_some (get e.id hosts))) clients in
    record {
      ok = none_of missing && none_of extra && none_of mismatched;
      missing = missing;
      extra = extra;
      mismatched = mismatched;
    }

abbrev pub empty_diff : Diff
empty_diff = record { ok = false; missing = []; extra = []; mismatched = [] }

unfoldable pub diff_reports : Option Report → Option Report → Diff
diff_reports none c = empty_diff
diff_reports (some h) none = empty_diff
diff_reports (some h) (some c) =
    compare_maps (is_strict h.strictness) (fill [] h.extensions) (fill [] c.extensions)
