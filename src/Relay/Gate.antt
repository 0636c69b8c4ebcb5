-- ===== src/Relay/Gate.antt =====
-- server/lib/relay.js, `#onParityReport` and `#resolveParity`: who is let into the room.
pub mod Admission
use vibed_st_muliplayer.Base.{
  ℕ, String, Bool, true, false, Option, none, some, List, [], ◌∷◌, if◌then◌else◌, take,
}
use vibed_st_muliplayer.Base.Texts.{cut}
use vibed_st_muliplayer.Protocol.{Role, is_host}
use vibed_st_muliplayer.Parity.{Entry, Report, Diff, empty_diff, diff_reports}
use vibed_st_muliplayer.Relay.State.{
  Peer, Status, RawReport, Message, Effect, Relay, Handler, ◌>>◌, reading, skip, emit,
}
use vibed_st_muliplayer.Relay.Room.{find_peer, put_peer, set_peer, admit}

unfoldable pub bound_entry : Entry → Entry
bound_entry e = record {
  id = cut 120 e.id;
  display_name = cut 120 e.display_name;
  version = cut 40 e.version;
  commit_hash = cut 40 e.commit_hash;
  branch = cut 80 e.branch;
  remote_url = cut 400 e.remote_url;
  home_page = cut 400 e.home_page;
}

-- `none` where reading a field of a null entry throws.
unfoldable pub bound_entries : List (Option Entry) → Option (List Entry)
unfolding bound_entry
bound_entries [] = some []
bound_entries (none ∷ es) = none
bound_entries (some e ∷ es) = elim (bound_entries es) [
  | none ↦ none
  | some rest ↦ some (bound_entry e ∷ rest)
]

-- What the relay keeps of a report, so that a peer cannot fill its memory.
unfoldable pub bound_report : RawReport → Option Report
unfolding bound_entries
bound_report raw = elim (bound_entries (take 200 raw.extensions)) [
  | none ↦ none
  | some es ↦
      some (record { strictness = raw.strictness; hash = cut 128 raw.hash; extensions = es })
]

-- The answer of a frame handler that throws.
abbrev pub protocol_error : Peer → Handler
protocol_error p = emit (Effect.close p.socket 4400 ∷ [])

-- `#resolveParity`
unfoldable pub resolve_parity : Peer → Handler
unfolding admit
resolve_parity p = reading λ r.
    let diff = diff_reports r.host_report p.report in
    if diff.ok
    then set_peer (record p { status = Status.ok }) >> admit (record p { status = Status.ok })
    else set_peer (record p { status = Status.mismatch })
      >> emit (Effect.send p.id (Message.parity_failed diff) ∷ [])

abbrev pub is_waiting : Status → Bool
is_waiting Status.waiting_host = true
is_waiting _ = false

unfoldable pub resolve_one : Option Peer → Handler
unfolding resolve_parity
resolve_one none = skip
resolve_one (some p) = if is_waiting p.status then resolve_parity p else skip

-- The loop over the peers that came before the host had reported.
unfoldable pub resolve_waiting : List Peer → Handler
unfolding resolve_one find_peer
resolve_waiting [] = skip
resolve_waiting (p ∷ ps) = (reading λ r. resolve_one (find_peer p.id r.peers)) >> resolve_waiting ps

-- The host's report is the room's baseline.
unfoldable pub host_reports : Peer → Report → Handler
unfolding admit resolve_waiting
host_reports p report =
    (λ r. (record r { host_report = some report }, []))
    >> set_peer (record p { status = Status.ok; report = some report })
    >> admit (record p { status = Status.ok; report = some report })
    >> (reading λ r. resolve_waiting r.peers)

-- With a baseline the peer is compared to it; without one it waits.
unfoldable pub compare_or_wait : Peer → Option Report → Handler
unfolding resolve_parity
compare_or_wait p none = set_peer (record p { status = Status.waiting_host })
compare_or_wait p (some baseline) = resolve_parity p

unfoldable pub client_reports : Peer → Report → Handler
unfolding compare_or_wait
client_reports p report =
    set_peer (record p { report = some report })
    >> (reading λ r. compare_or_wait (record p { report = some report }) r.host_report)

unfoldable pub on_bounded_report : Peer → Option Report → Handler
unfolding host_reports client_reports
on_bounded_report p none = protocol_error p
on_bounded_report p (some report) =
    if is_host p.role then host_reports p report else client_reports p report

-- `#onParityReport`
unfoldable pub on_parity_report : Peer → Option RawReport → Handler
unfolding bound_report on_bounded_report
on_parity_report p none =
    set_peer (record p { status = Status.invalid })
    >> emit (Effect.send p.id (Message.parity_failed empty_diff) ∷ [])
on_parity_report p (some raw) = on_bounded_report p (bound_report raw)
