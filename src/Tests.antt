-- ===== src/Tests.antt =====
-- The theorems at concrete rooms, frames and events.
pub mod Data
pub mod Client
pub mod Syncing
mod Sockets
mod Chats
mod Cards
use vibed_st_muliplayer.Base.{take}
use vibed_st_muliplayer.Base.Texts.{without_nul, trim_start, trim_end, trim, size}
use vibed_st_muliplayer.Relay.Room.{
  drop_peer, put_persona, drop_persona, broadcast_to, roster_of, broadcast_host_name, send_personas,
  send_history, ask_republish, announce, admit, announce_leave, vacate, remove_peer,
}
use vibed_st_muliplayer.Relay.Frames.{
  measure, ooc_text, push_bounded, post, on_ooc, publish, on_persona, deliver, address, host_frame,
  to_host, client_frame, room_frame, on_op, on_opened, begin_frame,
}
use vibed_st_muliplayer.Relay.Handshake.{
  bytes_equal, exactly, holds_token, lobby_count, on_upgrade, derive_session, challenge, check_room,
  new_peer, enter, greet, on_confirm,
}
use vibed_st_muliplayer.Relay.Housekeeping.{
  sweep_peer, sweep_peers, sweep, kick_peer, kick, drop_ban, unban, dismiss, rotate, clamp_int,
  start, stop,
}
use vibed_st_muliplayer.Relay.Server.{
  put_conn, peer_of, on_close, admit_conn, conn_close, on_timeout, find_opening, refreshed,
  begin_opening, end_opening, on_text, unhandshaken, on_socket_message, conn_message, act, step,
}
use vibed_st_muliplayer.Relay.Gate.{
  bound_entry, bound_entries, bound_report, resolve_one, resolve_waiting, host_reports,
  compare_or_wait, client_reports, on_bounded_report,
}
use vibed_st_muliplayer.Relay.Abuse.{
  is_banned, add_ban, put_offender, drop_offender, one_more, offender_or_new, still_blocked,
}
use vibed_st_muliplayer.Limiter.{refilled, spend}
use vibed_st_muliplayer.Replay.{accept}
use vibed_st_muliplayer.Relay.Invariant.Reach.{idle}
use vibed_st_muliplayer.Base.{
  is_some, suc, ap, ℕ, ◌+◌, ◌*◌, ◌≤◌, ◌≡◌, ◌≢◌, ◌↔◌, refl, String, Bool, true, false, Option, none,
  some, List, [], ◌∷◌, arith, All, Nodup, ltb, if◌then◌else◌,
}
use vibed_st_muliplayer.Base.Texts.{same, same_refl}
use vibed_st_muliplayer.Protocol.{Op, Role}
use vibed_st_muliplayer.Parity.{same_version}
use vibed_st_muliplayer.Parity.{
  compare_maps, fill, put, missing_of, mismatched_of, note, get, diff_reports, get, is_strict,
}
use vibed_st_muliplayer.Parity.Maps.{last_of}
use vibed_st_muliplayer.Parity.Agreement.{matches, diff_reports_ok_iff}
use vibed_st_muliplayer.Replay.{fresh}
use vibed_st_muliplayer.Replay.History.{accepted, ideal, accepted_refines, accepted-Nodup}
use vibed_st_muliplayer.Limiter.{new_bucket, message_bucket, byte_bucket}
use vibed_st_muliplayer.Limiter.Bound.{granted, last, granted_bound}
use vibed_st_muliplayer.Limiter.Budget.{new_budget}
use vibed_st_muliplayer.Limiter.Budget.Pacing.{Round, unlimited, budget_is_never_limited}
use vibed_st_muliplayer.Relay.State.{Relay, Effect}
use vibed_st_muliplayer.Relay.Room.{find_peer, put_peer, broadcast, broadcast_roster}
use vibed_st_muliplayer.Relay.Room.Peers.{ids}
use vibed_st_muliplayer.Relay.Gate.{on_parity_report, resolve_parity}
use vibed_st_muliplayer.Relay.Gate.Admission.{IsGated, on_parity_report-IsGated}
use vibed_st_muliplayer.Relay.Frames.{on_payload, on_peer_frame, rename}
use vibed_st_muliplayer.Relay.Frames.Authorship.{IsAuthored, on_payload-IsAuthored}
use vibed_st_muliplayer.Relay.Frames.Confinement.{Spares, host_only-Spares}
use vibed_st_muliplayer.Relay.Frames.Delivery.{IsAnswered, to_host_frame}
use vibed_st_muliplayer.Relay.Frames.Quieting.{rename_twice}
use vibed_st_muliplayer.Relay.Abuse.{note_failure, is_blocked, find_offender}
use vibed_st_muliplayer.Relay.Abuse.Blocking.{fail_all, fifth_failure_blocks, failure_is_local}
use vibed_st_muliplayer.Relay.Handshake.{Stage, on_hello, admitted_count}
use vibed_st_muliplayer.Relay.Handshake.Entry.{IsWelcome, on_hello-IsWelcome}
use vibed_st_muliplayer.Relay.Handshake.Overfull.{resolve_parity-admitted_count}
use vibed_st_muliplayer.Relay.Housekeeping.{created}
use vibed_st_muliplayer.Relay.Server.{Event, run, find_conn}
use vibed_st_muliplayer.Relay.Server.Rotation.{closings, rotate-personas}
use vibed_st_muliplayer.Relay.Server.Reseating.{rotate-reseats}
use vibed_st_muliplayer.Tests.Data

abbrev events : List Event
events =
    Event.starts Data.options Data.code (9 ∷ [])
    ∷ Event.connects 1 "127.0.0.1" 0
    ∷ Event.arrives 1 Data.greeting
    ∷ Event.arrives 1 Data.confirming
    ∷ Event.sweeps 50000
    ∷ Event.closes 1
    ∷ []

-- The host's socket closes while its report is being inflated.
abbrev late_report : List Event
late_report =
    Event.starts Data.options Data.code (9 ∷ [])
    ∷ Event.connects 1 "127.0.0.1" 0
    ∷ Event.arrives 1 Data.greeting
    ∷ Event.arrives 1 Data.confirming
    ∷ Event.arrives 1 Data.reporting
    ∷ Event.closes 1
    ∷ Event.opens 1 40
    ∷ []

-- Its report is the baseline afterwards, though nobody holds the host slot.
late_baseline :
    let r = (run Data.crypto idle late_report).relay in
    (r.host ≡ none) × (is_some r.host_report ≡ true)
unfolding run vibed_st_muliplayer.Limiter.take
late_baseline = (refl, refl)

on_parity_report-IsGated_example :
    All
      (IsGated Data.room.peers (on_parity_report Data.bob (some Data.raw) Data.room).0.host_report)
      (on_parity_report Data.bob (some Data.raw) Data.room).0.peers
unfolding find_peer
on_parity_report-IsGated_example = on_parity_report-IsGated Data.bob (some Data.raw) Data.room refl

on_payload-IsAuthored_example :
    All
      (IsAuthored Data.ann)
      (on_payload Data.ann 10 "m1" (some (Data.payload Op.chat_edit none)) Data.room).1
on_payload-IsAuthored_example =
    on_payload-IsAuthored Data.ann 10 "m1" (Data.payload Op.chat_edit none) Data.room refl (λ e. cc)

to_host_frame_example :
    IsAnswered Data.ann
      (Data.payload Op.chat_turn none)
      Data.room.host
      (on_payload Data.ann 10 "m1" (some (Data.payload Op.chat_turn none)) Data.room).1
    × ((on_payload Data.ann 10 "m1" (some (Data.payload Op.chat_turn none)) Data.room).0
        ≡ Data.room)
to_host_frame_example =
    to_host_frame Data.ann 10 "m1" (Data.payload Op.chat_turn none) Data.room refl refl refl

host_only-Spares_example :
    Spares Data.room
      (on_peer_frame Data.ann (Data.frame (Data.payload Op.chat_state none)) Data.room)
unfolding find_peer
host_only-Spares_example =
    host_only-Spares Data.ann (Data.frame (Data.payload Op.chat_state none)) 1
      (Data.payload Op.chat_state none) Data.room refl refl refl refl

on_hello-IsWelcome_example : IsWelcome Data.lonely Data.arriving Data.hello true
unfolding on_hello
on_hello-IsWelcome_example =
    on_hello-IsWelcome Data.crypto Data.arriving Data.hello Data.ephemeral 5 Data.lonely refl
      {session = Data.session} {claims = true} refl

diff_reports_ok_iff_example :
    ((diff_reports (some Data.baseline) (some Data.shuffled)).ok ≡ true) ↔ (
      (i : String)
      → matches
          (is_strict Data.baseline.strictness)
          (last_of i none Data.baseline.extensions)
          (last_of i none Data.shuffled.extensions)
        ≡ true)
diff_reports_ok_iff_example = diff_reports_ok_iff Data.baseline Data.shuffled

accepted_refines_example :
    accepted fresh (1 ∷ 5 ∷ 3 ∷ 5 ∷ 90 ∷ 3 ∷ []) ≡ ideal [] (1 ∷ 5 ∷ 3 ∷ 5 ∷ 90 ∷ 3 ∷ [])
accepted_refines_example = accepted_refines (1 ∷ 5 ∷ 3 ∷ 5 ∷ 90 ∷ 3 ∷ [])

accepted-Nodup_example : Nodup (accepted fresh (1 ∷ 5 ∷ 3 ∷ 5 ∷ 90 ∷ 3 ∷ []))
accepted-Nodup_example = accepted-Nodup (1 ∷ 5 ∷ 3 ∷ 5 ∷ 90 ∷ 3 ∷ [])

abbrev rounds : List Round
rounds =
    record { time = 100; size = 4000000; delay = 3000 }
    ∷ record { time = 101; size = 50; delay = 3500 }
    ∷ []

budget_is_never_limited_example :
    unlimited (new_budget 100) (message_bucket 90) (byte_bucket 90) rounds ≡ true
budget_is_never_limited_example =
    budget_is_never_limited 90 100 rounds (omega arith)
      (omega arith, omega arith, omega arith, (omega arith, omega arith, omega arith, tt))

granted_bound_example :
    granted (new_bucket 100 2 0) ((1, 90) ∷ (4, 30) ∷ []) + 0 * 2
    ≤ 100 + last 0 ((1, 90) ∷ (4, 30) ∷ []) * 2
granted_bound_example =
    granted_bound 100 2 0 ((1, 90) ∷ (4, 30) ∷ []) (omega arith, (omega arith, tt))

fifth_failure_blocks_example :
    (is_blocked "10.0.0.1" 500 (fail_all "10.0.0.1" (1 ∷ 2 ∷ 3 ∷ 4 ∷ []) []) ≡ false)
    × (is_blocked "10.0.0.1" 500
          (note_failure "10.0.0.1" 5 (fail_all "10.0.0.1" (1 ∷ 2 ∷ 3 ∷ 4 ∷ []) []))
        ≡ ltb 500 (5 + 60000))
unfolding find_offender
fifth_failure_blocks_example =
    fifth_failure_blocks "10.0.0.1" (1 ∷ 2 ∷ 3 ∷ 4 ∷ []) 5 500 [] refl refl

apart : (a b : String) → same a b ≡ false → a ≢ b
apart a b d e = let s : same a b ≡ true = rw e (same_refl b) in cc

failure_is_local_example :
    is_blocked "10.0.0.2" 500 (note_failure "10.0.0.1" 5 []) ≡ is_blocked "10.0.0.2" 500 []
failure_is_local_example =
    failure_is_local "10.0.0.1" "10.0.0.2" 5 500 [] (apart "10.0.0.1" "10.0.0.2" refl)

resolve_parity-admitted_count_example :
    admitted_count (resolve_parity Data.bob Data.room).0.peers
    ≡ suc (admitted_count Data.room.peers)
unfolding find_peer same_version diff_reports compare_maps fill get put missing_of mismatched_of
    note
resolve_parity-admitted_count_example =
    resolve_parity-admitted_count Data.bob Data.room refl refl refl

rotate-personas_example :
    (run Data.crypto Data.server
      (Event.rotates (3 ∷ []) (4 ∷ []) ∷ closings (1 ∷ 2 ∷ []))).relay.personas
    ≡ Data.server.relay.personas
rotate-personas_example =
    rotate-personas Data.crypto Data.server (3 ∷ []) (4 ∷ []) (1 ∷ 2 ∷ []) refl

rotate-reseats_example :
    let after =
      (run Data.crypto Data.server
        (Event.rotates (3 ∷ []) (4 ∷ []) ∷ Event.arrives 1 Data.confirming ∷ [])).relay in
    (ids after.peers ≡ 4 ∷ []) × (after.host ≡ some 4)
unfolding find_conn
rotate-reseats_example =
    rotate-reseats Data.crypto Data.server (3 ∷ []) (4 ∷ []) Data.conn 1 Data.session true 1
      Data.confirming refl refl refl refl refl refl
