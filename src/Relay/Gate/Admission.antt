-- ===== src/Relay/Gate/Admission.antt =====
-- Who is let in: nobody whose extensions differ from the host's.
use vibed_st_muliplayer.Base.{
  ◌≡◌, refl, true, Option, none, some, List, [], ◌∷◌, arith, All, All-map, Bool-cases, inl, inr,
  ◌⊎◌,
}
use vibed_st_muliplayer.Protocol.{is_host}
use vibed_st_muliplayer.Parity.{Report, diff_reports}
use vibed_st_muliplayer.Relay.State.{Peer, Status, Relay}
use vibed_st_muliplayer.Relay.Room.{
  find_peer, set_peer, broadcast, broadcast_roster, announce, admit,
}
use vibed_st_muliplayer.Relay.Room.Sends.{is_seated}
use vibed_st_muliplayer.Relay.Room.Peers.{All-put, All-find}
use vibed_st_muliplayer.Relay.Gate.{
  on_bounded_report, compare_or_wait, bound_report, RawReport, client_reports, host_reports,
  on_parity_report, is_waiting, resolve_parity, resolve_one, resolve_waiting,
}

-- The host itself, or a peer whose report agrees with the baseline.
abbrev pub IsCleared : Option Report → Peer → Type 0
IsCleared baseline p = (is_host p.role ≡ true) ⊎ ((diff_reports baseline p.report).ok ≡ true)

-- In the room only if it was there before, or by the gate.
abbrev pub IsGated : List Peer → Option Report → Peer → Type 0
IsGated before baseline p =
    p.admitted ≡ true → (is_seated p.id before ≡ true) ⊎ IsCleared baseline p

seated_self : (ps : List Peer) (b : Option Report) → All (IsGated ps b) ps
unfolding is_seated
seated_self [] b = tt
seated_self (p ∷ ps) b = (
  λ a. inl (ground arith),
  All-map (IsGated ps b) (IsGated (p ∷ ps) b) ps (λ q h a. ground (arith, h a)) (seated_self ps b),
)

announce-state : (p : Peer) (r : Relay) → (announce p r).0 ≡ r
unfolding announce broadcast broadcast_roster
announce-state p r = refl

module _ (before : List Peer) (b : Option Report) where
  abbrev Gated : Relay → Type 0
  Gated r = (r.host_report ≡ b) × All (IsGated before b) r.peers

  set_peer-Gated : (p : Peer) (r : Relay) → IsGated before b p → Gated r → Gated (set_peer p r).0
  set_peer-Gated p r h g = (g.0, All-put (IsGated before b) p r.peers h g.1)

  admit-Gated : (p : Peer) (r : Relay) → IsCleared b p → Gated r → Gated (admit p r).0
  unfolding admit
  admit-Gated p r c g = elim (Bool-cases p.admitted) [
    | inl already ↦ simp already g
    | inr waits ↦ simp waits (set_peer-Gated (record p { admitted = true }) r (λ a. inr c) g)
  ]

  resolve_parity-Gated :
      (p : Peer) (r : Relay) → IsGated before b p → Gated r → Gated (resolve_parity p r).0
  unfolding resolve_parity
  resolve_parity-Gated p r h g = elim (Bool-cases (diff_reports r.host_report p.report).ok) [
    | inl clean ↦ simp clean (
        admit-Gated (record p { status = Status.ok })
          (set_peer (record p { status = Status.ok }) r).0 (inr (rw (← g.0) clean))
          (set_peer-Gated (record p { status = Status.ok }) r h g))
    | inr dirty ↦ simp dirty (set_peer-Gated (record p { status = Status.mismatch }) r h g)
  ]

  resolve_one-Gated :
      (o : Option Peer) (r : Relay)
      → ((p : Peer) → o ≡ some p → IsGated before b p)
      → Gated r
      → Gated (resolve_one o r).0
  unfolding resolve_one
  resolve_one-Gated none r h g = g
  resolve_one-Gated (some p) r h g = elim (Bool-cases (is_waiting p.status)) [
    | inl waits ↦ simp waits (resolve_parity-Gated p r (h p refl) g)
    | inr other ↦ simp other g
  ]

  resolve_waiting-Gated : (ps : List Peer) (r : Relay) → Gated r → Gated (resolve_waiting ps r).0
  unfolding resolve_waiting
  resolve_waiting-Gated [] r g = g
  resolve_waiting-Gated (p ∷ ps) r g =
      resolve_waiting-Gated ps (resolve_one (find_peer p.id r.peers) r).0 (
        resolve_one-Gated (find_peer p.id r.peers) r
          (λ q e. All-find (IsGated before b) p.id q r.peers g.1 e) g)

  host_reports-Gated :
      (p : Peer) (report : Report) (r : Relay)
      → b ≡ some report
      → is_host p.role ≡ true
      → All (IsGated before b) r.peers
      → Gated (host_reports p report r).0
  unfolding host_reports
  host_reports-Gated p report r e h a =
      let p' = record p { status = Status.ok; report = some report } in
      let r1 = record r { host_report = some report } in
      let r2 = (set_peer p' r1).0 in
      let g2 : Gated r2 = set_peer-Gated p' r1 (λ k. inr (inl h)) (rw e refl, a) in
      let g3 : Gated (admit p' r2).0 = admit-Gated p' r2 (inl h) g2 in
      resolve_waiting-Gated (admit p' r2).0.peers (admit p' r2).0 g3

  compare_or_wait-Gated :
      (p : Peer) (baseline : Option Report) (r : Relay)
      → IsGated before b p
      → Gated r
      → Gated (compare_or_wait p baseline r).0
  unfolding compare_or_wait
  compare_or_wait-Gated p none r h g =
      set_peer-Gated (record p { status = Status.waiting_host }) r h g
  compare_or_wait-Gated p (some baseline) r h g = resolve_parity-Gated p r h g

  client_reports-Gated :
      (p : Peer) (report : Report) (r : Relay)
      → (p.admitted ≡ true → is_seated p.id before ≡ true)
      → Gated r
      → Gated (client_reports p report r).0
  unfolding client_reports
  client_reports-Gated p report r s g =
      let p' = record p { report = some report } in
      compare_or_wait-Gated p' r.host_report (set_peer p' r).0 (λ k. inl (s k))
        (set_peer-Gated p' r (λ k. inl (s k)) g)

  Gated-now : (r : Relay) → Gated r → All (IsGated before r.host_report) r.peers
  Gated-now r g = rw g.0 g.1

find-seated :
    (p q : Peer) (ps : List Peer)
    → find_peer p.id ps ≡ some q
    → q.admitted ≡ true
    → is_seated p.id ps ≡ true
unfolding find_peer is_seated
find-seated p q [] h a = cc
find-seated p q (x ∷ xs) h a = ground (arith, find-seated p q xs)

on_bounded_report-IsGated :
    (p : Peer) (report : Option Report) (r : Relay)
    → find_peer p.id r.peers ≡ some p
    → All
        (IsGated r.peers (on_bounded_report p report r).0.host_report)
        (on_bounded_report p report r).0.peers
unfolding on_bounded_report
on_bounded_report-IsGated p none r l = seated_self r.peers r.host_report
on_bounded_report-IsGated p (some report) r l = elim (Bool-cases (is_host p.role)) [
  | inl h ↦ simp h (
      Gated-now r.peers (some report) (host_reports p report r).0 (
        host_reports-Gated r.peers (some report) p report r refl h
          (seated_self r.peers (some report))))
  | inr c ↦ simp c (
      Gated-now r.peers r.host_report (client_reports p report r).0 (
        client_reports-Gated r.peers r.host_report p report r (find-seated p p r.peers l)
          (refl, seated_self r.peers r.host_report)))
]

-- The gate: after a parity report of any peer, everybody in the room was in it before, or is the
-- host, or sent a report whose comparison with the host's current baseline is clean. The peers that
-- waited for the baseline and are let in by the host's report are among them.
pub on_parity_report-IsGated :
    (p : Peer) (raw : Option RawReport) (r : Relay)
    → find_peer p.id r.peers ≡ some p
    → All
        (IsGated r.peers (on_parity_report p raw r).0.host_report)
        (on_parity_report p raw r).0.peers
unfolding on_parity_report
on_parity_report-IsGated p none r l =
    (set_peer-Gated r.peers r.host_report (record p { status = Status.invalid }) r
      (λ k. inl (find-seated p p r.peers l k)) (refl, seated_self r.peers r.host_report)).1
on_parity_report-IsGated p (some raw) r l = on_bounded_report-IsGated p (bound_report raw) r l
