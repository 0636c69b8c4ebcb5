-- ===== src/Relay/Abuse/Blocking.antt =====
-- Who is blocked for failed handshakes, and for how long.
use vibed_st_muliplayer.Base.{
  ap, ◌∙◌, ◌≢◌, length, ℕ, ◌+◌, ◌<◌, ◌≡◌, refl, String, false, Option, none, some, List, [], ◌∷◌,
  arith, if◌then◌else◌, ltb,
}
use vibed_st_muliplayer.Base.Texts.{same, same_refl}
use text.Mathlib.TextEquality.{eq_iff}
use vibed_st_muliplayer.Relay.State.{Offender}
use vibed_st_muliplayer.Relay.Abuse.{
  find_offender, put_offender, one_more, offender_or_new, note_failure, is_blocked,
}

find-put :
    (ip : String) (o : Offender) (os : List Offender)
    → find_offender ip (put_offender o os) ≡ (if same o.ip ip then some o else find_offender ip os)
unfolding find_offender put_offender
find-put ip o [] = refl
find-put ip o (x ∷ xs) =
    ground (arith, eq_iff x.ip o.ip, eq_iff x.ip ip, eq_iff o.ip ip, find-put ip o xs)

find-ip :
    (ip : String) (o : Offender) (os : List Offender) → find_offender ip os ≡ some o → o.ip ≡ ip
unfolding find_offender
find-ip ip o [] e = cc
find-ip ip o (x ∷ xs) e = ground (arith, eq_iff x.ip ip, find-ip ip o xs)

-- What is on record of an address.
record_of : String → List Offender → Offender
record_of ip os = offender_or_new ip (find_offender ip os)

offender_or_new-ip :
    (ip : String) (o : Option Offender)
    → ((x : Offender) → o ≡ some x → x.ip ≡ ip)
    → (offender_or_new ip o).ip ≡ ip
unfolding offender_or_new
offender_or_new-ip ip none h = refl
offender_or_new-ip ip (some x) h = h x refl

one_more-ip : (now : ℕ) (o : Offender) → (one_more now o).ip ≡ o.ip
unfolding one_more
one_more-ip now o = ground arith

failed_ip : (ip : String) (now : ℕ) (os : List Offender) → (one_more now (record_of ip os)).ip ≡ ip
unfolding record_of
failed_ip ip now os =
    one_more-ip now (offender_or_new ip (find_offender ip os))
    ∙ offender_or_new-ip ip (find_offender ip os) (λ x e. find-ip ip x os e)

-- The record of an address after one more failure of it, or of another one.
find-note_failure :
    (ip other : String) (now : ℕ) (os : List Offender)
    → find_offender other (note_failure ip now os)
      ≡ (if same ip other then some (one_more now (record_of ip os)) else find_offender other os)
unfolding note_failure record_of
find-note_failure ip other now os =
    let o = one_more now (offender_or_new ip (find_offender ip os)) in
    let e : o.ip ≡ ip = failed_ip ip now os in
    find-put other o os
    ∙ ap (λ (i : String). if same i other then some o else find_offender other os) e

record-note_failure :
    (ip : String) (now : ℕ) (os : List Offender)
    → record_of ip (note_failure ip now os) ≡ one_more now (record_of ip os)
unfolding record_of offender_or_new
record-note_failure ip now os = rw (find-note_failure ip ip now os, same_refl ip)

is_blocked-record :
    (ip : String) (now : ℕ) (os : List Offender)
    → is_blocked ip now os ≡ ltb now (record_of ip os).blocked_until
unfolding is_blocked record_of offender_or_new
is_blocked-record ip now os = ground arith

-- Failures of one address at these times.
pub fail_all : String → List ℕ → List Offender → List Offender
fail_all ip [] os = os
fail_all ip (t ∷ ts) os = fail_all ip ts (note_failure ip t os)

counts :
    (ip : String) (ts : List ℕ) (os : List Offender)
    → (record_of ip os).failures + length ts < 5
    → ((record_of ip (fail_all ip ts os)).failures ≡ (record_of ip os).failures + length ts)
      × ((record_of ip (fail_all ip ts os)).blocked_until ≡ (record_of ip os).blocked_until)
unfolding fail_all one_more
counts ip [] os h = (omega arith, refl)
counts ip (t ∷ ts) os h =
    ground (arith, record-note_failure ip t os, counts ip ts (note_failure ip t os))

fresh_record :
    (ip : String) (os : List Offender)
    → find_offender ip os ≡ none
    → ((record_of ip os).failures ≡ 0) × ((record_of ip os).blocked_until ≡ 0)
unfolding record_of offender_or_new
fresh_record ip os e = ground arith

-- An address with nothing on record is not blocked by four failures or fewer, and by the fifth it is
-- blocked, for the 60 seconds that follow it and no longer.
pub fifth_failure_blocks :
    (ip : String) (ts : List ℕ) (t now : ℕ) (os : List Offender)
    → find_offender ip os ≡ none
    → length ts ≡ 4
    → (is_blocked ip now (fail_all ip ts os) ≡ false)
      × (is_blocked ip now (note_failure ip t (fail_all ip ts os)) ≡ ltb now (t + 60000))
unfolding one_more
fifth_failure_blocks ip ts t now os e l =
    let (none_yet, never) = fresh_record ip os e in
    let (four, still) = counts ip ts os (omega arith) in
    (
      ground (arith, is_blocked-record ip now (fail_all ip ts os)),
      ground (
        arith,
        is_blocked-record ip now (note_failure ip t (fail_all ip ts os)),
        record-note_failure ip t (fail_all ip ts os),
      ),
    )

-- A failure of one address blocks no other, and unblocks none.
pub failure_is_local :
    (ip other : String) (t now : ℕ) (os : List Offender)
    → ip ≢ other
    → is_blocked other now (note_failure ip t os) ≡ is_blocked other now os
unfolding is_blocked
failure_is_local ip other t now os n =
    ground (arith, eq_iff ip other, find-note_failure ip other t os)
