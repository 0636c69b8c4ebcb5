-- ===== src/Tests/Client.antt =====
-- The theorems on the browser's side at concrete events and texts.
use vibed_st_muliplayer.Notice.Lifetime.{Told}
use vibed_st_muliplayer.Base.{
  subst, ℕ, ◌+◌, ◌≤◌, ◌<◌, ◌≡◌, refl, true, false, none, some, List, [], ◌∷◌, arith,
}
use vibed_st_muliplayer.Typing.{
  silent, on_idle, on_local_activity, keep_typing, fires, expire, receive, set_active,
}
use vibed_st_muliplayer.Typing.Keepalive.{Local, local_run, local_step, typing_stops}
use vibed_st_muliplayer.Typing.Expiry.{
  Remote, remote_run, remote_step, last_typed, find_shown, shown_recently,
}
use vibed_st_muliplayer.Base.Texts.{trim, trim_start, trim_end}
use vibed_st_muliplayer.Notice.{
  pend, clean_name, clean_name, pend, Phase, Asker, Current, sweep_notice, show_notice, attributed,
}
use vibed_st_muliplayer.Notice.Lifetime.{
  NoticeEvent, notice_run, notice_step, last_told, notice_is_recent,
}
use vibed_st_muliplayer.Code.Base32.{bytes_of, digits_of}
use vibed_st_muliplayer.Code.Base32.Roundtrip.{bytes-digits}
use vibed_st_muliplayer.Code.Letters.{Units, read, written}
use vibed_st_muliplayer.Code.Letters.Cleaning.{read-written}
use vibed_st_muliplayer.Code.Body.{
  in_range, Octets, address_head, finish, octets_in, dotted_parts, add_unit, octet_of, four_octets,
  add_unit, dotted_parts, octets_in, finish, address_head, Utf8, octets_of, encode_code,
  decode_code, summed,
}
use vibed_st_muliplayer.Code.Address.{
  normal, trimmed, trimmed_start, trimmed_end, is_private_address, classify_address, Wish,
}
use vibed_st_muliplayer.Code.Address.Reach.{is_local, private-local}
use vibed_st_muliplayer.Code.Body.Decoding.{canonical, decode-encode}

abbrev keys : List Local
keys = Local.activity true true 1000 ∷ Local.activity true true 2500 ∷ Local.idle 4000 ∷ []

typing_stops_example :
    (at : ℕ) × ((local_run keys silent).idle_at ≡ some at)
    × (at ≤ (local_run keys silent).last_sent_at + 5000)
    × ((on_idle at (local_run keys silent)).1 ≡ false ∷ [])
unfolding local_run local_step on_local_activity on_idle keep_typing fires
typing_stops_example = typing_stops keys refl

abbrev notices : List Remote
notices =
    Remote.notice (record { from_peer = some "p2"; name = some "Ann"; typing = true }) 1000
    ∷ Remote.sweep 2000
    ∷ []

shown_recently_example : (t : ℕ) × (last_typed "p1" "p2" notices none ≡ some t) × (9000 ≤ t + 8000)
unfolding find_shown expire remote_run remote_step receive set_active
shown_recently_example =
    shown_recently "p1" "p2" notices 9000 (record { peer = "p2"; name = "Ann"; expires_at = 9000 })
      refl

abbrev frames : List NoticeEvent
frames =
    NoticeEvent.shows (some Phase.pending) (Asker.named "Ann") 1000
    ∷ NoticeEvent.shows (some Phase.running) Asker.absent 2000
    ∷ []

notice_is_recent_example : (t : ℕ) × (last_told frames none ≡ some t) × (3000 < t + 300000)
unfolding sweep_notice notice_run notice_step show_notice attributed pend clean_name trim trim_start
    trim_end
notice_is_recent_example =
    notice_is_recent frames 3000
      (record { phase = Phase.running; by_whom = some "Ann"; expires_at = 302000 }) refl

abbrev running : Current
running = record { phase = Phase.running; by_whom = some "Ann"; expires_at = 5000 }

-- A reply that one player asks for, and another one while it runs.
abbrev overlapping : List Told
overlapping =
    (some Phase.pending, Asker.named "Bob", 3000)
    ∷ (some Phase.running, Asker.named "Ann", 3100)
    ∷ (some Phase.pending, Asker.named "Bob", 3200)
    ∷ []

abbrev waiting : Current
waiting = record { phase = Phase.pending; by_whom = none; expires_at = 5000 }

bytes-digits_example : bytes_of 0 0 (digits_of 0 0 (255 ∷ 0 ∷ 7 ∷ [])) ≡ 255 ∷ 0 ∷ 7 ∷ []
bytes-digits_example =
    bytes-digits (255 ∷ 0 ∷ 7 ∷ []) (omega arith, (omega arith, (omega arith, tt)))

read-written_example : read (written (255 ∷ 0 ∷ 7 ∷ [])) ≡ some (255 ∷ 0 ∷ 7 ∷ [])
read-written_example =
    read-written (255 ∷ 0 ∷ 7 ∷ []) (omega arith, (omega arith, (omega arith, tt)))

-- A text encoder that is right on ASCII.
abbrev ascii : Utf8
ascii = record { encode = λ us. us; decode = λ bs. bs }

-- 10.0.0.7
abbrev host : Units
host = 49 ∷ 48 ∷ 46 ∷ 48 ∷ 46 ∷ 48 ∷ 46 ∷ 55 ∷ []

abbrev psk : List ℕ
psk = 1 ∷ 2 ∷ 3 ∷ 4 ∷ 5 ∷ 6 ∷ 7 ∷ 8 ∷ 9 ∷ 10 ∷ 11 ∷ 12 ∷ 13 ∷ 14 ∷ 15 ∷ 255 ∷ []

abbrev code : Units
code = written (summed (1 ∷ 10 ∷ 0 ∷ 0 ∷ 7 ∷ 34 ∷ 195 ∷ psk))

decode-encode_example :
    decode_code ascii code
    ≡ some
        (record { host = canonical host (octets_of host); port = 8899; psk = psk; secure = false })
unfolding encode_code octets_of address_head finish octets_in dotted_parts add_unit octet_of
    four_octets
decode-encode_example =
    decode-encode ascii host 8899 psk false code refl (ground arith) (ground arith) refl

abbrev ten : Octets
ten = record { first = 10; second = 0; third = 0; fourth = 7 }

private-local_example : is_private_address host ≡ is_local (classify_address host)
unfolding normal trimmed trimmed_start trimmed_end octets_of octets_in dotted_parts add_unit
    octet_of four_octets
private-local_example =
    private-local host
      (λ o e. let same_octets : ten ≡ o = cc in subst (λ p. in_range p ≡ true) same_octets refl)

abbrev wish : Wish
wish = record {
  advertise_host = host;
  advertise_port = 0;
  advertise_secure = false;
  bind_lan = true;
  public_host = none;
  detected_host = host;
  listen_port = 8899;
}
