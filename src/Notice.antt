-- ===== src/Notice.antt =====
-- lib/notice.js: the notice above the transcript that a reply is coming, and who asked for it.
pub mod Lifetime
use vibed_st_muliplayer.Base.{
  ℕ, ◌+◌, ◌-◌, String, Bool, true, false, not, Option, none, some, List, [], ◌∷◌, if◌then◌else◌,
  ltb, leb,
}
use vibed_st_muliplayer.Base.Texts.{cut, trim, is_empty}

-- `PHASE`
pub data Phase : Type 0 where
  pending running done : Phase

-- `payload.by`: not there, null, or a value as a text.
pub data Asker : Type 0 where
  absent : Asker
  null : Asker
  named : String → Asker

pub record Current : Type 0 where
  pub phase : Phase
  pub by_whom : Option String
  pub expires_at : ℕ

-- `EXPIRY_MS[phase] ?? EXPIRY_MS[PHASE.PENDING]`
abbrev pub lifetime_ms : Phase → ℕ
lifetime_ms Phase.running = 300000
lifetime_ms _ = 30000

abbrev pub name_or_null : String → Option String
name_or_null name = if is_empty name then none else some name

-- `#cleanName`
unfoldable pub clean_name : Asker → Option String
unfolding trim
clean_name (Asker.named value) = name_or_null (cut 40 (trim value))
clean_name _ = none

abbrev pub asker_of : Option Current → Option String
asker_of none = none
asker_of (some c) = c.by_whom

-- The name is kept where the notice brings none.
unfoldable pub attributed : Option Current → Asker → Option String
unfolding clean_name
attributed o Asker.absent = asker_of o
attributed o Asker.null = clean_name Asker.null
attributed o (Asker.named value) = clean_name (Asker.named value)

abbrev pub begin : Phase → Asker → ℕ → Option Current → Option Current
begin phase asker now o =
    some
      (record { phase = phase; by_whom = attributed o asker; expires_at = now + lifetime_ms phase })

-- A pending notice leaves a running one as it is, and renews it.
unfoldable pub pend_over : Phase → Current → Asker → ℕ → Option Current
unfolding attributed
pend_over Phase.running c asker now =
    some (record c { expires_at = now + lifetime_ms Phase.running })
pend_over _ c asker now = begin Phase.pending asker now (some c)

unfoldable pub pend : Asker → ℕ → Option Current → Option Current
unfolding attributed pend_over
pend asker now none = begin Phase.pending asker now none
pend asker now (some c) = pend_over c.phase c asker now

-- `show`: a phase that the table lacks is `none`, and ignored.
unfoldable pub show_notice : Option Phase → Asker → ℕ → Option Current → Option Current
unfolding pend attributed
show_notice none asker now o = o
show_notice (some Phase.done) asker now o = none
show_notice (some Phase.pending) asker now o = pend asker now o
show_notice (some Phase.running) asker now o = begin Phase.running asker now o

-- `clear` and `reset`
abbrev pub clear : Option Current → Option Current
clear o = none

-- `sweep`
unfoldable pub sweep_notice : ℕ → Option Current → Option Current
sweep_notice now none = none
sweep_notice now (some c) = if ltb now c.expires_at then some c else none
