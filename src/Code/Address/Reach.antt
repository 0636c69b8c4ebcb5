-- ===== src/Code/Address/Reach.antt =====
-- Which addresses are said to be local, and what a code may advertise.
use vibed_st_muliplayer.Base.{
  ◌≡◌, ◌⊎◌, refl, Bool, true, false, ◌||◌, Option, none, some, [], ◌∷◌, if◌then◌else◌, arith,
}
use vibed_st_muliplayer.Code.Letters.{Units}
use vibed_st_muliplayer.Code.Body.{Octets, octets_of, octets_in, dotted_parts, add_unit, in_range}
use vibed_st_muliplayer.Code.Address.{
  units_equal, ends_with, normal, localhost, loopback_v6, dot_localhost, dot_local, Kind,
  kind_of_octets, kind_of_match, classify_address, private_octets, private_match,
  is_private_address, is_blank, Source, Wish, Advertisement, points_here, Warning,
}

abbrev pub is_local : Kind → Bool
is_local Kind.loopback = true
is_local Kind.lan = true
is_local _ = false

octets-local : (o : Octets) → in_range o ≡ true → private_octets o ≡ is_local (kind_of_octets o)
unfolding private_octets kind_of_octets
octets-local o h = ground arith

units→eq : (us vs : Units) → units_equal us vs ≡ true → us ≡ vs
unfolding units_equal
units→eq [] [] h = refl
units→eq [] (v ∷ vs) h = cc
units→eq (u ∷ us) [] h = cc
units→eq (u ∷ us) (v ∷ vs) h = ground (arith, units→eq us vs)

v6-octets : (us : Units) → us ≡ loopback_v6 → octets_of us ≡ none
unfolding octets_of octets_in dotted_parts add_unit
v6-octets us e = rw e refl

-- The two decisions side by side, on what they ask of a text.
decisions :
    (blank local_name v6 below_localhost below_local : Bool) (o : Option Octets)
    → (v6 ≡ true → o ≡ none)
    → ((p : Octets) → o ≡ some p → in_range p ≡ true)
    → (if blank
        then false
        else if local_name || below_local || below_localhost
        then true
        else (elim o [ none ↦ v6 | some p ↦ private_octets p ]))
      ≡ is_local (
          if blank
          then Kind.unknown
          else if local_name || v6 || below_localhost
          then Kind.loopback
          else if below_local
          then Kind.lan
          else kind_of_match o)
decisions true n v a b o k r = refl
decisions false true v a b o k r = refl
decisions false false true true true o k r = refl
decisions false false true true false o k r = refl
decisions false false true false true o k r = refl
decisions false false true false false o k r = rw (k refl) refl
decisions false false false true true o k r = refl
decisions false false false true false o k r = refl
decisions false false false false true o k r = refl
decisions false false false false false none k r = refl
decisions false false false false false (some p) k r = octets-local p (r p refl)

private_match-elim :
    (value : Units) (o : Option Octets)
    → private_match value o
      ≡ (elim o [ none ↦ units_equal value loopback_v6 | some p ↦ private_octets p ])
private_match-elim value none = refl
private_match-elim value (some p) = refl

-- The two descriptions of an address agree: `isPrivateAddress` holds of exactly the addresses that
-- `classifyAddress` calls loopback or local network, unless a number of the address is above 255.
pub private-local :
    (host : Units)
    → ((o : Octets) → octets_of (normal host) ≡ some o → in_range o ≡ true)
    → is_private_address host ≡ is_local (classify_address host)
unfolding is_private_address classify_address
private-local host range =
    let value = normal host in
    rw (private_match-elim value (octets_of value)) (
      decisions (is_blank value) (units_equal value localhost) (units_equal value loopback_v6)
        (ends_with dot_localhost value) (ends_with dot_local value) (octets_of value)
        (λ e. v6-octets value (units→eq value loopback_v6 e)) range)

-- What an advertisement that is no error promises.
pub record IsReachable (w : Wish) (a : Advertisement) : Type 0 where
  pub secure_typed : a.secure ≡ true → a.source ≡ Source.typed
  pub listening : a.source ≡ Source.typed → (w.bind_lan ≡ true) ⊎ (points_here a.host ≡ true)
  pub warned :
      classify_address a.host ≡ Kind.loopback → a.warnings ≡ Warning.points_at_loopback ∷ []
