-- ===== src/Code/Body/Decoding.antt =====
-- A connection code is decoded to what it was made of.
use vibed_st_muliplayer.Base.{
  ==_iff, subst, ℕ, zero, suc, ◌+◌, ◌-◌, ◌*◌, ◌/◌, ◌%◌, ◌≤◌, ◌<◌, ◌≡◌, refl, sym, ap, ◌∙◌, Bool,
  true, false, ◌&&◌, Option, none, some, List, [], ◌∷◌, ◌++◌, if◌then◌else◌, leb, ltb, ◌==◌, take,
  drop, length, length-append, All, All-append, arith, Bool-cases, inl, inr,
}
use vibed_st_muliplayer.Code.Letters.{Units, written}
use vibed_st_muliplayer.Code.Letters.Cleaning.{read-written}
use vibed_st_muliplayer.Code.Body.{
  Utf8, Octets, crc_bit, crc_bits, crc_bytes, crc16, octets_of, in_range, named_head, address_head,
  summed, finish, encode_code, byte_at, joined, decode_tail, decode_ipv4, decode_named,
  decode_payload, verified, decode_full, decode_bytes, decode_code,
}

-- The checksum has 16 bits.
crc_bit-bound : (crc : ℕ) → crc_bit crc < 65536
unfolding crc_bit
crc_bit-bound crc = elim (Bool-cases (crc / 0x8000 % 2 == 1)) [
  | inl top ↦ rw top (omega arith)
  | inr low ↦ rw low (omega arith)
]

crc_bits-bound : (n crc : ℕ) → crc < 65536 → crc_bits n crc < 65536
unfolding crc_bits
crc_bits-bound zero crc h = h
crc_bits-bound (suc n) crc h = crc_bits-bound n (crc_bit crc) (crc_bit-bound crc)

crc_bytes-bound : (bs : List ℕ) (crc : ℕ) → crc < 65536 → crc_bytes crc bs < 65536
unfolding crc_bytes crc_bits
crc_bytes-bound [] crc h = h
crc_bytes-bound (b ∷ bs) crc h =
    crc_bytes-bound bs _ (crc_bits-bound 7 (crc_bit _) (crc_bit-bound _))

crc16-bound : (bs : List ℕ) → crc16 bs < 65536
unfolding crc16
crc16-bound bs = crc_bytes-bound bs 0xffff (omega arith)

take-append : (xs ys : List ℕ) → take (length xs) (xs ++ ys) ≡ xs
take-append [] ys = refl
take-append (x ∷ xs) ys = ap (λ zs. x ∷ zs) (take-append xs ys)

drop-append : (xs ys : List ℕ) → drop (length xs) (xs ++ ys) ≡ ys
drop-append [] ys = refl
drop-append (x ∷ xs) ys = drop-append xs ys

suc_add : (m n : ℕ) → suc m + n ≡ suc (m + n)
suc_add m n = omega arith

plus_zero : (n : ℕ) → n + 0 ≡ n
plus_zero n = omega arith

byte_at-append : (xs ys : List ℕ) (i : ℕ) → byte_at (length xs + i) (xs ++ ys) ≡ byte_at i ys
unfolding byte_at
byte_at-append [] ys i = ap (λ k. byte_at k ys) (omega arith)
byte_at-append (x ∷ xs) ys i =
    ap (λ k. byte_at k (x ∷ xs ++ ys)) (suc_add (length xs) i) ∙ byte_at-append xs ys i

take_all : (n : ℕ) (xs : List ℕ) → length xs ≡ n → take n xs ≡ xs
take_all zero [] h = refl
take_all zero (x ∷ xs) h = ground arith
take_all (suc n) [] h = refl
take_all (suc n) (x ∷ xs) h = ap (λ ys. x ∷ ys) (take_all n xs (omega arith))

-- What a guarded result shows of its guard.
guarded {ℓ} :
    {A : Type ℓ} (b : Bool) (x : Option A) (y : A)
    → (if b then x else none) ≡ some y
    → (b ≡ true) × (x ≡ some y)
guarded true x y e = (refl, e)
guarded false x y e = cc

when-some {ℓ} :
    {A : Type ℓ} (b : Bool) (x y : A) → (if b then some x else none) ≡ some y → (b ≡ true) × (x ≡ y)
when-some true x y e = (refl, cc)
when-some false x y e = cc

unless-some {ℓ} :
    {A : Type ℓ} (b : Bool) (x y : A)
    → (if b then none else some x) ≡ some y
    → (b ≡ false) × (x ≡ y)
unless-some true x y e = cc
unless-some false x y e = (refl, cc)

octets-bound :
    (a b c d : ℕ)
    → (leb a 255 && leb b 255 && leb c 255 && leb d 255) ≡ true
    → (a < 256) × (b < 256) × (c < 256) × (d < 256)
octets-bound a b c d h = ground arith

long_enough : (xs ys : List ℕ) → 2 ≤ length xs → 2 ≤ length (xs ++ ys)
long_enough xs ys h = omega (arith, length-append xs ys)

if-skip {ℓ} : {A : Type ℓ} (b : Bool) (x y : A) → b ≡ false → (if b then x else y) ≡ y
if-skip true x y h = cc
if-skip false x y h = refl

if-take {ℓ} : {A : Type ℓ} (b : Bool) (x y : A) → b ≡ true → (if b then x else y) ≡ x
if-take true x y h = refl
if-take false x y h = cc

verified-agrees :
    (utf8 : Utf8) (payload p : List ℕ) (h l : ℕ)
    → p ≡ payload
    → h ≡ crc16 payload / 256 % 256
    → l ≡ crc16 payload % 256
    → verified utf8 p h l ≡ decode_payload utf8 payload
unfolding verified
verified-agrees utf8 payload p h l e high low =
    let bound = crc16-bound payload in
    rw e (if-take (crc16 payload == h * 256 + l) (decode_payload utf8 payload) none (ground arith))

-- Behind any two bytes at least, the checksum is found and agrees.
decode_full-summed :
    (utf8 : Utf8) (payload : List ℕ)
    → 2 ≤ length payload
    → decode_full utf8 (summed payload) ≡ decode_payload utf8 payload
unfolding decode_full
decode_full-summed utf8 payload h =
    let crc = crc16 payload in
    let ends = crc / 256 % 256 ∷ crc % 256 ∷ [] in
    let long : length (payload ++ ends) ≡ length payload + 2 = length-append payload ends in
    let size : length (payload ++ ends) - 2 ≡ length payload = omega arith in
    if-skip (ltb (length (payload ++ ends)) 4) none _ (ground arith)
    ∙ verified-agrees utf8 payload (take (length (payload ++ ends) - 2) (payload ++ ends))
        (byte_at (length (payload ++ ends) - 2) (payload ++ ends))
        (byte_at (length (payload ++ ends) - 2 + 1) (payload ++ ends))
        (ap (λ n. take n (payload ++ ends)) size ∙ take-append payload ends)
        (ap (λ n. byte_at n (payload ++ ends)) (size ∙ sym (plus_zero (length payload)))
          ∙ byte_at-append payload ends 0)
        (ap (λ n. byte_at (n + 1) (payload ++ ends)) size ∙ byte_at-append payload ends 1)

decode_tail-made :
    (secure : Bool) (host : Units) (port : ℕ) (psk : List ℕ)
    → port ≤ 65535
    → length psk ≡ 16
    → decode_tail secure host (port / 256 % 256 ∷ port % 256 ∷ psk)
      ≡ some (record { host = host; port = port; psk = psk; secure = secure })
unfolding decode_tail byte_at
decode_tail-made secure host port psk h l =
    let whole : take 16 psk ≡ psk = take_all 16 psk l in
    let number : port / 256 % 256 * 256 + port % 256 ≡ port = omega arith in
    rw (whole, number)
      (if-take (length psk == 16)
        (some (record { host = host; port = port; psk = psk; secure = secure })) none
        (ground arith))

-- The host as the code gives it: an address of four numbers without leading zeros, or the name.
abbrev pub canonical : Units → Option Octets → Units
canonical host none = host
canonical host (some o) = joined (o.first ∷ o.second ∷ o.third ∷ o.fourth ∷ [])

abbrev IsByte : ℕ → Type 0
IsByte b = b < 256

-- What the address contributes: its bytes, and that it is decoded before whatever follows it.
record IsHead (utf8 : Utf8) (secure : Bool) (host : Units) (head : List ℕ) : Type 0 where
  bytes : All IsByte head
  long : 2 ≤ length head
  decodes : (rest : List ℕ) → decode_payload utf8 (head ++ rest) ≡ decode_tail secure host rest

kind_byte : (secure : Bool) (a b : ℕ) → a < 256 → b < 256 → (if secure then a else b) < 256
kind_byte true a b h k = h
kind_byte false a b h k = k

ipv4-decodes :
    (utf8 : Utf8) (secure : Bool) (o : Octets) (rest : List ℕ)
    → decode_payload utf8
        ((if secure then 3 else 1) ∷ o.first ∷ o.second ∷ o.third ∷ o.fourth ∷ rest)
      ≡ decode_tail secure (joined (o.first ∷ o.second ∷ o.third ∷ o.fourth ∷ [])) rest
unfolding decode_payload decode_ipv4
ipv4-decodes utf8 true o rest = refl
ipv4-decodes utf8 false o rest = refl

tail_of_name :
    (utf8 : Utf8) (secure : Bool) (name rest : List ℕ)
    → decode_named utf8 secure (length name ∷ name ++ rest)
      ≡ decode_tail secure (utf8.decode name) rest
unfolding decode_named
tail_of_name utf8 secure name rest = rw (take-append name rest, drop-append name rest) refl

named-decodes :
    (utf8 : Utf8) (secure : Bool) (name rest : List ℕ)
    → decode_payload utf8 ((if secure then 4 else 2) ∷ length name ∷ name ++ rest)
      ≡ decode_tail secure (utf8.decode name) rest
unfolding decode_payload
named-decodes utf8 true name rest = tail_of_name utf8 true name rest
named-decodes utf8 false name rest = tail_of_name utf8 false name rest

address_head-IsHead :
    (utf8 : Utf8) (secure : Bool) (host : Units) (o : Option Octets) (head : List ℕ)
    → utf8.decode (utf8.encode host) ≡ host
    → All IsByte (utf8.encode host)
    → address_head utf8 secure host o ≡ some head
    → IsHead utf8 secure (canonical host o) head
unfolding address_head named_head
address_head-IsHead utf8 secure host none head round small e =
    let name = utf8.encode host in
    let (fits, made) =
      unless-some (ltb 255 (length name)) ((if secure then 4 else 2) ∷ length name ∷ name) head e in
    subst (IsHead utf8 secure host) made (record {
      bytes = (kind_byte secure 4 2 (omega arith) (omega arith), (ground arith, small));
      long = omega arith;
      decodes = λ rest.
          subst
            (λ h.
              decode_payload utf8 ((if secure then 4 else 2) ∷ length name ∷ name ++ rest)
              ≡ decode_tail secure h rest)
            round (named-decodes utf8 secure name rest);
    })
address_head-IsHead utf8 secure host (some o) head round small e =
    let (range, made) =
      when-some (in_range o)
        ((if secure then 3 else 1) ∷ o.first ∷ o.second ∷ o.third ∷ o.fourth ∷ []) head e in
    let (a, b, c, d) = octets-bound o.first o.second o.third o.fourth range in
    subst (IsHead utf8 secure (canonical host (some o))) made (record {
      bytes = (kind_byte secure 3 1 (omega arith) (omega arith), (a, (b, (c, (d, tt)))));
      long = omega arith;
      decodes = λ rest. ipv4-decodes utf8 secure o rest;
    })

written_code :
    (utf8 : Utf8) (secure : Bool) (host : Units) (port : ℕ) (psk head : List ℕ)
    → IsHead utf8 secure host head
    → port ≤ 65535
    → length psk ≡ 16
    → All IsByte psk
    → decode_code utf8 (written (summed (head ++ port / 256 % 256 ∷ port % 256 ∷ psk)))
      ≡ some (record { host = host; port = port; psk = psk; secure = secure })
unfolding decode_code
written_code utf8 secure host port psk head h small sixteen bytes =
    let rest = port / 256 % 256 ∷ port % 256 ∷ psk in
    let crc = crc16 (head ++ rest) in
    let all : All IsByte (summed (head ++ rest)) =
      All-append IsByte (head ++ rest) (crc / 256 % 256 ∷ crc % 256 ∷ [])
        (All-append IsByte head rest h.bytes (omega arith, (omega arith, bytes)))
        (omega arith, (omega arith, tt)) in
    let long : 2 ≤ length (head ++ rest) = long_enough head rest h.long in
    ap (decode_bytes utf8) (read-written (summed (head ++ rest)) all)
    ∙ decode_full-summed utf8 (head ++ rest) long
    ∙ h.decodes rest
    ∙ decode_tail-made secure host port psk small sixteen

finish-some :
    (utf8 : Utf8) (secure : Bool) (host : Units) (port : ℕ) (psk : List ℕ) (o : Option (List ℕ))
    (text : Units)
    → ((head : List ℕ) → o ≡ some head → IsHead utf8 secure host head)
    → length psk ≡ 16
    → All IsByte psk
    → finish port psk o ≡ some text
    → decode_code utf8 text ≡ some (record { host = host; port = port; psk = psk; secure = secure })
unfolding finish
finish-some utf8 secure host port psk none text heads sixteen bytes e = cc
finish-some utf8 secure host port psk (some head) text heads sixteen bytes e =
    let (small, made) = unless-some (ltb 65535 port) _ text e in
    subst
      (λ t.
        decode_code utf8 t ≡ some (record { host = host; port = port; psk = psk; secure = secure }))
      made
      (written_code utf8 secure host port psk head (heads head refl) (ground arith) sixteen bytes)

-- Every connection code that is made is decoded to what it was made of: the host, the port, the key
-- and the scheme; an address of four numbers comes back without leading zeros. It holds wherever the
-- text encoder of the platform makes bytes of the host and the decoder gives the host again.
pub decode-encode :
    (utf8 : Utf8) (host : Units) (port : ℕ) (psk : List ℕ) (secure : Bool) (text : Units)
    → utf8.decode (utf8.encode host) ≡ host
    → All (λ b. b < 256) (utf8.encode host)
    → All (λ b. b < 256) psk
    → encode_code utf8 host port psk secure ≡ some text
    → decode_code utf8 text
      ≡ some (record {
        host = canonical host (octets_of host);
        port = port;
        psk = psk;
        secure = secure;
      })
unfolding encode_code
decode-encode utf8 host port psk secure text round small bytes e =
    let (sixteen, made) =
      guarded (length psk == 16) (finish port psk (address_head utf8 secure host (octets_of host)))
        text e in
    finish-some utf8 secure (canonical host (octets_of host)) port psk
      (address_head utf8 secure host (octets_of host)) text
      (λ head. address_head-IsHead utf8 secure host (octets_of host) head round small)
      ((==_iff (length psk) 16).0 sixteen) bytes made
