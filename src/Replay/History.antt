-- ===== src/Replay/History.antt =====
-- The replay guard against the whole history of the counters that it has accepted.
use vibed_st_muliplayer.Base.{
  ℕ, ◌+◌, ◌-◌, ◌≤◌, ◌<◌, max, ◌≡◌, refl, ap, inl, inr, ◌↔◌, Bool, true, false, not, ◌&&◌, List, [],
  ◌∷◌, ◌++◌, arith, has, has-append, has-filter, ltb, Nodup, Bool-cases, if◌then◌else◌,
}
use vibed_st_muliplayer.Replay.{Window, fresh, kept, advance, accept}

-- The highest counter of a history, 0 if it is empty.
maximum : List ℕ → ℕ
maximum [] = 0
maximum (x ∷ xs) = max x (maximum xs)

maximum-append : (xs : List ℕ) (c : ℕ) → maximum (xs ++ c ∷ []) ≡ max (maximum xs) c
unfolding maximum
maximum-append [] c = omega arith
maximum-append (x ∷ xs) c = omega (arith, maximum-append xs c)

has-le-maximum : (c : ℕ) (h : List ℕ) → has c h ≡ true → c ≤ maximum h
unfolding maximum
has-le-maximum c [] k = cc
has-le-maximum c (x ∷ xs) k = ground (arith, has-le-maximum c xs)

-- The window remembers of a history all that is less than 64 below its highest counter.
record Remembers (h : List ℕ) (w : Window) : Type 0 where
  top : w.highest ≡ maximum h
  recent : (c : ℕ) → has c h ≡ true → w.highest < c + 64 → has c w.seen ≡ true
  genuine : (c : ℕ) → has c w.seen ≡ true → has c h ≡ true

fresh-Remembers : Remembers [] fresh
unfolding maximum
fresh-Remembers = record { top = refl; recent = λ c h. cc; genuine = λ c h. cc }

module _ (h : List ℕ) (w : Window) (c : ℕ) (r : Remembers h w) where
  advance-Remembers : w.highest < c → Remembers (h ++ c ∷ []) (advance w c)
  unfolding advance
  advance-Remembers up = record {
    top = omega (arith, maximum-append h c, r.top);
    recent = λ d k m.
        rw (has-filter (kept (c - 64)) d (w.seen ++ c ∷ []), has-append d w.seen (c ∷ []))
          (ground (arith, has-append d h (c ∷ []), r.recent d, has-le-maximum d h, r.top));
    genuine = λ d k. ground (
      arith,
      has-filter (kept (c - 64)) d (w.seen ++ c ∷ []),
      has-append d w.seen (c ∷ []),
      has-append d h (c ∷ []),
      r.genuine d,
    );
  }

  insert-Remembers : c ≤ w.highest → Remembers (h ++ c ∷ []) (record w { seen = w.seen ++ c ∷ [] })
  insert-Remembers low = record {
    top = omega (arith, maximum-append h c, r.top);
    recent =
        λ d k m. ground (arith, has-append d h (c ∷ []), has-append d w.seen (c ∷ []), r.recent d);
    genuine =
        λ d k. ground (arith, has-append d h (c ∷ []), has-append d w.seen (c ∷ []), r.genuine d);
  }

  -- What the guard accepts: a counter above 0, in the window, and never accepted before.
  accept_iff : ((accept w c).1 ≡ true) ↔ ((0 < c) × (w.highest < c + 64) × (has c h ≡ false))
  unfolding accept
  accept_iff = (
    λ e. (ground arith, ground arith, ground (arith, r.recent c, has-le-maximum c h, r.top)),
    λ e. ground (arith, r.genuine c, has-le-maximum c h, r.top),
  )

  accept_up : w.highest < c → accept w c ≡ (advance w c, true)
  unfolding accept
  accept_up up = ground arith

  accept_inside :
      c ≤ w.highest
      → (accept w c).1 ≡ true
      → accept w c ≡ (record w { seen = w.seen ++ c ∷ [] }, true)
  unfolding accept
  accept_inside low e = ground arith

  accept-Remembers : (accept w c).1 ≡ true → Remembers (h ++ c ∷ []) (accept w c).0
  accept-Remembers e = elim (Bool-cases (ltb w.highest c)) [
    | inl up ↦ let k : w.highest < c = ground arith in rw (accept_up k) (advance-Remembers k)
    | inr low ↦ let k : c ≤ w.highest = ground arith in rw (accept_inside k e) (insert-Remembers k)
  ]

  accept_rejects : (accept w c).1 ≡ false → (accept w c).0 ≡ w
  unfolding accept
  accept_rejects e = ground arith

-- The reference guard: it keeps every counter ever accepted, and no window state.
admits : List ℕ → ℕ → Bool
admits h c = ltb 0 c && ltb (maximum h) (c + 64) && not (has c h)

pub ideal : List ℕ → List ℕ → List ℕ
ideal h [] = []
ideal h (c ∷ cs) =
    let fits = ideal (h ++ c ∷ []) cs in
    let refused = ideal h cs in if admits h c then c ∷ fits else refused

-- The counters of a stream of frames that a guard in state `w` accepts.
pub accepted : Window → List ℕ → List ℕ
accepted w [] = []
accepted w (c ∷ cs) =
    let rest = accepted (accept w c).0 cs in if (accept w c).1 then c ∷ rest else rest

accept-admits : (h : List ℕ) (w : Window) (c : ℕ) → Remembers h w → (accept w c).1 ≡ admits h c
unfolding admits
accept-admits h w c r = ground (arith, accept_iff h w c r, r.top)

accepted-ideal :
    (h : List ℕ) (w : Window) (cs : List ℕ) → Remembers h w → accepted w cs ≡ ideal h cs
unfolding accepted ideal
accepted-ideal h w [] r = refl
accepted-ideal h w (c ∷ cs) r = elim (Bool-cases (accept w c).1) [
  | inl hit ↦
      rw (hit, ← accept-admits h w c r, hit)
        (ap (◌∷◌ c) (accepted-ideal (h ++ c ∷ []) _ cs (accept-Remembers h w c r hit)))
  | inr miss ↦
      rw (miss, ← accept-admits h w c r, miss)
        (accepted-ideal h _ cs (rw (accept_rejects h w c r miss) r))
]

-- The bounded window accepts, of every stream of frames, exactly the counters that the reference
-- guard with its unbounded memory accepts: above 0, less than 64 below the highest counter
-- accepted so far, and not accepted before.
pub accepted_refines : (cs : List ℕ) → accepted fresh cs ≡ ideal [] cs
accepted_refines cs = accepted-ideal [] fresh cs fresh-Remembers

ideal-avoids : (h cs : List ℕ) (d : ℕ) → has d h ≡ true → has d (ideal h cs) ≡ false
unfolding ideal admits
ideal-avoids h [] d k = refl
ideal-avoids h (c ∷ cs) d k =
    ground (arith, has-append d h (c ∷ []), ideal-avoids h cs d, ideal-avoids (h ++ c ∷ []) cs d)

ideal-Nodup : (h cs : List ℕ) → Nodup (ideal h cs)
unfolding ideal
ideal-Nodup h [] = tt
ideal-Nodup h (c ∷ cs) = ground (
  arith,
  has-append c h (c ∷ []),
  ideal-avoids (h ++ c ∷ []) cs c,
  ideal-Nodup h cs,
  ideal-Nodup (h ++ c ∷ []) cs,
)

-- No counter is accepted twice, whatever frames arrive and in whatever order.
pub accepted-Nodup : (cs : List ℕ) → Nodup (accepted fresh cs)
accepted-Nodup cs = rw (accepted_refines cs) (ideal-Nodup [] cs)
