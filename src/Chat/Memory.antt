-- ===== src/Chat/Memory.antt =====
-- lib/chat.js: what a `RecentIds` remembers.
use vibed_st_muliplayer.Base.{
  ℕ, ◌≤◌, String, true, false, ◌≡◌, refl, some, List, [], ◌∷◌, ◌++◌, arith, Bool-cases, inl, inr,
  length, ltb, ◌||◌,
}
use vibed_st_muliplayer.Base.Texts.{same, same_refl, is_empty}
use vibed_st_muliplayer.Chat.{RecentIds, recalls, holds_text, without, forget_oldest, remember_id}
use vibed_st_muliplayer.Base.{sym, arith, Bool-cases, inl, inr, refl, ltb, length}
use vibed_st_muliplayer.Base.Texts.{same_refl}
use vibed_st_muliplayer.Chat.{recalls, remember_id, RecentIds}
use vibed_st_muliplayer.Base.{some}
use text.Mathlib.TextEquality.{eq_iff}

-- No text twice.
abbrev pub Distinct : List String → Type 0
Distinct [] = Unit
Distinct (s ∷ ss) = (holds_text s ss ≡ false) × Distinct ss

-- The set and the order have the same ids, each once.
pub record IsTidy (r : RecentIds) : Type 0 where
  pub agree : r.set ≡ r.order
  pub distinct : Distinct r.order
  pub roomy : 1 ≤ r.limit

pub without-absent : (s : String) (xs : List String) → holds_text s xs ≡ false → without s xs ≡ xs
without-absent s [] h = refl
without-absent s (x ∷ xs) h = ground (arith, without-absent s xs)

pub holds-append :
    (s : String) (xs ys : List String)
    → holds_text s (xs ++ ys) ≡ (holds_text s xs || holds_text s ys)
holds-append s [] ys = refl
holds-append s (x ∷ xs) ys = ground (arith, holds-append s xs ys)

pub Distinct-append :
    (s : String) (xs : List String)
    → Distinct xs
    → holds_text s xs ≡ false
    → Distinct (xs ++ s ∷ [])
Distinct-append s [] d h = (refl, tt)
Distinct-append s (x ∷ xs) d h =
    ground (arith, holds-append x xs (s ∷ []), eq_iff x s, eq_iff s x, Distinct-append s xs)

-- The oldest id goes out of the set.
pub without-first :
    (o : String) (os : List String) → holds_text o os ≡ false → without o (o ∷ os) ≡ os
without-first o os h = rw (same_refl o) (without-absent o os h)

-- Forgetting leaves the set and the order alike.
pub forget-Tidy :
    (limit : ℕ) (os : List String)
    → Distinct os
    → ((forget_oldest limit os os).0 ≡ (forget_oldest limit os os).1)
      × Distinct (forget_oldest limit os os).1
unfolding forget_oldest
forget-Tidy limit [] d = (refl, tt)
forget-Tidy limit (o ∷ os) d = elim (Bool-cases (ltb limit (length (o ∷ os)))) [
  | inl many ↦ rw (many, without-first o os d.0) (forget-Tidy limit os d.1)
  | inr few ↦ rw few (refl, d)
]

-- The newest id stays.
pub forget-newest :
    (limit : ℕ) (os : List String) (s : String)
    → 1 ≤ limit
    → Distinct (os ++ s ∷ [])
    → holds_text s (forget_oldest limit (os ++ s ∷ []) (os ++ s ∷ [])).0 ≡ true
unfolding forget_oldest
forget-newest limit [] s l d =
    let few : ltb limit 1 ≡ false = ground arith in rw (few, same_refl s) refl
forget-newest limit (o ∷ os) s l d = elim (Bool-cases (ltb limit (length (o ∷ (os ++ s ∷ []))))) [
  | inl many ↦ rw (many, without-first o (os ++ s ∷ []) d.0) (forget-newest limit os s l d.1)
  | inr few ↦ rw (few, holds-append s os (s ∷ []), same_refl s) (ground arith)
]

-- What is remembered is recalled, and the memory stays tidy.
pub remember-recalls :
    (id : String) (r : RecentIds)
    → is_empty id ≡ false
    → IsTidy r
    → (recalls (some id) (remember_id id r) ≡ true) × IsTidy (remember_id id r)
unfolding remember_id recalls
remember-recalls id r given t = elim (Bool-cases (holds_text id r.set)) [
  | inl known ↦ rw (given, known) (known, t)
  | inr new ↦
      let absent : holds_text id r.order ≡ false = rw (sym t.agree) new in
      let d = Distinct-append id r.order t.distinct absent in
      let tidy = forget-Tidy r.limit (r.order ++ id ∷ []) d in
      rw (given, new, t.agree)
        (
          forget-newest r.limit r.order id t.roomy d,
          record { agree = tidy.0; distinct = tidy.1; roomy = t.roomy },
        )
]

pub holds-without :
    (id o : String) (xs : List String)
    → holds_text id xs ≡ false
    → holds_text id (without o xs) ≡ false
holds-without id o [] e = refl
holds-without id o (x ∷ xs) e = ground (arith, holds-without id o xs)

pub holds-forget :
    (id : String) (limit : ℕ) (os set : List String)
    → holds_text id set ≡ false
    → holds_text id (forget_oldest limit os set).0 ≡ false
unfolding forget_oldest
holds-forget id limit [] set e = e
holds-forget id limit (o ∷ os) set e =
    ground (arith, holds-forget id limit os (without o set), holds-without id o set)

pub remember-other :
    (id other : String) (r : RecentIds)
    → recalls (some id) r ≡ false
    → same other id ≡ false
    → recalls (some id) (remember_id other r) ≡ false
unfolding remember_id recalls
remember-other id other r e d = ground (
  arith,
  holds-forget id r.limit (r.order ++ other ∷ []) (r.set ++ other ∷ []),
  holds-append id r.set (other ∷ []),
)
