-- ===== src/Transport/Sealing.antt =====
-- lib/transport.js: the frames that `send` seals, and what a step may change of what can be sealed.
use vibed_st_muliplayer.Base.{
  ap, if◌then◌else◌, ℕ, ◌≤◌, ◌<◌, ◌≡◌, ◌⊎◌, inl, refl, Bool, true, false, Option, none, some, List,
  [], ◌∷◌, ◌++◌, All, arith,
}
use vibed_st_muliplayer.Secrets.{Keys}
use vibed_st_muliplayer.Transport.{◌>>◌, Socket, Transport, Output, Act}

-- The socket and the counter of each frame that is sealed, in order.
unfoldable pub sealed : List Output → List (ℕ × ℕ)
sealed [] = []
sealed (Output.seal socket counter ∷ os) = (socket, counter) ∷ sealed os
sealed (_ ∷ os) = sealed os

-- A later socket, or a higher counter of the same one.
abbrev pub Later : ℕ × ℕ → ℕ × ℕ → Type 0
Later (s, c) (s', c') = (s < s') ⊎ ((s ≡ s') × (c < c'))

abbrev pub Ascends : List (ℕ × ℕ) → Type 0
Ascends [] = Unit
Ascends (x ∷ xs) = All (Later x) xs × Ascends xs

-- What may still be sealed: the current socket has its counters above the last, a new one any.
abbrev pub Ahead : Option Socket → Option Keys → ℕ → ℕ → ℕ × ℕ → Type 0
Ahead none ke c n (s', c') = n < s'
Ahead (some k) none c n (s', c') = n ≤ s'
Ahead (some k) (some x) c n (s', c') = Later (n, c) (s', c')

abbrev pub IsAhead : Transport → ℕ × ℕ → Type 0
IsAhead t x = Ahead t.socket t.keys t.send_counter t.dialled x

-- A new socket is ahead of whatever there is.
pub Ahead-of_new :
    (so : Option Socket) (ke : Option Keys) (c n : ℕ) (x : ℕ × ℕ) → n < x.0 → Ahead so ke c n x
Ahead-of_new none ke c n x h = h
Ahead-of_new (some k) none c n x h = omega arith
Ahead-of_new (some k) (some y) c n x h = inl h

-- Nothing is sealed, and what may be sealed afterwards might have been before.
abbrev pub Quiet : Transport → Transport × List Output → Type 0
Quiet t out = (sealed out.1 ≡ []) × ((x : ℕ × ℕ) → IsAhead out.0 x → IsAhead t x)

pub if-Quiet :
    (t : Transport) (b : Bool) (x y : Transport × List Output)
    → (b ≡ true → Quiet t x)
    → (b ≡ false → Quiet t y)
    → Quiet t (if b then x else y)
if-Quiet t true x y f g = f refl
if-Quiet t false x y f g = g refl

pub sealed-append : (os bs : List Output) → sealed (os ++ bs) ≡ sealed os ++ sealed bs
unfolding sealed
sealed-append [] bs = refl
sealed-append (Output.seal s c ∷ os) bs =
    ap (λ (xs : List (ℕ × ℕ)). (s, c) ∷ xs) (sealed-append os bs)
sealed-append (Output.signal s ∷ os) bs = sealed-append os bs
sealed-append (Output.dial s ∷ os) bs = sealed-append os bs
sealed-append (Output.send_text s ∷ os) bs = sealed-append os bs
sealed-append (Output.send_frame s c ∷ os) bs = sealed-append os bs
sealed-append (Output.ping s ∷ os) bs = sealed-append os bs
sealed-append (Output.close_socket s ∷ os) bs = sealed-append os bs

pub then-Quiet_at :
    (t : Transport) (f g : Act) → Quiet t (f t) → Quiet (f t).0 (g (f t).0) → Quiet t ((f >> g) t)
then-Quiet_at t f g h k = (rw (sealed-append, h.0) k.0, λ x a. h.1 x (k.1 x a))

pub then-Quiet :
    (t : Transport) (f g : Act)
    → Quiet t (f t)
    → ((u : Transport) → Quiet u (g u))
    → Quiet t ((f >> g) t)
then-Quiet t f g h k = then-Quiet_at t f g h (k (f t).0)
