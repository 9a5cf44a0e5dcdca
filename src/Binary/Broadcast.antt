-- ===== src/Binary/Broadcast.antt =====
-- The shape of the result: each input has the extent of the result along an axis, or 1.
use iom.Base.{
  ◌!=◌, length, get_or, take, drop, replicate, All, invalid_argument, ok, require, >>=-eq-ok,
  require-eq-ok, ok-injective, ℕ, zero, suc, ◌<◌, ◌≡◌, refl, ap, subst, ◌⊎◌, true, not, ◌&&◌, List,
  [], ◌∷◌, ◌++◌, arith,
}
use iom.Binary.{broadcast_axes, greater_of}

-- A shape that is stretched to another: the axes of the second decide.
abbrev pub Stretches : List ℕ → List ℕ → Type 0
Stretches [] [] = Unit {0}
Stretches (l ∷ ls) [] = Unit {0}
Stretches [] (o ∷ os) = ⊥
Stretches (l ∷ ls) (o ∷ os) = ((l ≡ o) ⊎ (l ≡ 1)) × Stretches ls os

axis_left :
    (l r : ℕ)
    → 0 < l
    → 0 < r
    → not (l != r && l != 1 && r != 1) ≡ true
    → (l ≡ greater_of l r) ⊎ (l ≡ 1)
axis_left l r hl hr e = ground arith

axis_right :
    (l r : ℕ)
    → 0 < l
    → 0 < r
    → not (l != r && l != 1 && r != 1) ≡ true
    → (r ≡ greater_of l r) ⊎ (r ≡ 1)
axis_right l r hl hr e = ground arith

pub broadcast_axes-Stretches :
    (lhs rhs : List ℕ) {result : List ℕ}
    → length lhs ≡ length rhs
    → All (λ d. 0 < d) lhs
    → All (λ d. 0 < d) rhs
    → broadcast_axes lhs rhs ≡ ok result
    → (length result ≡ length lhs) × Stretches lhs result × Stretches rhs result
unfolding broadcast_axes
broadcast_axes-Stretches [] [] {result} same hl hr e =
    subst (λ (x : List ℕ). (length x ≡ 0) × Stretches [] x × Stretches [] x)
      (ok-injective [] result e) (refl, tt, tt)
broadcast_axes-Stretches [] (r ∷ rhs) same hl hr e = absurd (omega (arith, same))
broadcast_axes-Stretches (l ∷ lhs) [] same hl hr e = absurd (omega (arith, same))
broadcast_axes-Stretches (l ∷ lhs) (r ∷ rhs) {result} same hl hr e =
    let fits = not (l != r && l != 1 && r != 1) in
    let (u, allowed, e1) = >>=-eq-ok (require fits invalid_argument) _ e in
    let (rest, further, e2) = >>=-eq-ok (broadcast_axes lhs rhs) _ e1 in
    let (long, left, right) =
      broadcast_axes-Stretches lhs rhs (omega (arith, same)) hl.1 hr.1 further in
    let compatible = require-eq-ok fits invalid_argument allowed in
    subst
      (λ (x : List ℕ).
        (length x ≡ suc (length lhs)) × Stretches (l ∷ lhs) x × Stretches (r ∷ rhs) x)
      (ok-injective _ result e2)
      (
        ap suc long,
        (axis_left l r hl.0 hr.0 compatible, left),
        (axis_right l r hl.0 hr.0 compatible, right),
      )

pub Stretches-drop :
    (k : ℕ) (dims result : List ℕ)
    → Stretches (replicate k 1 ++ dims) result
    → Stretches dims (drop k result)
Stretches-drop zero dims result s = s
Stretches-drop (suc k) [] [] s = tt
Stretches-drop (suc k) (x ∷ dims) [] s = tt
Stretches-drop (suc k) dims (o ∷ result) s = Stretches-drop k dims result s.1

pub Stretches-take :
    (n : ℕ) (dims result : List ℕ) → Stretches dims result → Stretches dims (take n result)
Stretches-take zero [] result s = tt
Stretches-take zero (x ∷ dims) result s = tt
Stretches-take (suc n) [] [] s = tt
Stretches-take (suc n) (x ∷ dims) [] s = tt
Stretches-take (suc n) [] (o ∷ result) s = absurd s
Stretches-take (suc n) (x ∷ dims) (o ∷ result) s = (s.0, Stretches-take n dims result s.1)

-- The same for one axis.
pub Stretches-at :
    (dims result : List ℕ) (i : ℕ)
    → Stretches dims result
    → i < length result
    → (get_or dims i 0 ≡ get_or result i 0) ⊎ (get_or dims i 0 ≡ 1)
Stretches-at [] [] i s h = absurd (omega (arith, h))
Stretches-at (x ∷ dims) [] i s h = absurd (omega (arith, h))
Stretches-at [] (o ∷ result) i s h = absurd s
Stretches-at (x ∷ dims) (o ∷ result) zero s h = s.0
Stretches-at (x ∷ dims) (o ∷ result) (suc i) s h = Stretches-at dims result i s.1 (omega (arith, h))
