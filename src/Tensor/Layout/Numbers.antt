-- ===== src/Tensor/Layout/Numbers.antt =====
-- Coordinates within dimensions, and the row-major number of a plane: the two loops of
-- `standard_layout_slot`.
use mathlib.Core.Path.{ap₂}
use iom.Base.{
  length, get_or, take, product, All, max_word, ok, ℕ, zero, suc, ◌+◌, ◌*◌, ◌≤◌, ◌<◌, ◌≡◌, refl, ap,
  List, [], ◌∷◌, ◌++◌, arith,
}
use iom.Tensor.Checked.{checked_add_ok, checked_mul_ok}
use iom.Tensor.Shape.Counts.{product-pos}
use iom.Tensor.Layout.{check_coordinates, plane_index}
use iom.Tensor.Layout.Slots.{division_unique, mul_gap, le-mul_left}

-- One coordinate for each dimension, below it.
abbrev pub Within : List ℕ → List ℕ → Type 0
Within [] [] = Unit {0}
Within [] (d ∷ dims) = ⊥
Within (c ∷ coordinates) [] = ⊥
Within (c ∷ coordinates) (d ∷ dims) = (c < d) × Within coordinates dims

-- The row-major number of a plane.
abbrev pub number : ℕ → List ℕ → List ℕ → ℕ
number plane [] coordinates = plane
number plane (d ∷ dims) [] = plane
number plane (d ∷ dims) (c ∷ coordinates) = number (plane * d + c) dims coordinates

pub number-lt :
    (planes plane : ℕ) (dims coordinates : List ℕ)
    → plane < planes
    → Within coordinates dims
    → number plane dims coordinates < planes * product dims
number-lt planes plane [] [] h w = omega arith
number-lt planes plane [] (c ∷ coordinates) h w = absurd w
number-lt planes plane (d ∷ dims) [] h w = absurd w
number-lt planes plane (d ∷ dims) (c ∷ coordinates) h w = omega (
  arith,
  number-lt (planes * d) (plane * d + c) dims coordinates
      (omega (arith, w.0, mul_gap plane planes d h)) w.1,
)

pub number-injective :
    (p q : ℕ) (dims cs ds : List ℕ)
    → Within cs dims
    → Within ds dims
    → number p dims cs ≡ number q dims ds
    → (p ≡ q) × (cs ≡ ds)
number-injective p q [] [] [] w v e = (e, refl)
number-injective p q [] [] (d ∷ ds) w v e = absurd v
number-injective p q [] (c ∷ cs) ds w v e = absurd w
number-injective p q (n ∷ dims) [] ds w v e = absurd w
number-injective p q (n ∷ dims) (c ∷ cs) [] w v e = absurd v
number-injective p q (n ∷ dims) (c ∷ cs) (d ∷ ds) w v e =
    let (heads, tails) = number-injective (p * n + c) (q * n + d) dims cs ds w.1 v.1 e in
    let (planes, coordinate) = division_unique n p c q d heads w.0 v.0 in
    (planes, ap₂ ◌∷◌ coordinate tails)

pub plane_index_lem :
    (planes plane : ℕ) (dims coordinates : List ℕ)
    → plane < planes
    → planes * product dims ≤ max_word
    → All (λ d. 0 < d) dims
    → Within coordinates dims
    → plane_index plane dims coordinates ≡ ok (number plane dims coordinates)
unfolding plane_index
plane_index_lem planes plane [] [] h fits pos w = refl
plane_index_lem planes plane [] (c ∷ coordinates) h fits pos w = absurd w
plane_index_lem planes plane (d ∷ dims) [] h fits pos w = absurd w
plane_index_lem planes plane (d ∷ dims) (c ∷ coordinates) h fits pos w =
    rw
      (
        checked_mul_ok plane d (omega (arith, room)),
        checked_add_ok (plane * d) c (omega (arith, room, w.0)),
      )
      (plane_index_lem (planes * d) (plane * d + c) dims coordinates (omega (arith, w.0, room))
        (omega arith) pos.1 w.1)
  where
    room : (plane * d + d ≤ planes * d) × (planes * d ≤ max_word)
    room = (
      mul_gap plane planes d h,
      omega (arith, le-mul_left (planes * d) (product dims) (product-pos dims pos.1)),
    )

pub check_coordinates_lem :
    (coordinates dims : List ℕ)
    → Within coordinates dims
    → check_coordinates coordinates dims ≡ ok tt
unfolding check_coordinates
check_coordinates_lem [] [] w = refl
check_coordinates_lem [] (d ∷ dims) w = absurd w
check_coordinates_lem (c ∷ coordinates) [] w = absurd w
check_coordinates_lem (c ∷ coordinates) (d ∷ dims) w =
    ground (arith, check_coordinates_lem coordinates dims w.1)

pub length-Within : (cs dims : List ℕ) → Within cs dims → length cs ≡ length dims
length-Within [] [] w = refl
length-Within [] (d ∷ dims) w = absurd w
length-Within (c ∷ cs) [] w = absurd w
length-Within (c ∷ cs) (d ∷ dims) w = ap suc (length-Within cs dims w.1)

pub take-Within : (k : ℕ) (cs dims : List ℕ) → Within cs dims → Within (take k cs) (take k dims)
take-Within zero cs dims w = tt
take-Within (suc k) [] [] w = tt
take-Within (suc k) [] (d ∷ dims) w = absurd w
take-Within (suc k) (c ∷ cs) [] w = absurd w
take-Within (suc k) (c ∷ cs) (d ∷ dims) w = (w.0, take-Within k cs dims w.1)

pub take-All : (k : ℕ) (dims : List ℕ) → All (λ d. 0 < d) dims → All (λ d. 0 < d) (take k dims)
take-All zero dims h = tt
take-All (suc k) [] h = tt
take-All (suc k) (d ∷ dims) h = (h.0, take-All k dims h.1)

pub get_or-Within :
    (i : ℕ) (cs dims : List ℕ) → Within cs dims → i < length dims → get_or cs i 0 < get_or dims i 0
get_or-Within i [] [] w h = absurd (omega arith)
get_or-Within i [] (d ∷ dims) w h = absurd w
get_or-Within i (c ∷ cs) [] w h = absurd w
get_or-Within zero (c ∷ cs) (d ∷ dims) w h = w.0
get_or-Within (suc i) (c ∷ cs) (d ∷ dims) w h = get_or-Within i cs dims w.1 (omega arith)

-- A list is its leading part and its last two members.
pub last_two :
    (k : ℕ) (cs : List ℕ)
    → length cs ≡ suc (suc k)
    → cs ≡ take k cs ++ (get_or cs k 0 ∷ get_or cs (suc k) 0 ∷ [])
last_two k [] e = absurd (omega arith)
last_two zero (c ∷ []) e = absurd (omega arith)
last_two zero (c ∷ d ∷ []) e = refl
last_two zero (c ∷ d ∷ x ∷ cs) e = absurd (omega arith)
last_two (suc k) (c ∷ cs) e = ap (λ t. c ∷ t) (last_two k cs (omega arith))
