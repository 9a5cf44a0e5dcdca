-- ===== src/Tensor/Layout/Slots.antt =====
-- The slot of a matrix element in its plane: in range, and no two elements share one.
use native.Mathlib.Decide.{dec_lt}
use iom.Base.{
  get_or, max_word, add_word, sub_word, ok, ℕ, ◌+◌, ◌-◌, ◌*◌, ◌/◌, ◌%◌, ◌≤◌, ◌<◌, ◌≡◌, ap, arith,
  dec_lt,
}
use iom.Tensor.Checked.{checked_add_ok, checked_mul_ok, padded}
use iom.Tensor.Shape.{TensorSpec, rank}
use iom.Tensor.Layout.{standard_plane_slot}

-- The last two extents, the rows and columns of a plane.
abbrev pub rows : TensorSpec → ℕ
rows spec = get_or spec.shape.dimensions (rank spec.shape - 2) 0

abbrev pub columns : TensorSpec → ℕ
columns spec = get_or spec.shape.dimensions (rank spec.shape - 2 + 1) 0

abbrev tiles : ℕ → ℕ
tiles n = (n + 15) / 16

-- The tile that holds an element, and the element's place in the tile.
abbrev tile_of : ℕ → ℕ → ℕ → ℕ → ℕ → ℕ
tile_of r c plane row column = plane * (tiles r * tiles c) + (row / 16 * tiles c + column / 16)

abbrev place_of : ℕ → ℕ → ℕ
place_of row column = row % 16 * 16 + column % 16

abbrev pub slot : ℕ → ℕ → ℕ → ℕ → ℕ → ℕ
slot r c plane row column = tile_of r c plane row column * 256 + place_of row column

pub le-mul_left : (x p : ℕ) → 0 < p → x ≤ p * x
le-mul_left x p h = grind arith

pub mul_gap : (a c n : ℕ) → a < c → a * n + n ≤ c * n
mul_gap a c n h = grind arith

-- Division with remainder is unique.
pub division_unique : (n a b c d : ℕ) → a * n + b ≡ c * n + d → b < n → d < n → (a ≡ c) × (b ≡ d)
division_unique n a b c d e h k = elim (dec_lt a c) [
  | yes l ↦ absurd (omega (arith, mul_gap a c n l))
  | no g ↦ elim (dec_lt c a) [
    | yes l ↦ absurd (omega (arith, mul_gap c a n l))
    | no g' ↦ let same : a ≡ c = omega arith in (same, omega (arith, ap (λ (t : ℕ). t * n) same))
  ]
]

-- The number of the tile in its plane.
tile_in_plane-lt :
    (r c row column : ℕ)
    → row < r
    → column < c
    → row / 16 * tiles c + column / 16 < tiles r * tiles c
tile_in_plane-lt r c row column hr hc =
    omega (arith, mul_gap (row / 16) (tiles r) (tiles c) (omega arith))

tile_of-lt :
    (r c planes plane row column : ℕ)
    → plane < planes
    → row < r
    → column < c
    → tile_of r c plane row column < planes * (tiles r * tiles c)
tile_of-lt r c planes plane row column hp hr hc =
    omega
      (arith, tile_in_plane-lt r c row column hr hc, mul_gap plane planes (tiles r * tiles c) hp)

pub slot-lt :
    (r c planes plane row column : ℕ)
    → plane < planes
    → row < r
    → column < c
    → slot r c plane row column < planes * (padded r * padded c)
slot-lt r c planes plane row column hp hr hc =
    omega (arith, tile_of-lt r c planes plane row column hp hr hc)

-- No two elements of the planes share a slot.
pub slot-injective :
    (r c p i j q k l : ℕ)
    → i < r
    → j < c
    → k < r
    → l < c
    → slot r c p i j ≡ slot r c q k l
    → (p ≡ q) × (i ≡ k) × (j ≡ l)
slot-injective r c p i j q k l hi hj hk hl e =
    let same_tile : tile_of r c p i j ≡ tile_of r c q k l = omega (arith, e) in
    let same_place : place_of i j ≡ place_of k l = omega (arith, e) in
    let (plane, inner) =
      division_unique (tiles r * tiles c) p (i / 16 * tiles c + j / 16) q
        (k / 16 * tiles c + l / 16) same_tile (tile_in_plane-lt r c i j hi hj)
        (tile_in_plane-lt r c k l hk hl) in
    let (row, column) =
      division_unique (tiles c) (i / 16) (j / 16) (k / 16) (l / 16) inner (omega arith)
        (omega arith) in
    (plane, omega (arith, row, same_place), omega (arith, column, same_place))

-- The checked computation does not overflow where the padded planes can be counted, and gives the
-- slot.
pub standard_plane_slot_lem :
    (spec : TensorSpec) (planes plane row column : ℕ)
    → 2 ≤ rank spec.shape
    → rank spec.shape ≤ max_word
    → plane < planes
    → row < rows spec
    → column < columns spec
    → planes * (padded (rows spec) * padded (columns spec)) ≤ max_word
    → standard_plane_slot spec plane row column
      ≡ ok (slot (rows spec) (columns spec) plane row column)
unfolding standard_plane_slot
standard_plane_slot_lem spec planes plane row column two small hp hr hc fits = rw (
  lead,
  next,
  checked_add_ok r 15 (omega (arith, r_fits)),
  checked_add_ok c 15 (omega (arith, c_fits)),
  checked_mul_ok (tiles r) (tiles c) (omega (arith, one_plane)),
  checked_mul_ok plane (tiles r * tiles c) (omega (arith, all_tiles)),
  checked_mul_ok (row / 16) (tiles c) (omega (arith, inner, one_plane)),
  checked_add_ok (row / 16 * tiles c) (column / 16) (omega (arith, inner, one_plane)),
  checked_add_ok (plane * (tiles r * tiles c)) (row / 16 * tiles c + column / 16)
      (omega (arith, all_tiles)),
  checked_mul_ok (tile_of r c plane row column) 256 (omega (arith, all_tiles)),
  checked_mul_ok (row % 16) 16 (omega arith),
  checked_add_ok (row % 16 * 16) (column % 16) (omega arith),
  checked_add_ok (tile_of r c plane row column * 256) (place_of row column)
      (omega (arith, all_tiles)),
)
  where
    r : ℕ
    r = rows spec

    c : ℕ
    c = columns spec

    lead : sub_word (rank spec.shape) 2 ≡ rank spec.shape - 2
    lead = omega arith

    next : add_word (rank spec.shape - 2) 1 ≡ rank spec.shape - 2 + 1
    next = omega arith

    one_plane : tiles r * tiles c ≤ planes * (tiles r * tiles c)
    one_plane = le-mul_left (tiles r * tiles c) planes (omega arith)

    inner : row / 16 * tiles c + column / 16 < tiles r * tiles c
    inner = tile_in_plane-lt r c row column hr hc

    all_tiles : tile_of r c plane row column < planes * (tiles r * tiles c)
    all_tiles = tile_of-lt r c planes plane row column hp hr hc

    r_fits : padded r ≤ max_word
    r_fits = omega (
      arith,
      le-mul_left (padded r) (padded c) (omega arith),
      le-mul_left (padded r * padded c) planes (omega arith),
    )

    c_fits : padded c ≤ max_word
    c_fits = omega (
      arith,
      le-mul_left (padded c) (padded r) (omega arith),
      le-mul_left (padded r * padded c) planes (omega arith),
    )
