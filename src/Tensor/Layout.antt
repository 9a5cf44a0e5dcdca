-- ===== src/Tensor/Layout.antt =====
-- src/tensor.cpp: the element slots of the standard layout of 16 x 16 tiles.
pub mod Slots
pub mod Numbers
pub mod Planes
use iom.Base.{
  ltb, leb, ◌==◌, ◌!=◌, if◌then◌else◌, ltb→lt, lt→ltb, ltb→le, le→ltb, ==→eq, eq→==, Bool-cases,
  Option-cases, length, get_elem?, get_or, set, take, drop, replicate, length-append, length-set,
  length-replicate, get_or-set_self, get_or-set_ne, sum, product, All, word_mod, max_word, add_word,
  sub_word, mul_word, Exception, invalid_argument, overflow_error, out_of_range, bad_alloc,
  runtime_error, logic_error, Result, ok, throws, ◌>>=◌, ◌>>◌, require, >>=-eq-ok, ℕ, zero, suc,
  ◌+◌, ◌-◌, ◌*◌, ◌/◌, ◌%◌, ◌^◌, ◌≤◌, ◌<◌, bit_and, ◌≡◌, refl, sym, ap, subst, ◌∙◌, ◌≢◌, ◌↔◌, ◌⊎◌,
  inl, inr, Bool, true, false, not, ◌&&◌, ◌||◌, Option, none, some, List, [], ◌∷◌, ◌++◌, map, arith,
  dec_lt, ℕ_discrete,
}
use iom.Tensor.Checked.{checked_add, checked_mul, tile}
use iom.Tensor.Shape.{TensorSpec, rank, validate}

-- `kTileSlots`
abbrev pub tile_slots : ℕ
tile_slots = tile * tile

unfoldable pub standard_plane_slot : TensorSpec → ℕ → ℕ → ℕ → Result ℕ
standard_plane_slot spec plane row column = do
  let leading_rank = sub_word (rank spec.shape) 2
  high ← checked_add (get_or spec.shape.dimensions leading_rank 0) (tile - 1)
  let tile_rows = high / tile
  wide ← checked_add (get_or spec.shape.dimensions (add_word leading_rank 1) 0) (tile - 1)
  let tile_columns = wide / tile
  tiles_per_plane ← checked_mul tile_rows tile_columns
  plane_tiles ← checked_mul plane tiles_per_plane
  row_tiles ← checked_mul (row / tile) tile_columns
  tile_in_plane ← checked_add row_tiles (column / tile)
  tile_index ← checked_add plane_tiles tile_in_plane
  tile_slot ← checked_mul tile_index tile_slots
  row_slots ← checked_mul (row % tile) tile
  slot_in_tile ← checked_add row_slots (column % tile)
  checked_add tile_slot slot_in_tile

-- The bounds check of every coordinate.
unfoldable pub check_coordinates : List ℕ → List ℕ → Result (Unit {0})
check_coordinates [] dims = ok tt
check_coordinates (c ∷ coordinates) [] = throws out_of_range
check_coordinates (c ∷ coordinates) (d ∷ dims) = do
  require (ltb c d) out_of_range
  check_coordinates coordinates dims

-- The loop that numbers the plane, over the leading dimensions and coordinates.
unfoldable pub plane_index : ℕ → List ℕ → List ℕ → Result ℕ
plane_index plane [] coordinates = ok plane
plane_index plane (d ∷ dims) [] = throws out_of_range
plane_index plane (d ∷ dims) (c ∷ coordinates) = do
  scaled ← checked_mul plane d
  next ← checked_add scaled c
  plane_index next dims coordinates

unfoldable pub standard_layout_slot : TensorSpec → List ℕ → Result ℕ
standard_layout_slot spec coordinates = do
  validate spec
  require (length coordinates == rank spec.shape) invalid_argument
  check_coordinates coordinates spec.shape.dimensions
  let leading_rank = sub_word (rank spec.shape) 2
  plane ← plane_index 0 (take leading_rank spec.shape.dimensions) (take leading_rank coordinates)
  standard_plane_slot spec plane (get_or coordinates leading_rank 0)
      (get_or coordinates (add_word leading_rank 1) 0)
