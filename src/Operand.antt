-- ===== src/Operand.antt =====
-- src/device_ops.cpp: the checks of an operand before an operation is admitted. A tensor is found
-- under its identity in `tensors`; 0 is no tensor.
pub mod Reach
pub mod Sound
pub mod Tests
use iom.Base.{
  ltb, leb, ◌==◌, ◌!=◌, if◌then◌else◌, ltb→lt, lt→ltb, ltb→le, le→ltb, ==→eq, eq→==, Bool-cases,
  Option-cases, length, get_elem?, get_or, set, take, drop, replicate, length-append, length-set,
  length-replicate, get_or-set_self, get_or-set_ne, sum, product, All, word_mod, max_word, add_word,
  sub_word, mul_word, Exception, invalid_argument, overflow_error, out_of_range, bad_alloc,
  runtime_error, logic_error, Result, ok, throws, ◌>>=◌, ◌>>◌, require, >>=-eq-ok, require-eq-ok,
  ok-injective, ℕ, zero, suc, ◌+◌, ◌-◌, ◌*◌, ◌/◌, ◌%◌, ◌^◌, ◌≤◌, ◌<◌, bit_and, ◌≡◌, refl, sym, ap,
  subst, ◌∙◌, ◌≢◌, ◌↔◌, ◌⊎◌, inl, inr, Bool, true, false, not, ◌&&◌, ◌||◌, Option, none, some, List,
  [], ◌∷◌, ◌++◌, map, arith, dec_lt, ℕ_discrete,
}
use iom.Tensor.Checked.{checked_add, checked_mul, bits_to_bytes, padded_extent}
use iom.Tensor.Shape.{
  DataType, QuantizationFormat, TensorShape, TensorSpec, rank, max_tensor_rank, count_elements,
  element_count, leaf_bits, all_nonzero,
}
use iom.Tensor.Layout.{standard_plane_slot}
use iom.Tensor.View.{TensorView, leading_rank, leading_dimensions_of}
use iom.Tensor.Codes.{same_type, same_format}

-- A tensor: its device, its storage handle and its full view.
pub record Tensor : Type 0 where
  pub device : ℕ
  pub storage_handle : ℕ
  pub full_view : TensorView

-- The tensors under their identities.
abbrev pub Tensors : Type 0
Tensors = ℕ → Option Tensor

-- `TensorView::device` and `TensorView::native_handle`; of no owner, 0.
abbrev pub device_of : Tensors → TensorView → ℕ
device_of tensors v = elim (tensors v.owner) [ none ↦ 0 | some t ↦ t.device ]

abbrev pub native_handle : Tensors → TensorView → ℕ
native_handle tensors v = elim (tensors v.owner) [ none ↦ 0 | some t ↦ t.storage_handle ]

unfoldable pub checked_plane_count : TensorShape → Result ℕ
checked_plane_count s = count_elements 1 (take (sub_word (rank s) 2) s.dimensions)

unfoldable pub checked_tiled_element_count : TensorShape → Result ℕ
checked_tiled_element_count s = do
  let last = sub_word (rank s) 1
  rows ← padded_extent (get_or s.dimensions (sub_word last 1) 0)
  columns ← padded_extent (get_or s.dimensions last 0)
  elements ← count_elements 1 (take (sub_word (rank s) 2) s.dimensions)
  high ← checked_mul elements rows
  checked_mul high columns

unfoldable pub checked_tiled_storage_bytes : TensorSpec → Result ℕ
checked_tiled_storage_bytes spec = do
  elements ← checked_tiled_element_count spec.shape
  bits ← checked_mul elements (leaf_bits spec.data_type)
  bits_to_bytes bits

unfoldable pub validate_checked_spec : TensorSpec → Result (Unit {0})
validate_checked_spec spec = do
  require (leb 2 (rank spec.shape)) invalid_argument
  require (leb (rank spec.shape) max_tensor_rank) invalid_argument
  all_nonzero spec.shape.dimensions

pub record CheckedViewFacts : Type 0 where
  pub max_plane : ℕ
  pub addressed_bytes : ℕ
  pub storage_bytes : ℕ
  pub logical_bytes : ℕ

-- The loop over the leading dimensions and the strides, of which there are as many.
unfoldable pub max_plane_from : ℕ → List ℕ → List ℕ → Result ℕ
max_plane_from max_plane [] strides = ok max_plane
max_plane_from max_plane (d ∷ dims) [] = ok max_plane
max_plane_from max_plane (d ∷ dims) (s ∷ strides) = do
  require (s != 0) invalid_argument
  reach ← checked_mul (sub_word d 1) s
  further ← checked_add max_plane reach
  max_plane_from further dims strides

-- The checks of the identities of the owner.
unfoldable pub check_owner : Tensors → ℕ → TensorView → Tensor → Result (Unit {0})
check_owner tensors device v t = do
  require
      (t.device == device
        && device_of tensors t.full_view == device
        && t.full_view.owner == v.owner)
      invalid_argument
  require (t.storage_handle != 0 && t.storage_handle == native_handle tensors t.full_view)
      invalid_argument

-- The last two extents agree with those of the owner.
abbrev pub same_matrix : TensorShape → TensorShape → Bool
same_matrix s t =
    get_or s.dimensions (sub_word (rank s) 2) 0 == get_or t.dimensions (sub_word (rank t) 2) 0
    && get_or s.dimensions (sub_word (rank s) 1) 0 == get_or t.dimensions (sub_word (rank t) 1) 0

-- The greatest plane that the view selects, which its owner has.
unfoldable pub check_planes : TensorView → TensorSpec → Result ℕ
check_planes v owner_spec = do
  require (leb 2 (rank v.spec.shape)) invalid_argument
  require
      (same_type v.spec.data_type owner_spec.data_type
        && same_format v.spec.quantization owner_spec.quantization
        && same_matrix v.spec.shape owner_spec.shape)
      invalid_argument
  require (length v.plane_strides == leading_rank v.spec) invalid_argument
  max_plane ← max_plane_from v.plane_offset (leading_dimensions_of v.spec) v.plane_strides
  planes ← checked_plane_count owner_spec.shape
  require (ltb max_plane planes) invalid_argument
  ok max_plane

-- The bytes through the last slot of that plane.
unfoldable pub addressed_bytes_of : TensorSpec → ℕ → Result ℕ
addressed_bytes_of spec max_plane = do
  last_slot ←
      standard_plane_slot spec max_plane
        (sub_word (get_or spec.shape.dimensions (leading_rank spec) 0) 1)
        (sub_word (get_or spec.shape.dimensions (add_word (leading_rank spec) 1) 0) 1)
  slots ← checked_add last_slot 1
  addressed_bits ← checked_mul slots (leaf_bits spec.data_type)
  bits_to_bytes addressed_bits

unfoldable pub checked_facts : Tensors → ℕ → TensorView → Tensor → Result CheckedViewFacts
checked_facts tensors device v t = do
  check_owner tensors device v t
  max_plane ← check_planes v t.full_view.spec
  addressed_bytes ← addressed_bytes_of v.spec max_plane
  storage_bytes ← checked_tiled_storage_bytes t.full_view.spec
  require (leb addressed_bytes storage_bytes) invalid_argument
  count ← element_count v.spec.shape
  logical_bits ← checked_mul count (leaf_bits v.spec.data_type)
  logical_bytes ← bits_to_bytes logical_bits
  ok (record {
    max_plane = max_plane;
    addressed_bytes = addressed_bytes;
    storage_bytes = storage_bytes;
    logical_bytes = logical_bytes;
  })

unfoldable pub validate_checked_view : Tensors → ℕ → TensorView → Result CheckedViewFacts
validate_checked_view tensors device v = elim (tensors v.owner) [
  | none ↦ throws invalid_argument
  | some t ↦ checked_facts tensors device v t
]
