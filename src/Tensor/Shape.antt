-- ===== src/Tensor/Shape.antt =====
-- src/tensor.cpp and include/iom/tensor.hpp: TensorShape and TensorSpec. An enumeration holds only
-- the values that its C++ type declares, so the checks for other values have no case here.
pub mod Counts
use iom.Base.{
  ltb, leb, ◌==◌, ◌!=◌, if◌then◌else◌, ltb→lt, lt→ltb, ltb→le, le→ltb, ==→eq, eq→==, Bool-cases,
  Option-cases, length, get_elem?, get_or, set, take, drop, replicate, length-append, length-set,
  length-replicate, get_or-set_self, get_or-set_ne, sum, product, All, word_mod, max_word, add_word,
  sub_word, mul_word, Exception, invalid_argument, overflow_error, out_of_range, bad_alloc,
  runtime_error, logic_error, Result, ok, throws, ◌>>=◌, ◌>>◌, require, >>=-eq-ok, ℕ, zero, suc,
  ◌+◌, ◌-◌, ◌*◌, ◌/◌, ◌%◌, ◌^◌, ◌≤◌, ◌<◌, bit_and, ◌≡◌, refl, sym, ap, subst, ◌∙◌, ◌≢◌, ◌↔◌, ◌⊎◌,
  inl, inr, Bool, true, false, not, ◌&&◌, ◌||◌, Option, none, some, List, [], ◌∷◌, ◌++◌, map, arith,
  dec_lt, ℕ_discrete,
}
use iom.Tensor.Checked.{checked_add, checked_mul, bits_to_bytes, tile}

pub data DataType : Type 0 where
  bool i2 u2 i4 u4 i8 u8 i16 u16 i32 u32 i64 u64 : DataType
  f4_e2m1 f6_e2m3 f6_e3m2 f8_e4m3fn f8_e5m2 f8_e8m0 : DataType
  f16 bf16 f32 f64 : DataType

pub data QuantizationFormat : Type 0 where
  none_format : QuantizationFormat
  int8_symmetric int8_asymmetric int4_symmetric int4_asymmetric : QuantizationFormat
  ocp_mxfp4 ocp_mxfp8_e4m3 ocp_mxfp8_e5m2 nvidia_nvfp4 : QuantizationFormat
  ggml_q4_0 ggml_q4_1 ggml_q5_0 ggml_q5_1 ggml_q8_0 : QuantizationFormat
  ggml_q2_k ggml_q3_k ggml_q4_k ggml_q5_k ggml_q6_k : QuantizationFormat
  tt_bfp2 tt_bfp2a tt_bfp4 tt_bfp4a tt_bfp8 tt_bfp8a : QuantizationFormat

-- A shape is the list of its dimensions.
pub record TensorShape : Type 0 where
  pub dimensions : List ℕ

pub record TensorSpec : Type 0 where
  pub shape : TensorShape
  pub data_type : DataType
  pub quantization : QuantizationFormat

-- `kMaxTensorRank`
abbrev pub max_tensor_rank : ℕ
max_tensor_rank = 8

abbrev pub rank : TensorShape → ℕ
rank s = length s.dimensions

unfoldable pub all_nonzero : List ℕ → Result (Unit {0})
all_nonzero [] = ok tt
all_nonzero (dimension ∷ dimensions) = do
  require (dimension != 0) invalid_argument
  all_nonzero dimensions

-- The constructor.
unfoldable pub new_shape : List ℕ → Result TensorShape
new_shape dimensions = do
  require (leb 2 (length dimensions)) invalid_argument
  require (leb (length dimensions) max_tensor_rank) invalid_argument
  all_nonzero dimensions
  ok (record { dimensions = dimensions })

-- `dimensions_.at(index)`
unfoldable pub dimension : TensorShape → ℕ → Result ℕ
dimension s index = elim (get_elem? s.dimensions index) [
  | none ↦ throws out_of_range
  | some d ↦ ok d
]

-- The loop of `element_count`.
unfoldable pub count_elements : ℕ → List ℕ → Result ℕ
count_elements count [] = ok count
count_elements count (d ∷ dims) = checked_mul count d >>= λ count'. count_elements count' dims

unfoldable pub element_count : TensorShape → Result ℕ
element_count s = count_elements 1 s.dimensions

unfoldable pub leaf_bits : DataType → ℕ
leaf_bits bool = 8
leaf_bits i2 = 2
leaf_bits u2 = 2
leaf_bits i4 = 4
leaf_bits u4 = 4
leaf_bits f4_e2m1 = 4
leaf_bits f6_e2m3 = 6
leaf_bits f6_e3m2 = 6
leaf_bits i8 = 8
leaf_bits u8 = 8
leaf_bits f8_e4m3fn = 8
leaf_bits f8_e5m2 = 8
leaf_bits f8_e8m0 = 8
leaf_bits i16 = 16
leaf_bits u16 = 16
leaf_bits f16 = 16
leaf_bits bf16 = 16
leaf_bits i32 = 32
leaf_bits u32 = 32
leaf_bits f32 = 32
leaf_bits i64 = 64
leaf_bits u64 = 64
leaf_bits f64 = 64

abbrev pub is_none_format : QuantizationFormat → Bool
is_none_format none_format = true
is_none_format _ = false

unfoldable pub validate : TensorSpec → Result (Unit {0})
validate spec = do
  require (is_none_format spec.quantization) runtime_error
  require (leb 2 (rank spec.shape)) invalid_argument
  require (leb (rank spec.shape) max_tensor_rank) invalid_argument

-- One round of the loop of `standard_padded_shape`.
unfoldable pub pad_dimension : ℕ → List ℕ → Result (List ℕ)
pad_dimension i dims =
    let extent = get_or dims i 0 in
    let remainder = extent % tile in
    if remainder != 0
    then (checked_add extent (tile - remainder) >>= λ wide. ok (set dims i wide))
    else ok dims

unfoldable pub standard_padded_shape : TensorSpec → Result TensorShape
standard_padded_shape spec = do
  let n = rank spec.shape
  once ← pad_dimension (sub_word n 2) spec.shape.dimensions
  twice ← pad_dimension (sub_word n 1) once
  new_shape twice

unfoldable pub logical_nbytes : TensorSpec → Result ℕ
logical_nbytes spec = do
  validate spec
  count ← element_count spec.shape
  bits ← checked_mul count (leaf_bits spec.data_type)
  bits_to_bytes bits

unfoldable pub tiled_storage_nbytes : TensorSpec → Result ℕ
tiled_storage_nbytes spec = do
  validate spec
  wide ← standard_padded_shape spec
  count ← element_count wide
  bits ← checked_mul count (leaf_bits spec.data_type)
  bits_to_bytes bits
