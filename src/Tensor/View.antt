-- ===== src/Tensor/View.antt =====
-- src/tensor_view.cpp: the transforms of TensorView. A view keeps the identity of its owner, a
-- plane offset, and a stride in planes for each leading dimension.
pub mod Address
pub mod Slice
pub mod Select
pub mod Scatter
pub mod Permute
pub mod Reshape
use iom.Base.{
  ltb, leb, ◌==◌, ◌!=◌, if◌then◌else◌, ltb→lt, lt→ltb, ltb→le, le→ltb, ==→eq, eq→==, Bool-cases,
  Option-cases, length, get_elem?, get_or, set, take, drop, replicate, length-append, length-set,
  length-replicate, get_or-set_self, get_or-set_ne, sum, product, All, word_mod, max_word, add_word,
  sub_word, mul_word, Exception, invalid_argument, overflow_error, out_of_range, bad_alloc,
  runtime_error, logic_error, Result, ok, throws, ◌>>=◌, ◌>>◌, require, >>=-eq-ok, require-eq-ok,
  ok-injective, ℕ, zero, suc, ◌+◌, ◌-◌, ◌*◌, ◌/◌, ◌%◌, ◌^◌, ◌≤◌, ◌<◌, bit_and, ◌≡◌, refl, sym, ap,
  subst, ◌∙◌, ◌≢◌, ◌↔◌, ◌⊎◌, inl, inr, Bool, true, false, not, ◌&&◌, ◌||◌, Option, none, some, List,
  [], ◌∷◌, ◌++◌, map, arith, dec_lt, ℕ_discrete,
}
use iom.Tensor.Checked.{checked_add, checked_mul}
use iom.Tensor.Shape.{
  count_elements, TensorShape, TensorSpec, rank, dimension, new_shape, validate, max_tensor_rank,
}

pub record TensorView : Type 0 where
  pub owner : ℕ
  pub spec : TensorSpec
  pub plane_offset : ℕ
  pub plane_strides : List ℕ

abbrev pub leading_rank : TensorSpec → ℕ
leading_rank spec = sub_word (rank spec.shape) 2

unfoldable pub with_leading_dimensions : TensorSpec → List ℕ → Result TensorSpec
with_leading_dimensions spec leading = do
  shape ← new_shape (leading ++ drop (leading_rank spec) spec.shape.dimensions)
  ok (record { shape = shape; data_type = spec.data_type; quantization = spec.quantization })

unfoldable pub leading_dimensions_of : TensorSpec → List ℕ
leading_dimensions_of spec = take (leading_rank spec) spec.shape.dimensions

-- The loop of `dense_plane_strides`, with its counter `i`.
unfoldable pub dense_strides_from : List ℕ → ℕ → List ℕ → Result (List ℕ)
dense_strides_from dims zero strides = ok strides
dense_strides_from dims (suc zero) strides = ok strides
dense_strides_from dims (suc (suc i)) strides =
    checked_mul (get_or strides (suc i) 0) (get_or dims (suc i) 0) >>= λ stride.
    dense_strides_from dims (suc i) (set strides i stride)

unfoldable pub dense_plane_strides : TensorSpec → Result (List ℕ)
dense_plane_strides spec =
    dense_strides_from spec.shape.dimensions (leading_rank spec) (replicate (leading_rank spec) 1)

-- The full view of a new tensor.
unfoldable pub full_view : ℕ → TensorSpec → Result TensorView
full_view owner spec = do
  validate spec
  strides ← dense_plane_strides spec
  ok (record { owner = owner; spec = spec; plane_offset = 0; plane_strides = strides })

unfoldable pub slice : TensorView → ℕ → ℕ → ℕ → ℕ → Result TensorView
slice v dim first count step = do
  require (ltb dim (leading_rank v.spec)) out_of_range
  require (count != 0) invalid_argument
  require (step != 0) invalid_argument
  let stride = get_or v.plane_strides dim 0
  reach ← checked_mul (sub_word count 1) step
  last ← checked_add first reach
  extent ← dimension v.spec.shape dim
  require (ltb last extent) out_of_range
  scaled ← checked_mul stride step
  shift ← checked_mul first stride
  offset ← checked_add v.plane_offset shift
  spec ← with_leading_dimensions v.spec (set (leading_dimensions_of v.spec) dim count)
  ok (record v {
    spec = spec;
    plane_offset = offset;
    plane_strides = set v.plane_strides dim scaled;
  })

-- `erase(begin() + i)`
abbrev pub erase_at {ℓ} : {A : Type ℓ} → ℕ → List A → List A
erase_at i [] = []
erase_at zero (x ∷ xs) = xs
erase_at (suc i) (x ∷ xs) = x ∷ erase_at i xs

unfoldable pub select : TensorView → ℕ → ℕ → Result TensorView
select v dim index = do
  require (ltb dim (leading_rank v.spec)) out_of_range
  extent ← dimension v.spec.shape dim
  require (ltb index extent) out_of_range
  let stride = get_or v.plane_strides dim 0
  shift ← checked_mul index stride
  offset ← checked_add v.plane_offset shift
  spec ← with_leading_dimensions v.spec (erase_at dim (leading_dimensions_of v.spec))
  ok (record v { spec = spec; plane_offset = offset; plane_strides = erase_at dim v.plane_strides })

-- The loop of `permute` over the order, with the axes that it has seen.
unfoldable pub check_order : ℕ → List ℕ → List Bool → Result (Unit {0})
check_order n [] seen = ok tt
check_order n (axis ∷ order) seen = do
  require (ltb axis n) invalid_argument
  require (not (get_or seen axis false)) invalid_argument
  check_order n order (set seen axis true)

unfoldable pub pick_dimensions : TensorShape → List ℕ → Result (List ℕ)
pick_dimensions s [] = ok []
pick_dimensions s (axis ∷ order) = do
  d ← dimension s axis
  dims ← pick_dimensions s order
  ok (d ∷ dims)

abbrev pub pick : List ℕ → List ℕ → List ℕ
pick strides [] = []
pick strides (axis ∷ order) = get_or strides axis 0 ∷ pick strides order

unfoldable pub permute : TensorView → List ℕ → Result TensorView
permute v leading_order = do
  let n = leading_rank v.spec
  require (length leading_order == n) invalid_argument
  check_order n leading_order (replicate n false)
  dims ← pick_dimensions v.spec.shape leading_order
  spec ← with_leading_dimensions v.spec dims
  ok (record v { spec = spec; plane_strides = pick v.plane_strides leading_order })

-- The count of the new planes.
unfoldable pub count_planes : ℕ → List ℕ → Result ℕ
count_planes planes [] = ok planes
count_planes planes (d ∷ dims) = do
  require (d != 0) invalid_argument
  planes' ← checked_mul planes d
  count_planes planes' dims

-- The two loops from the last dimension to the first. This one checks the strides of a contiguous
-- view, and yields `expected`.
unfoldable pub check_contiguous : List ℕ → List ℕ → Result ℕ
check_contiguous [] strides = ok 1
check_contiguous (d ∷ dims) [] = throws out_of_range
check_contiguous (d ∷ dims) (s ∷ strides) = do
  expected ← check_contiguous dims strides
  elim (ltb 1 d) [
    | true ↦ require (s == expected) invalid_argument >> checked_mul expected d
    | false ↦ ok expected
  ]

-- This one yields the new strides and `stride`.
unfoldable pub reshaped_strides : List ℕ → Result (List ℕ × ℕ)
reshaped_strides [] = ok ([], 1)
reshaped_strides (d ∷ dims) = do
  done ← reshaped_strides dims
  stride ← checked_mul done.1 d
  ok (done.1 ∷ done.0, stride)

unfoldable pub reshape_leading : TensorView → List ℕ → Result TensorView
reshape_leading v leading = do
  require (leb (add_word (length leading) 2) max_tensor_rank) invalid_argument
  planes ← count_elements 1 (leading_dimensions_of v.spec)
  new_planes ← count_planes 1 leading
  require (new_planes == planes) invalid_argument
  expected ← check_contiguous (leading_dimensions_of v.spec) v.plane_strides
  strides ← reshaped_strides leading
  spec ← with_leading_dimensions v.spec leading
  ok (record v { spec = spec; plane_strides = strides.0 })
