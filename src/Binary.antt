-- ===== src/Binary.antt =====
-- src/device_ops_binary.cpp: the four binary operations, up to the call of the backend. What the
-- backend overrides (its needs of workspace, and the submission) is an argument.
pub mod Broadcast
pub mod Planes
pub mod Axes
pub mod Accept
pub mod Reads
pub mod Tests
use iom.Base.{
  ltb, leb, ◌==◌, ◌!=◌, if◌then◌else◌, ltb→lt, lt→ltb, ltb→le, le→ltb, ==→eq, eq→==, Bool-cases,
  Option-cases, Result-cases, List-cases, length, get_elem?, get_or, set, take, drop, replicate,
  length-append, length-set, length-replicate, get_or-set_self, get_or-set_ne, get_or-append_left,
  get_or-append_last, Among, All-Among, sum, product, All, word_mod, max_word, add_word, sub_word,
  mul_word, Exception, invalid_argument, overflow_error, out_of_range, bad_alloc, runtime_error,
  logic_error, Result, ok, throws, ◌>>=◌, ◌>>◌, require, >>=-eq-ok, require-eq-ok, ok-injective, ℕ,
  zero, suc, ◌+◌, ◌-◌, ◌*◌, ◌/◌, ◌%◌, ◌^◌, ◌≤◌, ◌<◌, bit_and, ◌≡◌, refl, sym, ap, subst, ◌∙◌, ◌≢◌,
  ◌↔◌, ◌⊎◌, inl, inr, Bool, true, false, not, ◌&&◌, ◌||◌, Option, none, some, List, [], ◌∷◌, ◌++◌,
  map, arith, dec_lt, ℕ_discrete,
}
use iom.Base.{unsupported_operation}
use iom.Tensor.Shape.{
  DataType, bool, i2, u2, i4, u4, i8, u8, i16, u16, i32, u32, i64, u64, f4_e2m1, f6_e2m3, f6_e3m2,
  f8_e4m3fn, f8_e5m2, f8_e8m0, f16, bf16, f32, f64, TensorShape, TensorSpec, rank, new_shape,
  is_none_format,
}
use iom.Tensor.View.{TensorView}
use iom.Tensor.Codes.{same_type, same_format}
use iom.Operand.{Tensors, device_of, native_handle, validate_checked_spec, validate_checked_view}
use iom.Workspace.{RawWorkspaceView, Workspaces, Device, validated}

pub data BinaryOperation : Type 0 where
  add mul sub div : BinaryOperation

pub record BinaryViewSnapshot : Type 0 where
  pub spec : TensorSpec
  pub device_identity : ℕ
  pub owner_identity : ℕ
  pub native_handle : ℕ
  pub plane_offset : ℕ
  pub plane_strides : List ℕ
  pub logical_plane_strides : List ℕ
  pub broadcast_rows : Bool
  pub broadcast_columns : Bool
  pub broadcasts : Bool

pub record WorkspaceRequirements : Type 0 where
  pub bytes : ℕ
  pub alignment : ℕ

-- The lease of the workspace is left out.
pub record BinaryRequest : Type 0 where
  pub operation : BinaryOperation
  pub lhs : BinaryViewSnapshot
  pub rhs : BinaryViewSnapshot
  pub out : BinaryViewSnapshot
  pub result_shape : TensorShape
  pub workspace : RawWorkspaceView
  pub workspace_requirements : WorkspaceRequirements

unfoldable pub add_numeric_leaf : DataType → Bool
add_numeric_leaf bool = false
add_numeric_leaf f8_e8m0 = false
add_numeric_leaf _ = true

unfoldable pub div_numeric_leaf : DataType → Bool
div_numeric_leaf f4_e2m1 = true
div_numeric_leaf f6_e2m3 = true
div_numeric_leaf f6_e3m2 = true
div_numeric_leaf f8_e4m3fn = true
div_numeric_leaf f8_e5m2 = true
div_numeric_leaf f16 = true
div_numeric_leaf bf16 = true
div_numeric_leaf f32 = true
div_numeric_leaf f64 = true
div_numeric_leaf _ = false

-- The loop over the leading axes of the result, the first `offset` of which the view does not have.
-- The view has a stride for each of its leading dimensions.
unfoldable pub logical_strides : ℕ → List ℕ → List ℕ → List ℕ → List ℕ
logical_strides offset [] dimensions strides = []
logical_strides (suc offset) (d ∷ result) dimensions strides =
    0 ∷ logical_strides offset result dimensions strides
logical_strides zero (d ∷ result) (s ∷ dimensions) (p ∷ strides) =
    (if s == 1 && d != 1 then 0 else p) ∷ logical_strides zero result dimensions strides
logical_strides zero (d ∷ result) dimensions strides = []

-- Whether one of these axes is stretched.
unfoldable pub stretches_axis : ℕ → List ℕ → List ℕ → Bool
stretches_axis offset [] dimensions = false
stretches_axis (suc offset) (d ∷ result) dimensions =
    d != 1 || stretches_axis offset result dimensions
stretches_axis zero (d ∷ result) (s ∷ dimensions) =
    s == 1 && d != 1 || stretches_axis zero result dimensions
stretches_axis zero (d ∷ result) [] = false

-- The extent `back` places before the end.
abbrev pub from_end : List ℕ → ℕ → ℕ
from_end dimensions back = get_or dimensions (sub_word (length dimensions) back) 0

unfoldable pub snapshot_binary_view : Tensors → TensorView → List ℕ → BinaryViewSnapshot
snapshot_binary_view tensors v result =
    let dimensions = v.spec.shape.dimensions in
    let rank_offset = sub_word (length result) (length dimensions) in
    let result_leading = take (sub_word (length result) 2) result in
    let rows = from_end dimensions 2 == 1 && from_end result 2 != 1 in
    let columns = from_end dimensions 1 == 1 && from_end result 1 != 1 in
    record {
      spec = v.spec;
      device_identity = device_of tensors v;
      owner_identity = v.owner;
      native_handle = native_handle tensors v;
      plane_offset = v.plane_offset;
      plane_strides = v.plane_strides;
      logical_plane_strides = logical_strides rank_offset result_leading dimensions v.plane_strides;
      broadcast_rows = rows;
      broadcast_columns = columns;
      broadcasts =
          length dimensions != length result
          || stretches_axis rank_offset result_leading dimensions
          || rows
          || columns;
    }

-- The extents of a view along the axes of the result, 1 where it has none.
abbrev pub axes : ℕ → List ℕ → List ℕ
axes rank dimensions = replicate (rank - length dimensions) 1 ++ dimensions

abbrev pub greater_of : ℕ → ℕ → ℕ
greater_of a b = if ltb a b then b else a

-- The loop over the axes of the result.
unfoldable pub broadcast_axes : List ℕ → List ℕ → Result (List ℕ)
broadcast_axes [] rhs = ok []
broadcast_axes (l ∷ lhs) [] = ok []
broadcast_axes (l ∷ lhs) (r ∷ rhs) = do
  require (not (l != r && l != 1 && r != 1)) invalid_argument
  rest ← broadcast_axes lhs rhs
  ok (greater_of l r ∷ rest)

unfoldable pub same_dimensions : List ℕ → List ℕ → Bool
same_dimensions [] [] = true
same_dimensions [] (y ∷ ys) = false
same_dimensions (x ∷ xs) [] = false
same_dimensions (x ∷ xs) (y ∷ ys) = x == y && same_dimensions xs ys

abbrev pub same_kind : TensorSpec → TensorSpec → Bool
same_kind a b = same_type a.data_type b.data_type && same_format a.quantization b.quantization

abbrev pub same_spec : TensorSpec → TensorSpec → Bool
same_spec a b = same_dimensions a.shape.dimensions b.shape.dimensions && same_kind a b

abbrev pub same_bool : Bool → Bool → Bool
same_bool true b = b
same_bool false b = not b

unfoldable pub exact_alias : BinaryViewSnapshot → BinaryViewSnapshot → Bool
exact_alias input output =
    not input.broadcasts
    && input.owner_identity == output.owner_identity
    && same_spec input.spec output.spec
    && input.plane_offset == output.plane_offset
    && same_dimensions input.plane_strides output.plane_strides
    && same_dimensions input.logical_plane_strides output.logical_plane_strides
    && same_bool input.broadcast_rows output.broadcast_rows
    && same_bool input.broadcast_columns output.broadcast_columns

abbrev pub is_div : BinaryOperation → Bool
is_div div = true
is_div _ = false

abbrev pub supported : BinaryOperation → TensorSpec → Bool
supported operation spec =
    is_none_format spec.quantization
    && add_numeric_leaf spec.data_type
    && (not (is_div operation) || div_numeric_leaf spec.data_type)

-- The rules of aliasing, on snapshots.
abbrev pub alias_allowed : BinaryViewSnapshot → BinaryViewSnapshot → Bool
alias_allowed input output =
    input.owner_identity != output.owner_identity || exact_alias input output

abbrev no_workspace : RawWorkspaceView
no_workspace = record { owner = 0; offset = 0; bytes = 0 }

unfoldable pub validate_binary :
    Tensors → ℕ → BinaryOperation → TensorView → TensorView → TensorView → Result BinaryRequest
validate_binary tensors device operation lhs rhs out = do
  validate_checked_spec lhs.spec
  validate_checked_spec rhs.spec
  validate_checked_spec out.spec
  require (same_kind lhs.spec rhs.spec && same_kind lhs.spec out.spec) invalid_argument
  lhs_facts ← validate_checked_view tensors device lhs
  rhs_facts ← validate_checked_view tensors device rhs
  out_facts ← validate_checked_view tensors device out
  let result_rank = greater_of (rank lhs.spec.shape) (rank rhs.spec.shape)
  result ←
      broadcast_axes (axes result_rank lhs.spec.shape.dimensions)
        (axes result_rank rhs.spec.shape.dimensions)
  require (same_dimensions out.spec.shape.dimensions result) invalid_argument
  result_shape ← new_shape result
  let lhs_snapshot = snapshot_binary_view tensors lhs result
  let rhs_snapshot = snapshot_binary_view tensors rhs result
  let out_snapshot = snapshot_binary_view tensors out result
  require (alias_allowed lhs_snapshot out_snapshot && alias_allowed rhs_snapshot out_snapshot)
      invalid_argument
  require (supported operation lhs.spec) unsupported_operation
  ok (record {
    operation = operation;
    lhs = lhs_snapshot;
    rhs = rhs_snapshot;
    out = out_snapshot;
    result_shape = result_shape;
    workspace = no_workspace;
    workspace_requirements = record { bytes = 0; alignment = 1 };
  })

pub data OidError : Type 0 where
  unsupported overflow invalid resource_exhausted device_error internal_error : OidError

-- The class of an exception decides the error; no exception at all is not met.
unfoldable pub map_failure : Exception → OidError
map_failure unsupported_operation = unsupported
map_failure bad_alloc = resource_exhausted
map_failure overflow_error = overflow
map_failure invalid_argument = invalid
map_failure out_of_range = device_error
map_failure runtime_error = device_error
map_failure logic_error = device_error

-- A token, or an error. The hook and the submission are those of the backend.
unfoldable pub submit_binary_operation :
    Tensors
    → Workspaces
    → Device
    → (BinaryRequest → Result WorkspaceRequirements)
    → (BinaryRequest → Result ℕ)
    → BinaryOperation
    → TensorView
    → TensorView
    → TensorView
    → RawWorkspaceView
    → OidError ⊎ ℕ
submit_binary_operation tensors workspaces device requirements_of binary_impl operation lhs rhs out
      workspace =
    elim (validate_binary tensors device.identity operation lhs rhs out >>= λ request.
    requirements_of request >>= λ requirements.
    validated tensors workspaces device workspace requirements.bytes requirements.alignment
      (lhs ∷ rhs ∷ out ∷ [])
    >>= λ view.
        binary_impl (record request { workspace = view; workspace_requirements = requirements })) [
          | ok token ↦ inr token
          | throws e ↦ inl (map_failure e)
        ]
