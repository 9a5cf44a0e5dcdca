-- ===== src/Binary/Tests.antt =====
-- The addition of a row for each of three planes to a tensor of two times three planes.
use iom.Base.{◌==◌, if◌then◌else◌, ok, ℕ, ◌≡◌, refl, none, some, List, [], ◌∷◌, arith}
use iom.Tensor.Shape.{TensorSpec, f32, none_format}
use iom.Tensor.View.{TensorView}
use iom.Operand.{Tensor, Tensors}
use iom.Binary.{
  BinaryRequest, add, snapshot_binary_view, validate_binary, logical_strides, stretches_axis,
  broadcast_axes, same_dimensions, exact_alias, add_numeric_leaf, div_numeric_leaf,
}
use iom.Binary.Reads.{Registered, Reads}
use iom.Binary.Accept.{validate_binary-Reads}

abbrev spec : List ℕ → TensorSpec
spec dims = record {
  shape = record { dimensions = dims };
  data_type = f32;
  quantization = none_format;
}

abbrev view : ℕ → List ℕ → List ℕ → TensorView
view owner dims strides = record {
  owner = owner;
  spec = spec dims;
  plane_offset = 0;
  plane_strides = strides;
}

abbrev input : TensorView
input = view 7 (2 ∷ 3 ∷ 20 ∷ 20 ∷ []) (3 ∷ 1 ∷ [])

abbrev bias : TensorView
bias = view 8 (3 ∷ 1 ∷ 20 ∷ []) (1 ∷ [])

abbrev output : TensorView
output = view 9 (2 ∷ 3 ∷ 20 ∷ 20 ∷ []) (3 ∷ 1 ∷ [])

abbrev tensor : ℕ → TensorView → Tensor
tensor handle v = record { device = 3; storage_handle = handle; full_view = v }

abbrev tensors : Tensors
tensors identity =
    if identity == 7
    then some (tensor 65536 input)
    else if identity == 8
    then some (tensor 131072 bias)
    else if identity == 9
    then some (tensor 262144 output)
    else none

abbrev result : List ℕ
result = 2 ∷ 3 ∷ 20 ∷ 20 ∷ []

abbrev request : BinaryRequest
request = record {
  operation = add;
  lhs = snapshot_binary_view tensors input result;
  rhs = snapshot_binary_view tensors bias result;
  out = snapshot_binary_view tensors output result;
  result_shape = record { dimensions = result };
  workspace = record { owner = 0; offset = 0; bytes = 0 };
  workspace_requirements = record { bytes = 0; alignment = 1 };
}

bias_strides : (snapshot_binary_view tensors bias result).logical_plane_strides ≡ 0 ∷ 1 ∷ []
unfolding snapshot_binary_view logical_strides
bias_strides = refl

request_run : validate_binary tensors 3 add input bias output ≡ ok request
unfolding validate_binary snapshot_binary_view logical_strides stretches_axis broadcast_axes
    same_dimensions exact_alias add_numeric_leaf div_numeric_leaf iom.Operand.validate_checked_spec
    iom.Operand.validate_checked_view iom.Tensor.Codes.same_type iom.Tensor.Codes.same_format
    iom.Tensor.Codes.data_type_code iom.Tensor.Codes.format_code iom.Operand.checked_plane_count
    iom.Operand.checked_tiled_element_count iom.Operand.checked_tiled_storage_bytes
    iom.Operand.max_plane_from iom.Operand.check_owner iom.Operand.check_planes
    iom.Operand.addressed_bytes_of iom.Operand.checked_facts iom.Tensor.Checked.checked_add
    iom.Tensor.Checked.checked_mul iom.Tensor.Checked.bits_to_bytes iom.Tensor.Checked.padded_extent
    iom.Tensor.Shape.count_elements iom.Tensor.Shape.element_count iom.Tensor.Shape.leaf_bits
    iom.Tensor.Shape.all_nonzero iom.Tensor.Shape.new_shape iom.Tensor.Layout.standard_plane_slot
    iom.Tensor.View.leading_dimensions_of
request_run = refl

input-Registered : Registered tensors input
input-Registered = record {
  tensor = tensor 65536 input;
  found = refl;
  owner_shape = record {
    at_least = omega arith;
    at_most = omega arith;
    nonzero = (omega arith, (omega arith, (omega arith, (omega arith, tt))));
  };
  words = (omega arith, (omega arith, (omega arith, (omega arith, tt))));
  offset = omega arith;
}

bias-Registered : Registered tensors bias
bias-Registered = record {
  tensor = tensor 131072 bias;
  found = refl;
  owner_shape = record {
    at_least = omega arith;
    at_most = omega arith;
    nonzero = (omega arith, (omega arith, (omega arith, tt)));
  };
  words = (omega arith, (omega arith, (omega arith, tt)));
  offset = omega arith;
}

output-Registered : Registered tensors output
output-Registered = record {
  tensor = tensor 262144 output;
  found = refl;
  owner_shape = record {
    at_least = omega arith;
    at_most = omega arith;
    nonzero = (omega arith, (omega arith, (omega arith, (omega arith, tt))));
  };
  words = (omega arith, (omega arith, (omega arith, (omega arith, tt))));
  offset = omega arith;
}

validate_binary-Reads_example :
    Reads tensors 3 input result request.lhs (1 ∷ 2 ∷ []) 19 5
    × Reads tensors 3 bias result request.rhs (1 ∷ 2 ∷ []) 19 5
    × Reads tensors 3 output result request.out (1 ∷ 2 ∷ []) 19 5
validate_binary-Reads_example =
    validate_binary-Reads tensors 3 add input bias output (1 ∷ 2 ∷ []) 19 5 input-Registered
      bias-Registered output-Registered request_run (omega arith, (omega arith, tt)) (omega arith)
      (omega arith)
