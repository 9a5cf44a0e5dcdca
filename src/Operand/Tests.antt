-- ===== src/Operand/Tests.antt =====
-- A view of a tensor of six planes.
use iom.Base.{
  ◌==◌, if◌then◌else◌, ok, ℕ, ◌+◌, ◌*◌, ◌≤◌, ◌≡◌, refl, none, some, List, [], ◌∷◌, arith,
}
use iom.Tensor.Shape.{TensorSpec, f32, none_format, leaf_bits}
use iom.Tensor.Shape.Counts.{IsShape}
use iom.Tensor.View.{TensorView}
use iom.Tensor.View.Address.{plane_at}
use iom.Tensor.Layout.{standard_plane_slot}
use iom.Operand.{Tensor, Tensors, CheckedViewFacts, validate_checked_view, validate_checked_spec}
use iom.Operand.Sound.{Words, validate_checked_view_fits}

abbrev pub spec : List ℕ → TensorSpec
spec dims = record {
  shape = record { dimensions = dims };
  data_type = f32;
  quantization = none_format;
}

abbrev pub whole : TensorView
whole = record {
  owner = 7;
  spec = spec (2 ∷ 3 ∷ 20 ∷ 20 ∷ []);
  plane_offset = 0;
  plane_strides = 3 ∷ 1 ∷ [];
}

abbrev pub part : TensorView
part = record {
  owner = 7;
  spec = spec (2 ∷ 2 ∷ 20 ∷ 20 ∷ []);
  plane_offset = 1;
  plane_strides = 3 ∷ 1 ∷ [];
}

abbrev pub tensor : Tensor
tensor = record { device = 3; storage_handle = 4096; full_view = whole }

abbrev pub tensors : Tensors
tensors identity = if identity == 7 then some tensor else none

abbrev facts : CheckedViewFacts
facts = record {
  max_plane = 5;
  addressed_bytes = 23760;
  storage_bytes = 24576;
  logical_bytes = 6400;
}

facts_run : validate_checked_view tensors 3 part ≡ ok facts
unfolding validate_checked_view iom.Tensor.Codes.same_type iom.Tensor.Codes.same_format
    iom.Tensor.Codes.data_type_code iom.Tensor.Codes.format_code iom.Operand.checked_plane_count
    iom.Operand.checked_tiled_element_count iom.Operand.checked_tiled_storage_bytes
    iom.Operand.max_plane_from iom.Operand.check_owner iom.Operand.check_planes
    iom.Operand.addressed_bytes_of iom.Operand.checked_facts iom.Tensor.Checked.checked_add
    iom.Tensor.Checked.checked_mul iom.Tensor.Checked.bits_to_bytes iom.Tensor.Checked.padded_extent
    iom.Tensor.Shape.count_elements iom.Tensor.Shape.element_count iom.Tensor.Shape.leaf_bits
    iom.Tensor.Layout.standard_plane_slot iom.Tensor.View.leading_dimensions_of
facts_run = refl

spec_run : validate_checked_spec part.spec ≡ ok tt
unfolding validate_checked_spec iom.Tensor.Shape.all_nonzero
spec_run = refl

whole-IsShape : IsShape whole.spec.shape
whole-IsShape = record {
  at_least = omega arith;
  at_most = omega arith;
  nonzero = (omega arith, (omega arith, (omega arith, (omega arith, tt))));
}

part-Words : Words part.spec
part-Words = (omega arith, (omega arith, (omega arith, (omega arith, tt))))

validate_checked_view_fits_example :
    (tensor.device ≡ 3)
    × (s : ℕ) × (standard_plane_slot part.spec (plane_at part (1 ∷ 1 ∷ [])) 19 19 ≡ ok s)
    × ((s + 1) * leaf_bits f32 ≤ facts.storage_bytes * 8)
validate_checked_view_fits_example =
    validate_checked_view_fits tensors 3 part tensor facts (1 ∷ 1 ∷ []) 19 19 refl whole-IsShape
      part-Words (omega arith) spec_run facts_run (omega arith, (omega arith, tt)) (omega arith)
      (omega arith)
