-- ===== src/Tensor/Tests.antt =====
-- The tensor layout and the view transforms run on a tensor of shape 3 x 5 x 20 x 40.
use iom.Base.{set, product, ok, ℕ, ◌+◌, ◌*◌, ◌<◌, ◌≡◌, refl, List, [], ◌∷◌, arith}
use iom.Tensor.Checked.{checked_add, checked_mul}
use iom.Tensor.Shape.{
  count_elements, TensorShape, TensorSpec, bf16, none_format, new_shape, all_nonzero, validate,
  dimension,
}
use iom.Tensor.Shape.Counts.{IsShape}
use iom.Tensor.Layout.{standard_layout_slot, standard_plane_slot, check_coordinates, plane_index}
use iom.Tensor.Layout.Numbers.{Within}
use iom.Tensor.Layout.Planes.{
  IsTiled, padded_elements, standard_layout_slot_lem, standard_layout_slot-injective,
}
use iom.Tensor.View.{
  permute, pick, check_order, pick_dimensions, reshape_leading, count_planes, check_contiguous,
  reshaped_strides, TensorView, with_leading_dimensions, leading_dimensions_of, full_view,
  dense_plane_strides, dense_strides_from, slice, select, erase_at,
}
use iom.Tensor.View.Address.{plane_at, IsView}
use iom.Tensor.View.Scatter.{put_back}
use iom.Tensor.View.Permute.{permute_lem}
use iom.Tensor.View.Reshape.{reshape_leading_lem}
use iom.Tensor.View.Slice.{slice_lem, stretch}
use iom.Tensor.View.Select.{select_lem, insert_at}

abbrev shape : TensorShape
shape = record { dimensions = 3 ∷ 5 ∷ 20 ∷ 40 ∷ [] }

abbrev spec : TensorSpec
spec = record { shape = shape; data_type = bf16; quantization = none_format }

shape-IsShape : IsShape shape
shape-IsShape = record {
  at_least = omega arith;
  at_most = omega arith;
  nonzero = (omega arith, (omega arith, (omega arith, (omega arith, tt))));
}

spec-IsTiled : IsTiled spec
spec-IsTiled = record { shape = shape-IsShape; plain = refl; counted = omega arith }

abbrev coordinates : List ℕ
coordinates = 2 ∷ 4 ∷ 17 ∷ 35 ∷ []

coordinates-Within : Within coordinates shape.dimensions
coordinates-Within = (omega arith, (omega arith, (omega arith, (omega arith, tt))))

-- The last tile of the last plane.
slot_run : standard_layout_slot spec coordinates ≡ ok (14 * 1536 + 5 * 256 + 1 * 16 + 3)
unfolding standard_layout_slot standard_plane_slot check_coordinates plane_index validate
    checked_add checked_mul
slot_run = refl

standard_layout_slot_lem_example :
    (s : ℕ) × (standard_layout_slot spec coordinates ≡ ok s) × (s < padded_elements spec)
standard_layout_slot_lem_example =
    standard_layout_slot_lem spec coordinates spec-IsTiled coordinates-Within

standard_layout_slot-injective_example : coordinates ≡ coordinates
standard_layout_slot-injective_example =
    standard_layout_slot-injective spec coordinates coordinates spec-IsTiled coordinates-Within
      coordinates-Within refl

abbrev view : TensorView
view = record { owner = 7; spec = spec; plane_offset = 0; plane_strides = 5 ∷ 1 ∷ [] }

full_view_run : full_view 7 spec ≡ ok view
unfolding full_view dense_plane_strides dense_strides_from validate checked_mul
full_view_run = refl

view-IsView : IsView view
view-IsView = record { shape = shape-IsShape; strided = refl; word = omega arith }

abbrev sliced : TensorView
sliced = record {
  owner = 7;
  spec = record spec { shape = record { dimensions = 3 ∷ 2 ∷ 20 ∷ 40 ∷ [] } };
  plane_offset = 1;
  plane_strides = 5 ∷ 3 ∷ [];
}

slice_run : slice view 1 1 2 3 ≡ ok sliced
unfolding slice checked_mul checked_add dimension with_leading_dimensions leading_dimensions_of
    new_shape all_nonzero
slice_run = refl

slice_lem_example :
    (sliced.owner ≡ view.owner)
    × IsView sliced
    × (leading_dimensions_of sliced.spec ≡ set (leading_dimensions_of view.spec) 1 2)
    × Within (stretch 1 1 3 (2 ∷ 1 ∷ [])) (leading_dimensions_of view.spec)
    × (plane_at sliced (2 ∷ 1 ∷ []) ≡ plane_at view (stretch 1 1 3 (2 ∷ 1 ∷ [])))
unfolding leading_dimensions_of
slice_lem_example =
    slice_lem view 1 1 2 3 (2 ∷ 1 ∷ []) view-IsView (omega arith) (omega arith) slice_run
      (omega arith, (omega arith, tt))

abbrev selected : TensorView
selected = record {
  owner = 7;
  spec = record spec { shape = record { dimensions = 5 ∷ 20 ∷ 40 ∷ [] } };
  plane_offset = 10;
  plane_strides = 1 ∷ [];
}

select_run : select view 0 2 ≡ ok selected
unfolding select checked_mul checked_add dimension with_leading_dimensions leading_dimensions_of
    new_shape all_nonzero
select_run = refl

select_lem_example :
    (selected.owner ≡ view.owner)
    × IsView selected
    × (leading_dimensions_of selected.spec ≡ erase_at 0 (leading_dimensions_of view.spec))
    × Within (insert_at 0 2 (4 ∷ [])) (leading_dimensions_of view.spec)
    × (plane_at selected (4 ∷ []) ≡ plane_at view (insert_at 0 2 (4 ∷ [])))
unfolding leading_dimensions_of
select_lem_example = select_lem view 0 2 (4 ∷ []) view-IsView select_run (omega arith, tt)

abbrev permuted : TensorView
permuted = record {
  owner = 7;
  spec = record spec { shape = record { dimensions = 5 ∷ 3 ∷ 20 ∷ 40 ∷ [] } };
  plane_offset = 0;
  plane_strides = 1 ∷ 5 ∷ [];
}

permute_run : permute view (1 ∷ 0 ∷ []) ≡ ok permuted
unfolding permute check_order pick_dimensions dimension with_leading_dimensions new_shape
    all_nonzero
permute_run = refl

permute_lem_example :
    (permuted.owner ≡ view.owner)
    × IsView permuted
    × (leading_dimensions_of permuted.spec ≡ pick (leading_dimensions_of view.spec) (1 ∷ 0 ∷ []))
    × Within (put_back 2 (1 ∷ 0 ∷ []) (4 ∷ 2 ∷ [])) (leading_dimensions_of view.spec)
    × (plane_at permuted (4 ∷ 2 ∷ []) ≡ plane_at view (put_back 2 (1 ∷ 0 ∷ []) (4 ∷ 2 ∷ [])))
unfolding leading_dimensions_of
permute_lem_example =
    permute_lem view (1 ∷ 0 ∷ []) (4 ∷ 2 ∷ []) view-IsView permute_run
      (omega arith, (omega arith, tt))

abbrev reshaped : TensorView
reshaped = record {
  owner = 7;
  spec = record spec { shape = record { dimensions = 15 ∷ 1 ∷ 20 ∷ 40 ∷ [] } };
  plane_offset = 0;
  plane_strides = 1 ∷ 1 ∷ [];
}

reshape_leading_run : reshape_leading view (15 ∷ 1 ∷ []) ≡ ok reshaped
unfolding reshape_leading count_elements count_planes check_contiguous reshaped_strides checked_mul
    leading_dimensions_of with_leading_dimensions new_shape all_nonzero
reshape_leading_run = refl

-- Plane 14 is the last one before and after.
reshape_leading_lem_example :
    (reshaped.owner ≡ view.owner)
    × IsView reshaped
    × (leading_dimensions_of reshaped.spec ≡ 15 ∷ 1 ∷ [])
    × (product (15 ∷ 1 ∷ []) ≡ product (leading_dimensions_of view.spec))
    × (plane_at reshaped (14 ∷ 0 ∷ []) ≡ plane_at view (2 ∷ 4 ∷ []))
unfolding leading_dimensions_of
reshape_leading_lem_example =
    reshape_leading_lem view (15 ∷ 1 ∷ []) (14 ∷ 0 ∷ []) (2 ∷ 4 ∷ []) view-IsView
      reshape_leading_run (omega arith, (omega arith, tt)) (omega arith, (omega arith, tt)) refl
