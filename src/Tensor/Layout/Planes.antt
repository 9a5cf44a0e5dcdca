-- ===== src/Tensor/Layout/Planes.antt =====
-- The slot of full coordinates: `standard_layout_slot` succeeds on every element of a tensor whose
-- padded elements can be counted, stays below their number, and tells all elements apart.
use iom.Base.{
  ◌==◌, length, get_or, take, product, max_word, add_word, sub_word, ok, ok-injective, ℕ, suc, ◌+◌,
  ◌-◌, ◌*◌, ◌≤◌, ◌<◌, ◌≡◌, sym, ◌∙◌, true, List, [], ◌∷◌, ◌++◌, arith,
}
use iom.Tensor.Checked.{padded}
use iom.Tensor.Shape.{TensorSpec, rank, validate, is_none_format}
use iom.Tensor.Shape.Counts.{IsShape}
use iom.Tensor.Layout.{standard_layout_slot}
use iom.Tensor.Layout.Slots.{
  rows, columns, slot, slot-lt, slot-injective, standard_plane_slot_lem, le-mul_left,
}
use iom.Tensor.Layout.Numbers.{
  Within, number, number-lt, number-injective, plane_index_lem, check_coordinates_lem,
  length-Within, take-Within, take-All, get_or-Within, last_two,
}

-- What the layout needs of a tensor: a shape, no grouping, and padded elements that can be counted.
abbrev pub leading : TensorSpec → List ℕ
leading spec = take (rank spec.shape - 2) spec.shape.dimensions

abbrev pub padded_elements : TensorSpec → ℕ
padded_elements spec = product (leading spec) * (padded (rows spec) * padded (columns spec))

pub record IsTiled (spec : TensorSpec) : Type 0 where
  pub shape : IsShape spec.shape
  pub plain : is_none_format spec.quantization ≡ true
  pub counted : padded_elements spec ≤ max_word

validate-IsTiled : (spec : TensorSpec) → IsTiled spec → validate spec ≡ ok tt
unfolding validate
validate-IsTiled spec t = ground (arith, t.shape, t.plain)

abbrev row_of : TensorSpec → List ℕ → ℕ
row_of spec cs = get_or cs (rank spec.shape - 2) 0

abbrev column_of : TensorSpec → List ℕ → ℕ
column_of spec cs = get_or cs (rank spec.shape - 2 + 1) 0

abbrev plane_of : TensorSpec → List ℕ → ℕ
plane_of spec cs = number 0 (leading spec) (take (rank spec.shape - 2) cs)

module _ (spec : TensorSpec) (cs : List ℕ) (t : IsTiled spec)
    (w : Within cs spec.shape.dimensions) where
  plane-lt : plane_of spec cs < product (leading spec)
  plane-lt = omega (
    arith,
    number-lt 1 0 (leading spec) (take (rank spec.shape - 2) cs) (omega arith)
        (take-Within (rank spec.shape - 2) cs spec.shape.dimensions w),
  )

  row-lt : row_of spec cs < rows spec
  row-lt =
      get_or-Within (rank spec.shape - 2) cs spec.shape.dimensions w
        (omega (arith, t.shape.at_least))

  column-lt : column_of spec cs < columns spec
  column-lt =
      get_or-Within (rank spec.shape - 2 + 1) cs spec.shape.dimensions w
        (omega (arith, t.shape.at_least))

  layout_slot_value :
      standard_layout_slot spec cs
      ≡ ok (slot (rows spec) (columns spec) (plane_of spec cs) (row_of spec cs) (column_of spec cs))
  unfolding standard_layout_slot
  layout_slot_value =
      rw
        (
          validate-IsTiled spec t,
          checks,
          check_coordinates_lem cs spec.shape.dimensions w,
          lead,
          next,
          plane_index_lem 1 0 (leading spec) (take (rank spec.shape - 2) cs) (omega arith) fits
              (take-All (rank spec.shape - 2) spec.shape.dimensions t.shape.nonzero)
              (take-Within (rank spec.shape - 2) cs spec.shape.dimensions w),
        )
        (standard_plane_slot_lem spec (product (leading spec)) (plane_of spec cs) (row_of spec cs)
          (column_of spec cs) t.shape.at_least (omega (arith, t.shape.at_most)) plane-lt row-lt
          column-lt t.counted)
    where
      fits : 1 * product (leading spec) ≤ max_word
      fits = omega (
        arith,
        t.counted,
        le-mul_left (padded (rows spec)) (padded (columns spec)) (omega (arith, column-lt)),
        le-mul_left (product (leading spec)) (padded (rows spec) * padded (columns spec)) (
            omega (
              arith,
              row-lt,
              column-lt,
              le-mul_left (padded (rows spec)) (padded (columns spec)) (omega (arith, column-lt)),
            )),
      )

      checks : (length cs == rank spec.shape) ≡ true
      checks = ground (arith, length-Within cs spec.shape.dimensions w)

      lead : sub_word (rank spec.shape) 2 ≡ rank spec.shape - 2
      lead = omega (arith, t.shape)

      next : add_word (rank spec.shape - 2) 1 ≡ rank spec.shape - 2 + 1
      next = omega (arith, t.shape)

-- For a specification of plain format whose padded elements can be counted in a word,
-- `standard_layout_slot` succeeds at all coordinates within the dimensions, with a slot below
-- the number of padded elements.
pub standard_layout_slot_lem :
    (spec : TensorSpec) (cs : List ℕ)
    → IsTiled spec
    → Within cs spec.shape.dimensions
    → (s : ℕ) × (standard_layout_slot spec cs ≡ ok s) × (s < padded_elements spec)
standard_layout_slot_lem spec cs t w = (
  slot (rows spec) (columns spec) (plane_of spec cs) (row_of spec cs) (column_of spec cs),
  layout_slot_value spec cs t w,
  slot-lt (rows spec) (columns spec) (product (leading spec)) (plane_of spec cs) (row_of spec cs)
      (column_of spec cs) (plane-lt spec cs t w) (row-lt spec cs t w) (column-lt spec cs t w),
)

-- For a specification of plain format whose padded elements can be counted in a word, two
-- coordinate lists within the dimensions that have the same standard layout slot are equal.
pub standard_layout_slot-injective :
    (spec : TensorSpec) (cs ds : List ℕ)
    → IsTiled spec
    → Within cs spec.shape.dimensions
    → Within ds spec.shape.dimensions
    → standard_layout_slot spec cs ≡ standard_layout_slot spec ds
    → cs ≡ ds
standard_layout_slot-injective spec cs ds t w v e =
    let same =
      ok-injective _ _ (sym (layout_slot_value spec cs t w) ∙ e ∙ layout_slot_value spec ds t v) in
    let (planes, row, column) =
      slot-injective (rows spec) (columns spec) (plane_of spec cs) (row_of spec cs)
        (column_of spec cs) (plane_of spec ds) (row_of spec ds) (column_of spec ds)
        (row-lt spec cs t w) (column-lt spec cs t w) (row-lt spec ds t v) (column-lt spec ds t v)
        same in
    let front =
      (number-injective 0 0 (leading spec) (take k cs) (take k ds)
        (take-Within k cs spec.shape.dimensions w) (take-Within k ds spec.shape.dimensions v)
        planes).1 in
    whole cs w ∙ join front row column ∙ sym (whole ds v)
  where
    k : ℕ
    k = rank spec.shape - 2

    whole :
        (xs : List ℕ)
        → Within xs spec.shape.dimensions
        → xs ≡ take k xs ++ (row_of spec xs ∷ column_of spec xs ∷ [])
    whole xs u =
        let next : suc k ≡ k + 1 = omega arith in
        rw (← next) (
          last_two k xs (omega (arith, t.shape.at_least, length-Within xs spec.shape.dimensions u)))

    join :
        take k cs ≡ take k ds
        → row_of spec cs ≡ row_of spec ds
        → column_of spec cs ≡ column_of spec ds
        → take k cs ++ (row_of spec cs ∷ column_of spec cs ∷ [])
          ≡ take k ds ++ (row_of spec ds ∷ column_of spec ds ∷ [])
    join a b c = cc
