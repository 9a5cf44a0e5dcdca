-- ===== src/Binary/Reads.antt =====
-- Where a snapshot of a view finds the elements for coordinates of the result.
use iom.Base.{
  leb, ◌==◌, if◌then◌else◌, ==→eq, Option-cases, length, get_or, take, drop, max_word, Exception,
  invalid_argument, ok, throws, require, >>=-eq-ok, require-eq-ok, ℕ, ◌+◌, ◌-◌, ◌*◌, ◌≤◌, ◌<◌, ◌≡◌,
  refl, sym, ap, subst, ◌∙◌, ◌⊎◌, inl, inr, ◌&&◌, some, List, arith,
}
use mathlib.Core.Path.{ap₂}
use iom.Tensor.Shape.{rank, leaf_bits, max_tensor_rank}
use iom.Tensor.Shape.Counts.{IsShape}
use iom.Tensor.Layout.{standard_plane_slot}
use iom.Tensor.Layout.Numbers.{Within}
use iom.Tensor.View.{TensorView, leading_rank}
use iom.Tensor.View.Address.{dot, plane_at}
use iom.Tensor.Codes.{same_type, same_format}
use iom.Operand.{
  Tensor, Tensors, CheckedViewFacts, validate_checked_spec, validate_checked_view, check_owner,
  check_planes, same_matrix, checked_facts,
}
use iom.Operand.Sound.{Words, validate_checked_view_fits, validate_checked_spec-IsShape}
use iom.Tensor.Layout.Slots.{rows, columns}
use iom.Binary.Axes.{
  short_sub, axis_inside, axis_own, matrix_axis, whole_leading, leading-Stretches,
}
use iom.Binary.{from_end, BinaryViewSnapshot, snapshot_binary_view, logical_strides}
use iom.Binary.Broadcast.{Stretches}
use iom.Binary.Planes.{clamp, logical_strides-clamp, clamp-Within}

-- A view of a registered tensor, with the sizes that its constructors leave.
pub record Registered (tensors : Tensors) (v : TensorView) : Type 0 where
  pub tensor : Tensor
  pub found : tensors v.owner ≡ some tensor
  pub owner_shape : IsShape tensor.full_view.spec.shape
  pub words : Words v.spec
  pub offset : v.plane_offset ≤ max_word

-- The element that a snapshot gives for coordinates of the result: its plane, row and column.
abbrev pub plane_of : BinaryViewSnapshot → List ℕ → ℕ
plane_of s cs = s.plane_offset + dot s.logical_plane_strides cs

abbrev pub row_of : BinaryViewSnapshot → ℕ → ℕ
row_of s row = if s.broadcast_rows then 0 else row

abbrev pub column_of : BinaryViewSnapshot → ℕ → ℕ
column_of s column = if s.broadcast_columns then 0 else column

-- The coordinate of an input along an axis of the matrix, where it has that extent.
abbrev pub own_coordinate : ℕ → ℕ → ℕ
own_coordinate extent coordinate = if extent == 1 then 0 else coordinate

-- The view has the extents of the result from the last axis on, or 1. The snapshot gives its element
-- at the coordinates that the view has, and 0 along the axes of extent 1; and that element lies
-- within the storage of the owner, whose bytes the checks have found.
pub record Reads (tensors : Tensors) (device : ℕ) (v : TensorView) (result : List ℕ)
    (s : BinaryViewSnapshot) (cs : List ℕ) (row column : ℕ) : Type 0 where
  pub shorter : rank v.spec.shape ≤ length result
  pub stretches :
      Stretches v.spec.shape.dimensions (drop (length result - rank v.spec.shape) result)
  pub own : List ℕ
  pub clamped :
      own ≡ clamp (length result - length v.spec.shape.dimensions) v.spec.shape.dimensions cs
  pub plane : plane_of s cs ≡ plane_at v own
  pub own_row : row_of s row ≡ own_coordinate (rows v.spec) row
  pub own_column : column_of s column ≡ own_coordinate (columns v.spec) column
  pub facts : CheckedViewFacts
  pub checked : validate_checked_view tensors device v ≡ ok facts
  pub slot : ℕ
  pub placed :
      standard_plane_slot v.spec (plane_of s cs) (row_of s row) (column_of s column) ≡ ok slot
  pub fits : (slot + 1) * leaf_bits v.spec.data_type ≤ facts.storage_bytes * 8

strided :
    (tensors : Tensors) (device : ℕ) (v : TensorView) {facts : CheckedViewFacts}
    → validate_checked_view tensors device v ≡ ok facts
    → length v.plane_strides ≡ leading_rank v.spec
unfolding validate_checked_view checked_facts check_planes
strided tensors device v {facts} e = elim (Option-cases (tensors v.owner)) [
  | inl missing ↦ absurd (refused (rw (missing, validate_checked_view) at e))
  | inr (t, found) ↦
      let (u0, owned, e0) =
        >>=-eq-ok (check_owner tensors device v t) _ (rw (found, validate_checked_view) at e) in
      let (max_plane, planes, e1) = >>=-eq-ok (check_planes v t.full_view.spec) _ e0 in
      let (u1, two, e2) =
        >>=-eq-ok (require (leb 2 (rank v.spec.shape)) invalid_argument) _ planes in
      let (u2, alike, e3) =
        >>=-eq-ok
          (require
            (same_type v.spec.data_type t.full_view.spec.data_type
              && same_format v.spec.quantization t.full_view.spec.quantization
              && same_matrix v.spec.shape t.full_view.spec.shape)
            invalid_argument)
          _ e2 in
      let (u3, counted, e4) =
        >>=-eq-ok (require (length v.plane_strides == leading_rank v.spec) invalid_argument) _ e3 in
      ==→eq _ _ (require-eq-ok _ invalid_argument counted)
]
  where
    refused : {x : Exception} → throws x ≡ ok facts → ⊥
    refused e = cc

pub snapshot-Reads :
    (tensors : Tensors) (device : ℕ) (v : TensorView) (result : List ℕ) (cs : List ℕ)
    (row column : ℕ) {facts : CheckedViewFacts}
    → Registered tensors v
    → validate_checked_spec v.spec ≡ ok tt
    → validate_checked_view tensors device v ≡ ok facts
    → rank v.spec.shape ≤ length result
    → length result ≤ max_tensor_rank
    → Stretches v.spec.shape.dimensions (drop (length result - rank v.spec.shape) result)
    → Within cs (take (length result - 2) result)
    → row < get_or result (length result - 2) 0
    → column < get_or result (length result - 2 + 1) 0
    → Reads tensors device v result (snapshot_binary_view tensors v result) cs row column
unfolding snapshot_binary_view
snapshot-Reads tensors device v result cs row column {facts} g spec checked shorter most s within hr
      hc =
    let dims = v.spec.shape.dimensions in
    let k = length result - length dims in
    let shape = validate_checked_spec-IsShape v.spec spec in
    let own = clamp k dims cs in
    let snapshot = snapshot_binary_view tensors v result in
    let two = shape.at_least in
    let whole = whole_leading dims result two shorter most s in
    let stretched = leading-Stretches dims result two shorter most s in
    let long : length (take (length result - 2) result) ≡ k + length v.plane_strides =
      whole
      ∙ ap (λ (i : ℕ). k + i)
          (sym (strided tensors device v checked ∙ short_sub (length dims) 2 two shape.at_most)) in
    let plane : plane_of snapshot cs ≡ plane_at v own =
      ap (λ (d : ℕ). v.plane_offset + d)
        (ap₂ (λ (a b : ℕ). dot (logical_strides a (take b result) dims v.plane_strides) cs)
            (short_sub (length result) (length dims) shorter most)
            (short_sub (length result) 2 (omega (arith, two, shorter)) most)
          ∙ logical_strides-clamp k (take (length result - 2) result) dims v.plane_strides cs within
              long stretched) in
    let inside =
      clamp-Within k (length dims - 2) (take (length result - 2) result) dims cs within whole
        stretched in
    let (device_eq, slot, placed, fits) =
      validate_checked_view_fits tensors device v g.tensor facts own (row_of snapshot row)
        (column_of snapshot column) g.found g.owner_shape g.words g.offset spec checked inside
        (row_extents two shape.at_most).0 (column_extents two shape.at_most).0 in
    record {
      shorter = shorter;
      stretches = s;
      own_row = (row_extents two shape.at_most).1;
      own_column = (column_extents two shape.at_most).1;
      own = own;
      clamped = refl;
      plane = plane;
      facts = facts;
      checked = checked;
      slot = slot;
      placed =
          ap
            (λ (p : ℕ).
              standard_plane_slot v.spec p (row_of snapshot row) (column_of snapshot column))
            plane
          ∙ placed;
      fits = fits;
    }
  where
    dims_of_view : List ℕ
    dims_of_view = v.spec.shape.dimensions

    extent :
        (back : ℕ)
        → back ≤ 2
        → 2 ≤ length dims_of_view
        → length dims_of_view ≤ 8
        → (from_end dims_of_view back ≡ get_or dims_of_view (length dims_of_view - back) 0)
          × (from_end result back ≡ get_or result (length result - back) 0)
    extent back low two eight = (
      ap (λ (i : ℕ). get_or dims_of_view i 0)
          (short_sub (length dims_of_view) back (omega (arith, low, two)) eight),
      ap (λ (i : ℕ). get_or result i 0)
          (short_sub (length result) back (omega (arith, low, two, shorter)) most),
    )

    one_less : (j : ℕ) → 2 ≤ j → j - 1 ≡ j - 2 + 1
    one_less j h = omega (arith, h)

    -- The extents along the last two axes, as the snapshot reads them.
    row_extents :
        2 ≤ length dims_of_view
        → length dims_of_view ≤ 8
        → (row_of (snapshot_binary_view tensors v result) row < rows v.spec)
          × (row_of (snapshot_binary_view tensors v result) row ≡ own_coordinate (rows v.spec) row)
    row_extents two eight =
        let (own, whole) = extent 2 (omega arith) two eight in
        let fits =
          matrix_axis dims_of_view result two shorter most s 2 (omega arith) (omega arith) in
        rw (own, whole) (axis_inside _ _ row hr fits, axis_own _ _ row hr fits)

    column_extents :
        2 ≤ length dims_of_view
        → length dims_of_view ≤ 8
        → (column_of (snapshot_binary_view tensors v result) column < columns v.spec)
          × (column_of (snapshot_binary_view tensors v result) column
              ≡ own_coordinate (columns v.spec) column)
    column_extents two eight =
        let (own, whole) = extent 1 (omega arith) two eight in
        let own' =
          own ∙ ap (λ (i : ℕ). get_or dims_of_view i 0) (one_less (length dims_of_view) two) in
        let whole' =
          whole
          ∙ ap (λ (i : ℕ). get_or result i 0)
              (one_less (length result) (omega (arith, two, shorter))) in
        let fits =
          subst (λ (a : ℕ). (a ≡ get_or result (length result - 2 + 1) 0) ⊎ (a ≡ 1))
            (ap (λ (i : ℕ). get_or dims_of_view i 0) (one_less (length dims_of_view) two))
            (subst
              (λ (o : ℕ).
                (get_or dims_of_view (length dims_of_view - 1) 0 ≡ o)
                ⊎ (get_or dims_of_view (length dims_of_view - 1) 0 ≡ 1))
              (ap (λ (i : ℕ). get_or result i 0)
                (one_less (length result) (omega (arith, two, shorter))))
              (matrix_axis dims_of_view result two shorter most s 1 (omega arith) (omega arith))) in
        rw (own', whole') (axis_inside _ _ column hc fits, axis_own _ _ column hc fits)
