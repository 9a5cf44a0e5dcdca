-- ===== src/Tensor/View/Select.antt =====
-- A selection names planes of the view that it was taken from, with the index put back among the
-- coordinates.
use iom.Base.{
  ap, max_word, ltb, ltb→lt, length, get_or, drop, out_of_range, ok, require, >>=-eq-ok,
  require-eq-ok, ok-injective, ℕ, zero, suc, ◌+◌, ◌-◌, ◌*◌, ◌≤◌, ◌<◌, ◌≡◌, refl, subst, List, [],
  ◌∷◌, ◌++◌, arith,
}
use iom.Tensor.Shape.{rank, dimension}
use iom.Tensor.Shape.Counts.{IsShape}
use iom.Tensor.Layout.Numbers.{Within, length-Within}
use iom.Tensor.Checked.{checked_add, checked_mul}
use iom.Tensor.View.{
  TensorView, leading_rank, with_leading_dimensions, leading_dimensions_of, select, erase_at,
}
use iom.Tensor.View.Address.{
  dot, plane_at, IsView, checked_mul-exact, checked_add-exact, dimension-exact, with_leading-exact,
}
use iom.Tensor.View.Slice.{
  leading_rank_lem, length-leading, leading_dimensions_of-put, get_or-leading,
}

-- The coordinates with `x` put at a position.
abbrev pub insert_at : ℕ → ℕ → List ℕ → List ℕ
insert_at zero x cs = x ∷ cs
insert_at (suc i) x [] = []
insert_at (suc i) x (c ∷ cs) = c ∷ insert_at i x cs

dot-insert :
    (strides cs : List ℕ) (d x : ℕ)
    → d < length strides
    → d ≤ length cs
    → x * get_or strides d 0 + dot (erase_at d strides) cs ≡ dot strides (insert_at d x cs)
dot-insert [] cs d x h k = absurd (omega arith)
dot-insert (s ∷ strides) cs zero x h k = refl
dot-insert (s ∷ strides) [] (suc d) x h k = absurd (omega arith)
dot-insert (s ∷ strides) (c ∷ cs) (suc d) x h k =
    omega (arith, dot-insert strides cs d x (omega arith) (omega arith))

Within-insert :
    (cs dims : List ℕ) (d x : ℕ)
    → d < length dims
    → x < get_or dims d 0
    → Within cs (erase_at d dims)
    → Within (insert_at d x cs) dims
Within-insert cs [] d x h k w = absurd (omega arith)
Within-insert cs (n ∷ dims) zero x h k w = (k, w)
Within-insert [] (n ∷ dims) (suc d) x h k w = absurd w
Within-insert (c ∷ cs) (n ∷ dims) (suc d) x h k w =
    (w.0, Within-insert cs dims d x (omega arith) k w.1)

length-erase : (xs : List ℕ) (d : ℕ) → d < length xs → length (erase_at d xs) + 1 ≡ length xs
length-erase [] d h = absurd (omega arith)
length-erase (x ∷ xs) zero h = omega arith
length-erase (x ∷ xs) (suc d) h = omega (arith, length-erase xs d (omega arith))

-- What `select` has checked and set when it succeeds.
record Selected (v : TensorView) (dim index : ℕ) (v' : TensorView) : Type 0 where
  leads : dim < rank v.spec.shape - 2
  inside : index < get_or v.spec.shape.dimensions dim 0
  same_owner : v'.owner ≡ v.owner
  offset : v'.plane_offset ≡ v.plane_offset + index * get_or v.plane_strides dim 0
  word : v'.plane_offset ≤ max_word
  strides : v'.plane_strides ≡ erase_at dim v.plane_strides
  dims :
      v'.spec.shape.dimensions
      ≡ erase_at dim (leading_dimensions_of v.spec)
        ++ drop (leading_rank v.spec) v.spec.shape.dimensions
  shape : IsShape v'.spec.shape

select-Selected :
    (v : TensorView) (dim index : ℕ) {v' : TensorView}
    → IsView v
    → select v dim index ≡ ok v'
    → Selected v dim index v'
unfolding select
select-Selected v dim index {v'} valid e =
    let (_, e1, r1) = >>=-eq-ok (require (ltb dim (leading_rank v.spec)) out_of_range) _ e in
    let (extent, e2, r2) = >>=-eq-ok (dimension v.spec.shape dim) _ r1 in
    let (_, e3, r3) = >>=-eq-ok (require (ltb index extent) out_of_range) _ r2 in
    let (shift, e4, r4) = >>=-eq-ok (checked_mul index (get_or v.plane_strides dim 0)) _ r3 in
    let (offset, e5, r5) = >>=-eq-ok (checked_add v.plane_offset shift) _ r4 in
    let (spec, e6, done) =
      >>=-eq-ok (with_leading_dimensions v.spec (erase_at dim (leading_dimensions_of v.spec))) _
        r5 in
    let (placed, placed_word) = checked_add-exact v.plane_offset shift valid.word e5 in
    let (dims, shape) =
      with_leading-exact v.spec (erase_at dim (leading_dimensions_of v.spec)) e6 in
    let leads = ltb→lt dim (leading_rank v.spec) (require-eq-ok _ _ e1) in
    subst (Selected v dim index) (ok-injective _ _ done) (record {
      leads = omega (arith, leads, leading_rank_lem v.spec valid.shape);
      inside =
          omega (
            arith,
            ltb→lt index extent (require-eq-ok _ _ e3),
            dimension-exact v.spec.shape dim e2,
          );
      same_owner = refl;
      offset = omega (arith, placed, checked_mul-exact index (get_or v.plane_strides dim 0) e4);
      word = placed_word;
      strides = refl;
      dims = dims;
      shape = shape;
    })

-- A selection from a well-formed view that succeeds is a well-formed view of the same owner with
-- the leading dimensions less the selected one; at coordinates within its leading dimensions it
-- selects the plane that the source selects with the index put among them, and those coordinates
-- are within the leading dimensions of the source.
pub select_lem :
    (v : TensorView) (dim index : ℕ) (cs : List ℕ) {v' : TensorView}
    → IsView v
    → select v dim index ≡ ok v'
    → Within cs (leading_dimensions_of v'.spec)
    → (v'.owner ≡ v.owner)
      × IsView v'
      × (leading_dimensions_of v'.spec ≡ erase_at dim (leading_dimensions_of v.spec))
      × Within (insert_at dim index cs) (leading_dimensions_of v.spec)
      × (plane_at v' cs ≡ plane_at v (insert_at dim index cs))
select_lem v dim index cs {v'} valid e w =
    let (before, same) = inside (rw dims at w) in (s.same_owner, valid', dims, before, same)
  where
    s : Selected v dim index v'
    s = select-Selected v dim index valid e

    dims : leading_dimensions_of v'.spec ≡ erase_at dim (leading_dimensions_of v.spec)
    dims = leading_dimensions_of-put v.spec v'.spec _ valid.shape s.shape s.dims

    lead : dim < length (leading_dimensions_of v.spec)
    lead =
        omega
          (arith, s.leads, length-leading v.spec valid.shape, leading_rank_lem v.spec valid.shape)

    extent : get_or (leading_dimensions_of v.spec) dim 0 ≡ get_or v.spec.shape.dimensions dim 0
    extent = get_or-leading v.spec dim (omega (arith, s.leads, leading_rank_lem v.spec valid.shape))

    valid' : IsView v'
    valid' = record {
      shape = s.shape;
      strided = omega (
        arith,
        valid.strided,
        ap length s.strides,
        length-erase v.plane_strides dim (omega (arith, valid.strided, s.leads)),
        ap length dims,
        length-erase (leading_dimensions_of v.spec) dim lead,
        length-leading v.spec valid.shape,
        length-leading v'.spec s.shape,
        leading_rank_lem v.spec valid.shape,
        leading_rank_lem v'.spec s.shape,
      );
      word = s.word;
    }

    inside :
        Within cs (erase_at dim (leading_dimensions_of v.spec))
        → Within (insert_at dim index cs) (leading_dimensions_of v.spec)
          × (plane_at v' cs ≡ plane_at v (insert_at dim index cs))
    inside w = (
      Within-insert cs (leading_dimensions_of v.spec) dim index lead
          (omega (arith, s.inside, extent)) w,
      rw s.strides (
          omega (
            arith,
            s.offset,
            dot-insert v.plane_strides cs dim index (omega (arith, valid.strided, s.leads)) (
                omega (
                  arith,
                  lead,
                  length-Within cs _ w,
                  length-erase (leading_dimensions_of v.spec) dim lead,
                )),
          )),
    )
