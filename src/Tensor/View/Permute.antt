-- ===== src/Tensor/View/Permute.antt =====
-- A permuted view names the planes of the view that it was taken from, at the coordinates put
-- back in their order.
use mathlib.Core.Path.{ap₂}
use iom.Base.{
  ltb, ◌==◌, ltb→lt, length, get_or, set, drop, replicate, length-replicate, invalid_argument, ok,
  require, >>=-eq-ok, require-eq-ok, ok-injective, ℕ, suc, ◌≡◌, refl, sym, ap, subst, ◌∙◌, Bool,
  true, false, not, List, [], ◌∷◌, ◌++◌, arith,
}
use iom.Tensor.Shape.{TensorShape, TensorSpec, dimension}
use iom.Tensor.Shape.Counts.{IsShape}
use iom.Tensor.Layout.Numbers.{Within, length-Within, take-All}
use iom.Tensor.View.{
  TensorView, leading_rank, with_leading_dimensions, leading_dimensions_of, permute, check_order,
  pick_dimensions, pick,
}
use iom.Tensor.View.Address.{plane_at, IsView, dimension-exact, with_leading-exact}
use iom.Tensor.View.Slice.{
  leading_rank_lem, length-leading, leading_dimensions_of-put, get_or-leading,
}
use iom.Tensor.View.Scatter.{
  put_back, Fresh, dot-scatter, Within-scatter, zeros-Within, dot-zeros, get_or-replicate,
}

unseen : (b : Bool) → not b ≡ true → b ≡ false
unseen b e = ground arith

check_order-Fresh :
    (n : ℕ) (order : List ℕ) (seen : List Bool) {u : Unit {0}}
    → check_order n order seen ≡ ok u
    → Fresh n order seen
unfolding check_order
check_order-Fresh n [] seen e = tt
check_order-Fresh n (axis ∷ order) seen e =
    let (_, e1, r1) = >>=-eq-ok (require (ltb axis n) invalid_argument) _ e in
    let (_, e2, r2) = >>=-eq-ok (require (not (get_or seen axis false)) invalid_argument) _ r1 in
    (
      ltb→lt axis n (require-eq-ok (ltb axis n) invalid_argument e1),
      unseen (get_or seen axis false)
          (require-eq-ok (not (get_or seen axis false)) invalid_argument e2),
      check_order-Fresh n order (set seen axis true) r2,
    )

pick_dimensions-exact :
    (s : TensorShape) (order : List ℕ) {dims : List ℕ}
    → pick_dimensions s order ≡ ok dims
    → dims ≡ pick s.dimensions order
unfolding pick_dimensions
pick_dimensions-exact s [] {dims} e = sym (ok-injective [] dims e)
pick_dimensions-exact s (axis ∷ order) {dims} e =
    let (d, e1, r1) = >>=-eq-ok (dimension s axis) _ e in
    let (rest, e2, done) = >>=-eq-ok (pick_dimensions s order) _ r1 in
    sym (ok-injective (d ∷ rest) dims done)
    ∙ ap₂ ◌∷◌ (dimension-exact s axis e1) (pick_dimensions-exact s order e2)

pick-leading :
    (spec : TensorSpec) (order : List ℕ) (seen : List Bool)
    → Fresh (leading_rank spec) order seen
    → pick spec.shape.dimensions order ≡ pick (leading_dimensions_of spec) order
pick-leading spec [] seen f = refl
pick-leading spec (axis ∷ order) seen f =
    ap₂ ◌∷◌ (sym (get_or-leading spec axis f.0)) (pick-leading spec order (set seen axis true) f.2)

length-pick : (strides order : List ℕ) → length (pick strides order) ≡ length order
length-pick strides [] = refl
length-pick strides (axis ∷ order) = ap suc (length-pick strides order)

-- What `permute` has checked and set when it succeeds.
record Permuted (v : TensorView) (order : List ℕ) (v' : TensorView) : Type 0 where
  fresh : Fresh (leading_rank v.spec) order (replicate (leading_rank v.spec) false)
  same_owner : v'.owner ≡ v.owner
  offset : v'.plane_offset ≡ v.plane_offset
  strides : v'.plane_strides ≡ pick v.plane_strides order
  dims :
      v'.spec.shape.dimensions
      ≡ pick v.spec.shape.dimensions order ++ drop (leading_rank v.spec) v.spec.shape.dimensions
  shape : IsShape v'.spec.shape

permute-Permuted :
    (v : TensorView) (order : List ℕ) {v' : TensorView}
    → IsView v
    → permute v order ≡ ok v'
    → Permuted v order v'
unfolding permute
permute-Permuted v order {v'} valid e =
    let n = leading_rank v.spec in
    let (_, e1, r1) = >>=-eq-ok (require (length order == n) invalid_argument) _ e in
    let (_, e2, r2) = >>=-eq-ok (check_order n order (replicate n false)) _ r1 in
    let (dims, e3, r3) = >>=-eq-ok (pick_dimensions v.spec.shape order) _ r2 in
    let (spec, e4, done) = >>=-eq-ok (with_leading_dimensions v.spec dims) _ r3 in
    let (placed, shape) = with_leading-exact v.spec dims e4 in
    subst (Permuted v order) (ok-injective _ _ done) (record {
      fresh = check_order-Fresh n order (replicate n false) e2;
      same_owner = refl;
      offset = refl;
      strides = refl;
      dims =
          placed
          ∙ ap (λ (t : List ℕ). t ++ drop (leading_rank v.spec) v.spec.shape.dimensions)
              (pick_dimensions-exact v.spec.shape order e3);
      shape = shape;
    })

-- A permutation of a well-formed view that succeeds is a well-formed view of the same owner with
-- the leading dimensions in the given order; at coordinates within its leading dimensions it
-- selects the plane that the source selects at the coordinates put back in place, and those are
-- within the leading dimensions of the source.
pub permute_lem :
    (v : TensorView) (order cs : List ℕ) {v' : TensorView}
    → IsView v
    → permute v order ≡ ok v'
    → Within cs (leading_dimensions_of v'.spec)
    → (v'.owner ≡ v.owner)
      × IsView v'
      × (leading_dimensions_of v'.spec ≡ pick (leading_dimensions_of v.spec) order)
      × Within (put_back (leading_rank v.spec) order cs) (leading_dimensions_of v.spec)
      × (plane_at v' cs ≡ plane_at v (put_back (leading_rank v.spec) order cs))
permute_lem v order cs {v'} valid e w = (
  p.same_owner,
  record {
    shape = p.shape;
    strided = omega (
      arith,
      ap length p.strides,
      length-pick v.plane_strides order,
      length-pick (leading_dimensions_of v.spec) order,
      ap length dims,
      length-leading v'.spec p.shape,
      leading_rank_lem v'.spec p.shape,
    );
    word = rw p.offset valid.word;
  },
  dims,
  Within-scatter (leading_dimensions_of v.spec) order cs (replicate n 0) (rw dims at w) zeros,
  rw (p.strides, p.offset)
      (omega (
        arith,
        dot-zeros v.plane_strides n,
        dot-scatter v.plane_strides order cs (replicate n 0) (replicate n false) n
            (omega (arith, valid.strided, leading_rank_lem v.spec valid.shape))
            (length-replicate n 0) (length-replicate n false)
            (length-Within cs _ (rw dims at w) ∙ length-pick (leading_dimensions_of v.spec) order)
            p.fresh λ i h. get_or-replicate n i 0,
      )),
)
  where
    n : ℕ
    n = leading_rank v.spec

    p : Permuted v order v'
    p = permute-Permuted v order valid e

    dims : leading_dimensions_of v'.spec ≡ pick (leading_dimensions_of v.spec) order
    dims =
        leading_dimensions_of-put v.spec v'.spec _ valid.shape p.shape p.dims
        ∙ pick-leading v.spec order (replicate n false) p.fresh

    zeros : Within (replicate n 0) (leading_dimensions_of v.spec)
    zeros = rw (length-leading v.spec valid.shape) at (
        zeros-Within (leading_dimensions_of v.spec)
          (unfold leading_dimensions_of in take-All n v.spec.shape.dimensions valid.shape.nonzero))
