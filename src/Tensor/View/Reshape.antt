-- ===== src/Tensor/View/Reshape.antt =====
-- A reshaped view numbers the planes of the view that it was taken from in the same order.
use iom.Tensor.View.Slice.{leading_rank_lem, length-leading, leading_dimensions_of-put}
use iom.Tensor.Shape.Counts.{IsShape}
use iom.Tensor.Shape.{TensorSpec, count_elements, max_tensor_rank}
use iom.Base.{
  ltb, leb, ◌==◌, ◌!=◌, ==→eq, Bool-cases, length, drop, product, All, add_word, invalid_argument,
  ok, require, >>=-eq-ok, require-eq-ok, ok-injective, ℕ, suc, ◌+◌, ◌*◌, ◌≤◌, ◌<◌, ◌≡◌, refl, sym,
  ap, subst, ◌∙◌, ◌⊎◌, inl, inr, List, [], ◌∷◌, ◌++◌, arith,
}
use iom.Tensor.Checked.{checked_mul}
use iom.Tensor.Layout.Numbers.{take-All, Within, number}
use iom.Tensor.View.{
  count_planes, reshape_leading, with_leading_dimensions, TensorView, leading_rank,
  leading_dimensions_of, check_contiguous, reshaped_strides,
}
use iom.Tensor.View.Address.{with_leading-exact, IsView, plane_at, dot, checked_mul-exact}

-- The strides number the planes in row-major order.
abbrev RowMajor : List ℕ → List ℕ → Type 0
RowMajor dims strides =
    (cs : List ℕ) (p : ℕ) → Within cs dims → dot strides cs + p * product dims ≡ number p dims cs

RowMajor-at_end : (strides : List ℕ) → RowMajor [] strides
RowMajor-at_end [] [] p w = omega arith
RowMajor-at_end (s ∷ strides) [] p w = omega arith
RowMajor-at_end strides (c ∷ cs) p w = absurd w

-- A stride in front: the product of the dimensions behind, or any for a dimension of size one.
RowMajor-cons :
    (d s : ℕ) (dims strides : List ℕ)
    → (s ≡ product dims) ⊎ (d ≤ 1)
    → RowMajor dims strides
    → RowMajor (d ∷ dims) (s ∷ strides)
RowMajor-cons d s dims strides good r [] p w = absurd w
RowMajor-cons d s dims strides (inl e) r (c ∷ cs) p w = rw e (omega (arith, r cs (p * d + c) w.1))
RowMajor-cons d s dims strides (inr small) r (c ∷ cs) p w =
    let zeroth : c ≡ 0 = omega (arith, w.0) in rw zeroth (omega (arith, r cs (p * d + 0) w.1))

check_contiguous-RowMajor :
    (dims strides : List ℕ) {e : ℕ}
    → All (λ d. 0 < d) dims
    → check_contiguous dims strides ≡ ok e
    → (e ≡ product dims) × RowMajor dims strides
unfolding check_contiguous
check_contiguous-RowMajor [] strides {e} h ok_e =
    (sym (ok-injective 1 e ok_e), RowMajor-at_end strides)
check_contiguous-RowMajor (d ∷ dims) [] h ok_e = cc
check_contiguous-RowMajor (d ∷ dims) (s ∷ strides) {e} h ok_e =
    let (expected, e1, r1) = >>=-eq-ok (check_contiguous dims strides) _ ok_e in
    let (same, behind) = check_contiguous-RowMajor dims strides h.1 e1 in
    elim (Bool-cases (ltb 1 d)) [
      | inl large ↦
          let (_, e2, r2) =
            >>=-eq-ok (require (s == expected) invalid_argument) _ (rw large at r1) in
          let equal = ==→eq s expected (require-eq-ok (s == expected) invalid_argument e2) in
          let total = checked_mul-exact expected d r2 in
          (
            omega (arith, total, ap (λ (t : ℕ). t * d) same),
            RowMajor-cons d s dims strides (inl (equal ∙ same)) behind,
          )
      | inr small ↦
          let kept = ok-injective expected e (rw small at r1) in
          let one : d ≡ 1 = ground (arith, h.0) in
          (
            rw one (omega (arith, kept, same)),
            RowMajor-cons d s dims strides (inr (omega (arith, one))) behind,
          )
    ]

reshaped_strides-RowMajor :
    (dims : List ℕ) {r : List ℕ × ℕ}
    → reshaped_strides dims ≡ ok r
    → (r.1 ≡ product dims) × (length r.0 ≡ length dims) × RowMajor dims r.0
unfolding reshaped_strides
reshaped_strides-RowMajor [] {r} e =
    subst (λ (t : List ℕ × ℕ). (t.1 ≡ 1) × (length t.0 ≡ 0) × RowMajor [] t.0)
      (ok-injective ([], 1) r e) (refl, refl, RowMajor-at_end [])
reshaped_strides-RowMajor (d ∷ dims) {r} e =
    let (done, e1, r1) = >>=-eq-ok (reshaped_strides dims) _ e in
    let (stride, e2, r2) = >>=-eq-ok (checked_mul done.1 d) _ r1 in
    let (same, long, behind) = reshaped_strides-RowMajor dims e1 in
    subst
      (λ (t : List ℕ × ℕ).
        (t.1 ≡ product (d ∷ dims)) × (length t.0 ≡ length (d ∷ dims)) × RowMajor (d ∷ dims) t.0)
      (ok-injective (done.1 ∷ done.0, stride) r r2)
      (
        omega (arith, checked_mul-exact done.1 d e2, ap (λ (t : ℕ). t * d) same),
        ap suc long,
        RowMajor-cons d done.1 dims done.0 (inl same) behind,
      )

count_elements-exact :
    (count : ℕ) (dims : List ℕ) {r : ℕ}
    → count_elements count dims ≡ ok r
    → r ≡ count * product dims
unfolding count_elements
count_elements-exact count [] {r} e = omega (arith, ok-injective count r e)
count_elements-exact count (d ∷ dims) e =
    let (next, e1, r1) = >>=-eq-ok (checked_mul count d) _ e in
    count_elements-exact next dims r1
    ∙ ap (λ (t : ℕ). t * product dims) (checked_mul-exact count d e1)
    ∙ omega arith

count_planes-exact :
    (planes : ℕ) (dims : List ℕ) {r : ℕ}
    → count_planes planes dims ≡ ok r
    → r ≡ planes * product dims
unfolding count_planes
count_planes-exact planes [] {r} e = omega (arith, ok-injective planes r e)
count_planes-exact planes (d ∷ dims) e =
    let (_, e1, r1) = >>=-eq-ok (require (d != 0) invalid_argument) _ e in
    let (next, e2, r2) = >>=-eq-ok (checked_mul planes d) _ r1 in
    count_planes-exact next dims r2
    ∙ ap (λ (t : ℕ). t * product dims) (checked_mul-exact planes d e2)
    ∙ omega arith

-- What `reshape_leading` has checked and set when it succeeds.
record Reshaped (v : TensorView) (leading : List ℕ) (v' : TensorView) : Type 0 where
  planes : product leading ≡ product (leading_dimensions_of v.spec)
  before : RowMajor (leading_dimensions_of v.spec) v.plane_strides
  after : RowMajor leading v'.plane_strides
  long : length v'.plane_strides ≡ length leading
  same_owner : v'.owner ≡ v.owner
  offset : v'.plane_offset ≡ v.plane_offset
  dims : v'.spec.shape.dimensions ≡ leading ++ drop (leading_rank v.spec) v.spec.shape.dimensions
  shape : IsShape v'.spec.shape

leading-positive :
    (spec : TensorSpec) → IsShape spec.shape → All (λ d. 0 < d) (leading_dimensions_of spec)
unfolding leading_dimensions_of
leading-positive spec v = take-All (leading_rank spec) spec.shape.dimensions v.nonzero

reshape_leading-Reshaped :
    (v : TensorView) (leading : List ℕ) {v' : TensorView}
    → IsView v
    → reshape_leading v leading ≡ ok v'
    → Reshaped v leading v'
unfolding reshape_leading
reshape_leading-Reshaped v leading {v'} valid e =
    let old = leading_dimensions_of v.spec in
    let (_, e1, r1) =
      >>=-eq-ok (require (leb (add_word (length leading) 2) max_tensor_rank) invalid_argument) _
        e in
    let (planes, e2, r2) = >>=-eq-ok (count_elements 1 old) _ r1 in
    let (new_planes, e3, r3) = >>=-eq-ok (count_planes 1 leading) _ r2 in
    let (_, e4, r4) = >>=-eq-ok (require (new_planes == planes) invalid_argument) _ r3 in
    let (expected, e5, r5) = >>=-eq-ok (check_contiguous old v.plane_strides) _ r4 in
    let (strides, e6, r6) = >>=-eq-ok (reshaped_strides leading) _ r5 in
    let (spec, e7, done) = >>=-eq-ok (with_leading_dimensions v.spec leading) _ r6 in
    let (dims, shape) = with_leading-exact v.spec leading e7 in
    let (_, long, after) = reshaped_strides-RowMajor leading e6 in
    subst (Reshaped v leading) (ok-injective _ _ done) (record {
      planes = omega (
        arith,
        count_elements-exact 1 old e2,
        count_planes-exact 1 leading e3,
        ==→eq new_planes planes (require-eq-ok (new_planes == planes) invalid_argument e4),
      );
      before =
          (check_contiguous-RowMajor old v.plane_strides (leading-positive v.spec valid.shape)
            e5).1;
      after = after;
      long = long;
      same_owner = refl;
      offset = refl;
      dims = dims;
      shape = shape;
    })

-- A reshape of a well-formed view that succeeds is a well-formed view of the same owner with the
-- given leading dimensions, whose product is that of the leading dimensions before; coordinates
-- within the new leading dimensions and coordinates within those before that have the same
-- row-major number select the same plane.
pub reshape_leading_lem :
    (v : TensorView) (leading cs ds : List ℕ) {v' : TensorView}
    → IsView v
    → reshape_leading v leading ≡ ok v'
    → Within cs leading
    → Within ds (leading_dimensions_of v.spec)
    → number 0 leading cs ≡ number 0 (leading_dimensions_of v.spec) ds
    → (v'.owner ≡ v.owner)
      × IsView v'
      × (leading_dimensions_of v'.spec ≡ leading)
      × (product leading ≡ product (leading_dimensions_of v.spec))
      × (plane_at v' cs ≡ plane_at v ds)
reshape_leading_lem v leading cs ds {v'} valid e w w' same = (
  r.same_owner,
  record {
    shape = r.shape;
    strided = omega (
      arith,
      r.long,
      ap length dims,
      length-leading v'.spec r.shape,
      leading_rank_lem v'.spec r.shape,
    );
    word = rw r.offset valid.word;
  },
  dims,
  r.planes,
  omega (arith, r.offset, r.after cs 0 w, r.before ds 0 w', same),
)
  where
    r : Reshaped v leading v'
    r = reshape_leading-Reshaped v leading valid e

    dims : leading_dimensions_of v'.spec ≡ leading
    dims = leading_dimensions_of-put v.spec v'.spec leading valid.shape r.shape r.dims
