-- ===== src/Tensor/View/Address.antt =====
-- Which owner plane a view selects for leading coordinates, and that `slice` and `select` only
-- ever name planes that the view named before.
use iom.Base.{
  ltb, ◌!=◌, ltb→lt, Option-cases, length, get_elem?, get_or, set, drop, max_word, sub_word,
  invalid_argument, out_of_range, ok, require, >>=-eq-ok, require-eq-ok, ok-injective, ℕ, zero, suc,
  ◌+◌, ◌-◌, ◌*◌, ◌≤◌, ◌<◌, ◌≡◌, refl, ap, subst, inl, inr, true, some, List, [], ◌∷◌, ◌++◌, arith,
}
use iom.Tensor.Checked.{checked_add, checked_mul, checked_add_lem, checked_mul_lem}
use iom.Tensor.Shape.{TensorShape, TensorSpec, rank, dimension, new_shape}
use iom.Tensor.Shape.Counts.{IsShape, new_shape_iff}
use iom.Tensor.View.{
  TensorView, leading_rank, with_leading_dimensions, leading_dimensions_of, slice,
}

abbrev pub dot : List ℕ → List ℕ → ℕ
dot [] cs = 0
dot (s ∷ strides) [] = 0
dot (s ∷ strides) (c ∷ cs) = c * s + dot strides cs

-- The owner plane at leading coordinates.
abbrev pub plane_at : TensorView → List ℕ → ℕ
plane_at v cs = v.plane_offset + dot v.plane_strides cs

-- A stride for each leading dimension; offset and shape as the constructors leave them.
pub record IsView (v : TensorView) : Type 0 where
  pub shape : IsShape v.spec.shape
  pub strided : length v.plane_strides ≡ rank v.spec.shape - 2
  pub word : v.plane_offset ≤ max_word

pub checked_mul-exact : (a b : ℕ) {c : ℕ} → checked_mul a b ≡ ok c → c ≡ a * b
checked_mul-exact a b e = ground (arith, checked_mul_lem a b)

pub checked_add-exact :
    (a b : ℕ) {c : ℕ} → a ≤ max_word → checked_add a b ≡ ok c → (c ≡ a + b) × (c ≤ max_word)
checked_add-exact a b h e = ground (arith, checked_add_lem a b h)

get_or-get_elem? : (xs : List ℕ) (i x : ℕ) → get_elem? xs i ≡ some x → get_or xs i 0 ≡ x
get_or-get_elem? [] i x e = cc
get_or-get_elem? (y ∷ xs) zero x e = cc
get_or-get_elem? (y ∷ xs) (suc i) x e = get_or-get_elem? xs i x e

pub dimension-exact :
    (s : TensorShape) (i : ℕ) {d : ℕ} → dimension s i ≡ ok d → d ≡ get_or s.dimensions i 0
unfolding dimension
dimension-exact s i e = elim (Option-cases (get_elem? s.dimensions i)) [
  | inl missing ↦ ground (arith, missing)
  | inr (d', found) ↦ ground (arith, found, get_or-get_elem? s.dimensions i d')
]

pub with_leading-exact :
    (spec : TensorSpec) (leading : List ℕ) {spec' : TensorSpec}
    → with_leading_dimensions spec leading ≡ ok spec'
    → (spec'.shape.dimensions ≡ leading ++ drop (leading_rank spec) spec.shape.dimensions)
      × IsShape spec'.shape
unfolding with_leading_dimensions
with_leading-exact spec leading {spec'} e =
    let all = leading ++ drop (leading_rank spec) spec.shape.dimensions in
    let (shape, made, done) = >>=-eq-ok (new_shape all) _ e in
    let same : shape ≡ spec'.shape = ap (λ (t : TensorSpec). t.shape) (ok-injective _ _ done) in
    subst (λ (t : TensorShape). (t.dimensions ≡ all) × IsShape t) same
      ((new_shape_iff all shape).0 made)

-- What `slice` has checked and set when it succeeds.
pub record Sliced (v : TensorView) (dim first count step : ℕ) (v' : TensorView) : Type 0 where
  pub leads : dim < rank v.spec.shape - 2
  pub some_count : 0 < count
  pub some_step : 0 < step
  pub inside : first + (count - 1) * step < get_or v.spec.shape.dimensions dim 0
  pub same_owner : v'.owner ≡ v.owner
  pub offset : v'.plane_offset ≡ v.plane_offset + first * get_or v.plane_strides dim 0
  pub word : v'.plane_offset ≤ max_word
  pub strides : v'.plane_strides ≡ set v.plane_strides dim (get_or v.plane_strides dim 0 * step)
  pub dims :
      v'.spec.shape.dimensions
      ≡ set (leading_dimensions_of v.spec) dim count
        ++ drop (leading_rank v.spec) v.spec.shape.dimensions
  pub shape : IsShape v'.spec.shape

nonzero_pos : (n : ℕ) → (n != 0) ≡ true → 0 < n
nonzero_pos n h = ground arith

count_less : (n : ℕ) → 0 < n → n ≤ max_word → sub_word n 1 ≡ n - 1
count_less n p h = omega arith

pub slice-Sliced :
    (v : TensorView) (dim first count step : ℕ) {v' : TensorView}
    → IsView v
    → first ≤ max_word
    → count ≤ max_word
    → slice v dim first count step ≡ ok v'
    → Sliced v dim first count step v'
unfolding slice
slice-Sliced v dim first count step {v'} valid wf wc e =
    let (_, e1, r1) = >>=-eq-ok (require (ltb dim (leading_rank v.spec)) out_of_range) _ e in
    let (_, e2, r2) = >>=-eq-ok (require (count != 0) invalid_argument) _ r1 in
    let (_, e3, r3) = >>=-eq-ok (require (step != 0) invalid_argument) _ r2 in
    let (reach, e4, r4) = >>=-eq-ok (checked_mul (sub_word count 1) step) _ r3 in
    let (last, e5, r5) = >>=-eq-ok (checked_add first reach) _ r4 in
    let (extent, e6, r6) = >>=-eq-ok (dimension v.spec.shape dim) _ r5 in
    let (_, e7, r7) = >>=-eq-ok (require (ltb last extent) out_of_range) _ r6 in
    let (scaled, e8, r8) = >>=-eq-ok (checked_mul (get_or v.plane_strides dim 0) step) _ r7 in
    let (shift, e9, r9) = >>=-eq-ok (checked_mul first (get_or v.plane_strides dim 0)) _ r8 in
    let (offset, e10, r10) = >>=-eq-ok (checked_add v.plane_offset shift) _ r9 in
    let (spec, e11, done) =
      >>=-eq-ok (with_leading_dimensions v.spec (set (leading_dimensions_of v.spec) dim count)) _
        r10 in
    let (reached, reached_word) = checked_add-exact first reach wf e5 in
    let (placed, placed_word) = checked_add-exact v.plane_offset shift valid.word e10 in
    let (dims, shape) =
      with_leading-exact v.spec (set (leading_dimensions_of v.spec) dim count) e11 in
    let leads = ltb→lt dim (leading_rank v.spec) (require-eq-ok _ _ e1) in
    let rank_word : leading_rank v.spec ≡ rank v.spec.shape - 2 = omega (arith, valid.shape) in
    let pos : 0 < count = nonzero_pos count (require-eq-ok _ _ e2) in
    subst (Sliced v dim first count step) (ok-injective _ _ done) (record {
      leads = omega (arith, leads, rank_word);
      some_count = pos;
      some_step = nonzero_pos step (require-eq-ok _ _ e3);
      inside = omega (
        arith,
        ltb→lt last extent (require-eq-ok _ _ e7),
        dimension-exact v.spec.shape dim e6,
        reached,
        checked_mul-exact (sub_word count 1) step e4,
        ap (λ (t : ℕ). t * step) (count_less count pos wc),
      );
      same_owner = refl;
      offset = omega (arith, placed, checked_mul-exact first (get_or v.plane_strides dim 0) e9);
      word = placed_word;
      strides =
          ap (set v.plane_strides dim) (checked_mul-exact (get_or v.plane_strides dim 0) step e8);
      dims = dims;
      shape = shape;
    })
