-- ===== src/Tensor/Shape/Counts.antt =====
-- Element and byte counts: exact, or an overflow.
use iom.Base.{
  ltb, if◌then◌else◌, length, product, All, max_word, Exception, overflow_error, Result, ok, throws,
  ℕ, zero, suc, ◌*◌, ◌≤◌, ◌<◌, ◌≡◌, refl, ap, ◌↔◌, ◌⊎◌, inl, inr, List, [], ◌∷◌, arith, dec_lt,
}
use iom.Tensor.Checked.{checked_mul_ok, checked_mul_throws}
use iom.Tensor.Shape.{
  TensorShape, all_nonzero, new_shape, count_elements, element_count, rank, max_tensor_rank,
}

-- A shape has two to eight dimensions, none zero.
pub record IsShape (s : TensorShape) : Type 0 where
  pub at_least : 2 ≤ rank s
  pub at_most : rank s ≤ max_tensor_rank
  pub nonzero : All (λ d. 0 < d) s.dimensions

pub all_nonzero_sound : (dims : List ℕ) → all_nonzero dims ≡ ok tt → All (λ d. 0 < d) dims
unfolding all_nonzero
all_nonzero_sound [] e = tt
all_nonzero_sound (zero ∷ dims) e = cc
all_nonzero_sound (suc d ∷ dims) e = (omega arith, all_nonzero_sound dims (ground arith))

all_nonzero_complete : (dims : List ℕ) → All (λ d. 0 < d) dims → all_nonzero dims ≡ ok tt
unfolding all_nonzero
all_nonzero_complete [] h = refl
all_nonzero_complete (d ∷ dims) h = ground (arith, all_nonzero_complete dims h.1)

Unit-cases : (r : Result (Unit {0})) → (r ≡ ok tt) ⊎ ((x : Exception) × (r ≡ throws x))
Unit-cases (ok _) = inl refl
Unit-cases (throws x) = inr (x, refl)

-- The constructor of `TensorShape` yields a shape exactly if that shape has the given
-- dimensions, and these are two to eight, none zero.
pub new_shape_iff :
    (dims : List ℕ) (s : TensorShape)
    → (new_shape dims ≡ ok s) ↔ ((s.dimensions ≡ dims) × IsShape s)
unfolding new_shape
new_shape_iff dims s = (there, back)
  where
    there : new_shape dims ≡ ok s → (s.dimensions ≡ dims) × IsShape s
    there e = elim (Unit-cases (all_nonzero dims)) [
      | inl nonzero ↦
          let same : s.dimensions ≡ dims = ground arith in
          (
            same,
            record {
              at_least = ground arith;
              at_most = ground arith;
              nonzero = rw same (all_nonzero_sound dims nonzero);
            },
          )
      | inr (x, e') ↦ ground (arith, e')
    ]

    back : (s.dimensions ≡ dims) × IsShape s → new_shape dims ≡ ok s
    back (same, v) = ground (
      arith,
      all_nonzero_complete dims (rw same at v.nonzero),
      v.at_least,
      v.at_most,
      ap length same,
    )

pub le-mul_right : (x p : ℕ) → 0 < p → x ≤ x * p
le-mul_right x p h = grind arith

pub product-pos : (dims : List ℕ) → All (λ d. 0 < d) dims → 0 < product dims
product-pos [] h = omega arith
product-pos (d ∷ dims) h = grind (arith, product-pos dims h.1)

pub count_elements_lem :
    (dims : List ℕ) (count : ℕ)
    → 0 < count
    → count ≤ max_word
    → All (λ d. 0 < d) dims
    → count_elements count dims ≡ (
        if ltb max_word (count * product dims)
        then throws overflow_error
        else ok (count * product dims))
unfolding count_elements
count_elements_lem [] count p w h = ground arith
count_elements_lem (d ∷ dims) count p w h = elim (dec_lt max_word (count * d)) [
  | yes over ↦ rw (checked_mul_throws count d over) (
      let more : max_word < count * (d * product dims) =
        omega (arith, over, le-mul_right (count * d) (product dims) (product-pos dims h.1)) in
      ground arith)
  | no fits ↦ rw (checked_mul_ok count d (omega arith)) (
      let same : count * (d * product dims) ≡ count * d * product dims = omega arith in
      rw same (
        count_elements_lem dims (count * d) (omega (arith, le-mul_right count d h.0)) (omega arith)
          h.1))
]

-- For a shape of two to eight dimensions, none zero, `element_count` is the product of the
-- dimensions, or throws `overflow_error` exactly if that is no word.
pub element_count_lem :
    (s : TensorShape)
    → IsShape s
    → element_count s ≡ (
        if ltb max_word (product s.dimensions)
        then throws overflow_error
        else ok (product s.dimensions))
unfolding element_count
element_count_lem s v =
    let one : 1 * product s.dimensions ≡ product s.dimensions = omega arith in
    rw one at (count_elements_lem s.dimensions 1 (omega arith) (omega arith) v.nonzero)
