-- ===== src/Operand/Reach.antt =====
-- The loop over the strides: no leading coordinates of a view select a plane above the greatest
-- that it computes.
use iom.Base.{
  ◌!=◌, get_or, take, product, All, max_word, sub_word, invalid_argument, Result, ok, ◌>>=◌,
  require, >>=-eq-ok, ok-injective, ℕ, ◌+◌, ◌-◌, ◌*◌, ◌≤◌, ◌<◌, ◌≡◌, ap, subst, ◌∙◌, List, [], ◌∷◌,
  arith,
}
use mathlib.Core.Path.{ap₂}
use iom.Tensor.Checked.{
  checked_add, checked_mul, bits_to_bytes, padded_extent, padded, padded_extent_lem,
  checked_mul_lem,
}
use iom.Tensor.Shape.{TensorShape, TensorSpec, rank, leaf_bits, count_elements}
use iom.Tensor.Shape.Counts.{IsShape, count_elements_lem}
use iom.Tensor.View.Address.{dot, checked_mul-exact, checked_add-exact}
use iom.Tensor.Layout.Numbers.{Within, take-All}
use iom.Tensor.Layout.Slots.{rows, columns}
use iom.Tensor.Layout.Planes.{leading, padded_elements}
use iom.Operand.{
  max_plane_from, checked_plane_count, checked_tiled_element_count, checked_tiled_storage_bytes,
}

-- A coordinate below its dimension times a stride.
below-mul : (c d s : ℕ) → c < d → c * s ≤ (d - 1) * s
below-mul c d s h = grind arith

pub max_plane_from_lem :
    (start : ℕ) (dims strides cs : List ℕ) {r : ℕ}
    → start ≤ max_word
    → All (λ d. (0 < d) × (d ≤ max_word)) dims
    → max_plane_from start dims strides ≡ ok r
    → Within cs dims
    → start + dot strides cs ≤ r
unfolding max_plane_from
max_plane_from_lem start [] [] cs w h e within = omega (arith, ok-injective _ _ e)
max_plane_from_lem start [] (s ∷ strides) [] w h e within = omega (arith, ok-injective _ _ e)
max_plane_from_lem start [] (s ∷ strides) (c ∷ cs) w h e within = absurd within
max_plane_from_lem start (d ∷ dims) strides [] w h e within = absurd within
max_plane_from_lem start (d ∷ dims) [] (c ∷ cs) w h e within = omega (arith, ok-injective _ _ e)
max_plane_from_lem start (d ∷ dims) (s ∷ strides) (c ∷ cs) w h e within =
    let (u, nonzero, e1) = >>=-eq-ok (require (s != 0) invalid_argument) _ e in
    let (reach, reached, e2) = >>=-eq-ok (checked_mul (sub_word d 1) s) _ e1 in
    let (further, added, e3) = >>=-eq-ok (checked_add start reach) _ e2 in
    let exact = checked_mul-exact (sub_word d 1) s reached in
    let (total, small) = checked_add-exact start reach w added in
    let below = sub_one d (h.0.0) (h.0.1) in
    let rest = max_plane_from_lem further dims strides cs small h.1 e3 within.1 in
    omega (arith, exact, total, rest, below-mul c d s within.0, ap (λ (n : ℕ). n * s) below)
  where
    sub_one : (d : ℕ) → 0 < d → d ≤ max_word → sub_word d 1 ≡ d - 1
    sub_one d p w = omega arith

count_leading :
    (s : TensorShape) {n : ℕ}
    → IsShape s
    → count_elements 1 (take (sub_word (rank s) 2) s.dimensions) ≡ ok n
    → n ≡ product (take (rank s - 2) s.dimensions)
count_leading s {n} v e =
    let back : sub_word (rank s) 2 ≡ rank s - 2 = omega (arith, v.at_least, v.at_most) in
    let e' = subst (λ (k : ℕ). count_elements 1 (take k s.dimensions) ≡ ok n) back e in
    let dims = take (rank s - 2) s.dimensions in
    let counted =
      count_elements_lem dims 1 (omega arith) (omega arith)
        (take-All (rank s - 2) s.dimensions v.nonzero) in
    ground (arith, counted, e')

pub checked_plane_count_lem :
    (spec : TensorSpec) {n : ℕ}
    → IsShape spec.shape
    → checked_plane_count spec.shape ≡ ok n
    → n ≡ product (leading spec)
unfolding checked_plane_count
checked_plane_count_lem spec v e = count_leading spec.shape v e

padded_extent-exact : (n : ℕ) {r : ℕ} → n ≤ max_word → padded_extent n ≡ ok r → r ≡ padded n
padded_extent-exact n h e = ground (arith, padded_extent_lem n h)

-- A shape whose last two dimensions are words.
abbrev pub WordMatrix : TensorSpec → Type 0
WordMatrix spec = (rows spec ≤ max_word) × (columns spec ≤ max_word)

checked_mul-word : (a b : ℕ) {c : ℕ} → checked_mul a b ≡ ok c → c ≤ max_word
checked_mul-word a b e = ground (arith, checked_mul_lem a b)

-- The count of elements, with the places of the last two dimensions.
abbrev tiled_product : TensorShape → ℕ → ℕ → Result ℕ
tiled_product s k l = do
  rows ← padded_extent (get_or s.dimensions k 0)
  columns ← padded_extent (get_or s.dimensions l 0)
  elements ← count_elements 1 (take (sub_word (rank s) 2) s.dimensions)
  high ← checked_mul elements rows
  checked_mul high columns

checked_tiled_element_count_lem :
    (spec : TensorSpec) {n : ℕ}
    → IsShape spec.shape
    → WordMatrix spec
    → checked_tiled_element_count spec.shape ≡ ok n
    → (n ≡ padded_elements spec) × (n ≤ max_word)
unfolding checked_tiled_element_count
checked_tiled_element_count_lem spec {n} v w e =
    let s = spec.shape in
    let last : sub_word (rank s) 1 ≡ rank s - 2 + 1 = omega (arith, v.at_least, v.at_most) in
    let before : sub_word (sub_word (rank s) 1) 1 ≡ rank s - 2 =
      omega (arith, v.at_least, v.at_most) in
    let e' = subst (λ (k : ℕ). tiled_product s k (sub_word (rank s) 1) ≡ ok n) before e in
    let e'' = subst (λ (l : ℕ). tiled_product s (rank s - 2) l ≡ ok n) last e' in
    let (high, padded_rows, e1) = >>=-eq-ok (padded_extent (rows spec)) _ e'' in
    let (wide, padded_columns, e2) = >>=-eq-ok (padded_extent (columns spec)) _ e1 in
    let (elements, counted, e3) =
      >>=-eq-ok (count_elements 1 (take (sub_word (rank s) 2) s.dimensions)) _ e2 in
    let (tall, multiplied, e4) = >>=-eq-ok (checked_mul elements high) _ e3 in
    (
      checked_mul-exact tall wide e4
          ∙ ap₂ ◌*◌ (checked_mul-exact elements high multiplied)
              (padded_extent-exact (columns spec) w.1 padded_columns)
          ∙ ap₂ (λ (a b : ℕ). a * b * padded (columns spec)) (count_leading s v counted)
              (padded_extent-exact (rows spec) w.0 padded_rows)
          ∙ regroup (product (leading spec)) (padded (rows spec)) (padded (columns spec)),
      checked_mul-word tall wide e4,
    )
  where
    regroup : (a b c : ℕ) → a * b * c ≡ a * (b * c)
    regroup a b c = omega arith

bits-bound : (bits : ℕ) {b : ℕ} → bits ≤ max_word → bits_to_bytes bits ≡ ok b → bits ≤ b * 8
unfolding bits_to_bytes checked_add
bits-bound bits w e = ground arith

-- The storage of an owner holds its padded elements, which can be counted in a word.
pub checked_tiled_storage_bytes_lem :
    (spec : TensorSpec) {b : ℕ}
    → IsShape spec.shape
    → WordMatrix spec
    → checked_tiled_storage_bytes spec ≡ ok b
    → (padded_elements spec ≤ max_word) × (padded_elements spec * leaf_bits spec.data_type ≤ b * 8)
unfolding checked_tiled_storage_bytes
checked_tiled_storage_bytes_lem spec {b} v w e =
    let (n, counted, e1) = >>=-eq-ok (checked_tiled_element_count spec.shape) _ e in
    let (bits, multiplied, e2) = >>=-eq-ok (checked_mul n (leaf_bits spec.data_type)) _ e1 in
    let (same, fits) = checked_tiled_element_count_lem spec v w counted in
    let exact = checked_mul-exact n (leaf_bits spec.data_type) multiplied in
    let small = checked_mul-word n (leaf_bits spec.data_type) multiplied in
    (
      subst (λ (k : ℕ). k ≤ max_word) same fits,
      subst (λ (k : ℕ). k * leaf_bits spec.data_type ≤ b * 8) same
          (subst (λ (k : ℕ). k ≤ b * 8) exact (bits-bound bits small e2)),
    )
