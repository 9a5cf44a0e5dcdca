-- ===== src/Operand/Sound.antt =====
-- An operand that is accepted lies in the storage of its owner.
use iom.Base.{
  ltb, leb, ◌==◌, ltb→lt, ==→eq, length, get_or, take, product, All, max_word, sub_word,
  invalid_argument, ok, require, >>=-eq-ok, require-eq-ok, ok-injective, ℕ, zero, suc, ◌+◌, ◌-◌,
  ◌*◌, ◌≤◌, ◌<◌, ◌≡◌, refl, sym, ap, subst, Bool, true, false, ◌&&◌, some, List, [], ◌∷◌, arith,
}
use mathlib.Core.Path.{ap₂}
use iom.Tensor.Checked.{padded, checked_mul, bits_to_bytes}
use iom.Tensor.Shape.{TensorSpec, rank, leaf_bits, max_tensor_rank, element_count}
use iom.Tensor.Shape.Counts.{IsShape, all_nonzero_sound}
use iom.Tensor.Codes.{same_type, same_format, same_type-eq}
use iom.Tensor.View.{TensorView, leading_rank, leading_dimensions_of}
use iom.Tensor.View.Address.{plane_at}
use iom.Tensor.Layout.{standard_plane_slot}
use iom.Tensor.Layout.Numbers.{Within}
use iom.Tensor.Layout.Slots.{rows, columns, slot, slot-lt, standard_plane_slot_lem}
use iom.Tensor.Layout.Planes.{leading, padded_elements}
use iom.Operand.{
  Tensor, Tensors, max_plane_from, checked_plane_count, checked_tiled_storage_bytes,
  CheckedViewFacts, check_owner, check_planes, addressed_bytes_of, checked_facts,
  validate_checked_view, validate_checked_spec, same_matrix, device_of,
}
use iom.Operand.Reach.{
  max_plane_from_lem, checked_plane_count_lem, checked_tiled_storage_bytes_lem, WordMatrix,
}

-- The dimensions of a shape are words.
abbrev pub Words : TensorSpec → Type 0
Words spec = All (λ d. d ≤ max_word) spec.shape.dimensions

get_or-word : (dims : List ℕ) (i : ℕ) → All (λ d. d ≤ max_word) dims → get_or dims i 0 ≤ max_word
get_or-word [] i h = omega arith
get_or-word (d ∷ dims) zero h = h.0
get_or-word (d ∷ dims) (suc i) h = get_or-word dims i h.1

take-both :
    (k : ℕ) (dims : List ℕ)
    → All (λ d. 0 < d) dims
    → All (λ d. d ≤ max_word) dims
    → All (λ d. (0 < d) × (d ≤ max_word)) (take k dims)
take-both zero dims p w = tt
take-both (suc k) [] p w = tt
take-both (suc k) (d ∷ dims) p w = ((p.0, w.0), take-both k dims p.1 w.1)

pub both : (a b : Bool) → (a && b) ≡ true → (a ≡ true) × (b ≡ true)
both true b e = (refl, e)
both false b e = cc

subst₂ {ℓ} : {A : Type 0} (P : A → A → Type ℓ) {a b c d : A} → a ≡ b → c ≡ d → P a c → P b d
subst₂ P {b = b} {c = c} p q x = subst (λ z. P b z) q (subst (λ z. P z c) p x)

pub same_matrix-eq :
    (spec owner_spec : TensorSpec)
    → IsShape spec.shape
    → IsShape owner_spec.shape
    → same_matrix spec.shape owner_spec.shape ≡ true
    → (rows spec ≡ rows owner_spec) × (columns spec ≡ columns owner_spec)
same_matrix-eq spec owner_spec v w e =
    let (r, c) = both _ _ e in
    (
      subst₂
          (λ (i j : ℕ). get_or spec.shape.dimensions i 0 ≡ get_or owner_spec.shape.dimensions j 0)
          (back spec v) (back owner_spec w) (==→eq _ _ r),
      subst₂
          (λ (i j : ℕ). get_or spec.shape.dimensions i 0 ≡ get_or owner_spec.shape.dimensions j 0)
          (last spec v) (last owner_spec w) (==→eq _ _ c),
    )
  where
    back : (s : TensorSpec) → IsShape s.shape → sub_word (rank s.shape) 2 ≡ rank s.shape - 2
    back s v = omega (arith, v.at_least, v.at_most)

    last : (s : TensorSpec) → IsShape s.shape → sub_word (rank s.shape) 1 ≡ rank s.shape - 2 + 1
    last s v = omega (arith, v.at_least, v.at_most)

-- What `check_planes` has found.
pub record Selected (v : TensorView) (owner_spec : TensorSpec) (max_plane : ℕ) : Type 0 where
  pub bits : leaf_bits v.spec.data_type ≡ leaf_bits owner_spec.data_type
  pub matrix : (rows v.spec ≡ rows owner_spec) × (columns v.spec ≡ columns owner_spec)
  pub greatest : (cs : List ℕ) → Within cs (leading v.spec) → plane_at v cs ≤ max_plane
  pub owned : max_plane < product (leading owner_spec)

check_planes-Selected :
    (v : TensorView) (owner_spec : TensorSpec) {max_plane : ℕ}
    → IsShape v.spec.shape
    → IsShape owner_spec.shape
    → Words v.spec
    → v.plane_offset ≤ max_word
    → check_planes v owner_spec ≡ ok max_plane
    → Selected v owner_spec max_plane
unfolding check_planes leading_dimensions_of
check_planes-Selected v owner_spec {max_plane} vs os words w e =
    let (u0, two, e0) = >>=-eq-ok (require (leb 2 (rank v.spec.shape)) invalid_argument) _ e in
    let (u1, alike, e1) =
      >>=-eq-ok
        (require
          (same_type v.spec.data_type owner_spec.data_type
            && same_format v.spec.quantization owner_spec.quantization
            && same_matrix v.spec.shape owner_spec.shape)
          invalid_argument)
        _ e0 in
    let (u2, strided, e2) =
      >>=-eq-ok (require (length v.plane_strides == leading_rank v.spec) invalid_argument) _ e1 in
    let (greatest, reached, e3) =
      >>=-eq-ok
        (max_plane_from v.plane_offset (take (leading_rank v.spec) v.spec.shape.dimensions)
          v.plane_strides)
        _ e2 in
    let (planes, counted, e4) = >>=-eq-ok (checked_plane_count owner_spec.shape) _ e3 in
    let (u3, inside, e5) = >>=-eq-ok (require (ltb greatest planes) invalid_argument) _ e4 in
    let same : greatest ≡ max_plane = ok-injective _ _ e5 in
    let kinds = same_type v.spec.data_type owner_spec.data_type in
    let formats = same_format v.spec.quantization owner_spec.quantization in
    let matrices = same_matrix v.spec.shape owner_spec.shape in
    let (others, matrix) =
      both (kinds && formats) matrices
        (require-eq-ok (kinds && formats && matrices) invalid_argument alike) in
    let (kind, format) = both kinds formats others in
    record {
      bits = ap leaf_bits (same_type-eq v.spec.data_type owner_spec.data_type kind);
      matrix = same_matrix-eq v.spec owner_spec vs os matrix;
      greatest = λ cs within.
          subst (λ (n : ℕ). plane_at v cs ≤ n) same
            (max_plane_from_lem v.plane_offset (leading v.spec) v.plane_strides cs w
              (take-both (rank v.spec.shape - 2) v.spec.shape.dimensions vs.nonzero words)
              (subst
                (λ (k : ℕ).
                  max_plane_from v.plane_offset (take k v.spec.shape.dimensions) v.plane_strides
                  ≡ ok greatest)
                leads reached)
              within);
      owned =
          subst (λ (n : ℕ). n < product (leading owner_spec)) same
            (subst (λ (n : ℕ). greatest < n) (checked_plane_count_lem owner_spec os counted)
              (ltb→lt greatest planes
                (require-eq-ok (ltb greatest planes) invalid_argument inside)));
    }
  where
    leads : leading_rank v.spec ≡ rank v.spec.shape - 2
    leads = omega (arith, vs.at_least, vs.at_most)

pub validate_checked_spec-IsShape :
    (spec : TensorSpec) → validate_checked_spec spec ≡ ok tt → IsShape spec.shape
unfolding validate_checked_spec
validate_checked_spec-IsShape spec e =
    let (u0, two, e0) = >>=-eq-ok (require (leb 2 (rank spec.shape)) invalid_argument) _ e in
    let (u1, eight, e1) =
      >>=-eq-ok (require (leb (rank spec.shape) max_tensor_rank) invalid_argument) _ e0 in
    let low = require-eq-ok _ _ two in
    let high = require-eq-ok _ _ eight in
    record {
      at_least = ground arith;
      at_most = ground arith;
      nonzero = all_nonzero_sound spec.shape.dimensions e1;
    }

-- An element of a plane below `planes` ends inside what holds all elements of that many planes.
element_fits :
    (spec owner_spec : TensorSpec) (plane row column planes bits bytes : ℕ)
    → IsShape spec.shape
    → (rows spec ≡ rows owner_spec) × (columns spec ≡ columns owner_spec)
    → plane < planes
    → row < rows spec
    → column < columns spec
    → planes * (padded (rows owner_spec) * padded (columns owner_spec)) ≤ max_word
    → planes * (padded (rows owner_spec) * padded (columns owner_spec)) * bits ≤ bytes * 8
    → (s : ℕ) × (standard_plane_slot spec plane row column ≡ ok s) × ((s + 1) * bits ≤ bytes * 8)
element_fits spec owner_spec plane row column planes bits bytes v same p r c counted fits =
    let all : planes * (padded (rows spec) * padded (columns spec))
        ≡ planes * (padded (rows owner_spec) * padded (columns owner_spec)) =
      ap₂ (λ (a b : ℕ). planes * (padded a * padded b)) same.0 same.1 in
    let inside = slot-lt (rows spec) (columns spec) planes plane row column p r c in
    (
      slot (rows spec) (columns spec) plane row column,
      standard_plane_slot_lem spec planes plane row column v.at_least (omega (arith, v.at_most)) p r
          c (subst (λ (n : ℕ). n ≤ max_word) (sym all) counted),
      mul-up (slot (rows spec) (columns spec) plane row column)
          (planes * (padded (rows owner_spec) * padded (columns owner_spec))) bits (bytes * 8)
          (subst (λ (n : ℕ). slot (rows spec) (columns spec) plane row column < n) all inside) fits,
    )
  where
    mul-up : (s n b m : ℕ) → s < n → n * b ≤ m → (s + 1) * b ≤ m
    mul-up s n b m h k = grind arith

check_owner-device :
    (tensors : Tensors) (device : ℕ) (v : TensorView) (t : Tensor) {u : Unit {0}}
    → check_owner tensors device v t ≡ ok u
    → t.device ≡ device
unfolding check_owner
check_owner-device tensors device v t e =
    let here = t.device == device in
    let there = device_of tensors t.full_view == device in
    let owner = t.full_view.owner == v.owner in
    let (u, identities, e') = >>=-eq-ok (require (here && there && owner) invalid_argument) _ e in
    let (devices, same) =
      both (here && there) owner
        (require-eq-ok (here && there && owner) invalid_argument identities) in
    ==→eq t.device device (both here there devices).0

-- For a view whose specification `validate_checked_spec` accepts, whose plane offset and
-- dimensions are words and whose registered owner has a valid shape: where
-- `validate_checked_view` accepts the view, the owner is on the device of the call, and every
-- element of the view, at leading coordinates, a row and a column within its dimensions, has a
-- standard slot that ends within the reported storage bytes.
pub validate_checked_view_fits :
    (tensors : Tensors) (device : ℕ) (v : TensorView) (t : Tensor) (facts : CheckedViewFacts)
    (cs : List ℕ) (row column : ℕ)
    → tensors v.owner ≡ some t
    → IsShape t.full_view.spec.shape
    → Words v.spec
    → v.plane_offset ≤ max_word
    → validate_checked_spec v.spec ≡ ok tt
    → validate_checked_view tensors device v ≡ ok facts
    → Within cs (leading v.spec)
    → row < rows v.spec
    → column < columns v.spec
    → (t.device ≡ device)
      × (s : ℕ) × (standard_plane_slot v.spec (plane_at v cs) row column ≡ ok s)
      × ((s + 1) * leaf_bits v.spec.data_type ≤ facts.storage_bytes * 8)
unfolding validate_checked_view checked_facts check_owner
validate_checked_view_fits tensors device v t facts cs row column found os words w spec e within r
      c =
    let vs = validate_checked_spec-IsShape v.spec spec in
    let e' = rw (found, validate_checked_view) at e in
    let (u0, owned, e0) = >>=-eq-ok (check_owner tensors device v t) _ e' in
    let (max_plane, planes, e1) = >>=-eq-ok (check_planes v t.full_view.spec) _ e0 in
    let (addressed, reach, e2) = >>=-eq-ok (addressed_bytes_of v.spec max_plane) _ e1 in
    let (storage, stored, e3) = >>=-eq-ok (checked_tiled_storage_bytes t.full_view.spec) _ e2 in
    let selected = check_planes-Selected v t.full_view.spec vs os words w planes in
    let (u1, held, e4) = >>=-eq-ok (require (leb addressed storage) invalid_argument) _ e3 in
    let (count, counted, e5) = >>=-eq-ok (element_count v.spec.shape) _ e4 in
    let (bits, multiplied, e6) = >>=-eq-ok (checked_mul count (leaf_bits v.spec.data_type)) _ e5 in
    let (bytes, rounded, e7) = >>=-eq-ok (bits_to_bytes bits) _ e6 in
    let same : storage ≡ facts.storage_bytes =
      ap (λ (f : CheckedViewFacts). f.storage_bytes) (ok-injective _ facts e7) in
    let owner_words : WordMatrix t.full_view.spec = (
      subst (λ (n : ℕ). n ≤ max_word) selected.matrix.0
          (get_or-word v.spec.shape.dimensions (rank v.spec.shape - 2) words),
      subst (λ (n : ℕ). n ≤ max_word) selected.matrix.1
          (get_or-word v.spec.shape.dimensions (rank v.spec.shape - 2 + 1) words),
    ) in
    let (counted_all, fits) =
      checked_tiled_storage_bytes_lem t.full_view.spec os owner_words stored in
    let (s, found_slot, ends) =
      element_fits v.spec t.full_view.spec (plane_at v cs) row column
        (product (leading t.full_view.spec)) (leaf_bits v.spec.data_type) facts.storage_bytes vs
        selected.matrix
        (le-lt (plane_at v cs) max_plane (product (leading t.full_view.spec))
          (selected.greatest cs within) selected.owned)
        r c counted_all
        (subst₂ (λ (b m : ℕ). padded_elements t.full_view.spec * b ≤ m * 8) (sym selected.bits) same
          fits) in
    (check_owner-device tensors device v t owned, s, found_slot, ends)
  where
    le-lt : (a b c : ℕ) → a ≤ b → b < c → a < c
    le-lt a b c h k = omega arith
