-- ===== src/Selection/Admission.antt =====
-- What `GreedyTokenSelector` admits: the shape of the logits and the host scratch.
use iom.Base.{
  ◌==◌, ◌!=◌, length, get_or, max_word, invalid_argument, ok, require, >>=-eq-ok, require-eq-ok, ℕ,
  ◌+◌, ◌*◌, ◌≤◌, ◌<◌, ◌≡◌, refl, ◌⊎◌, true, ◌&&◌, List, [], ◌∷◌, arith,
}
use iom.Tensor.Checked.{checked_mul_lem}
use iom.Tensor.Shape.{TensorSpec, DataType, bf16, rank, is_none_format}
use iom.Selection.{validate_logits_shape, validate_host_scratch, is_bf16}

-- A host range apart from the storage of the logits, or empty.
pub record IsScratch (host size required owner bytes : ℕ) : Type 0 where
  pub enough : required ≤ size
  pub stored : 0 < owner
  pub apart :
      (size ≡ 0)
      ⊎ ((0 < host)
          × (host + size ≤ max_word)
          × (owner + bytes ≤ max_word)
          × ((host + size ≤ owner) ⊎ (owner + bytes ≤ host)))

-- Where `validate_host_scratch` accepts a host range for a nonempty owner storage, with both
-- addresses words, the range has the required bytes, the owner address is not null, and the
-- range is empty or has a nonnull address and both ranges end within the address space and do
-- not meet.
pub validate_host_scratch_sound :
    (host size required owner bytes : ℕ)
    → host ≤ max_word
    → owner ≤ max_word
    → 0 < bytes
    → validate_host_scratch host size required owner bytes ≡ ok tt
    → IsScratch host size required owner bytes
unfolding validate_host_scratch
validate_host_scratch_sound host size required owner bytes wh wo pos e = record {
  enough = ground arith;
  stored = ground arith;
  apart = ground arith;
}

two_dimensions : (dims : List ℕ) → length dims ≡ 2 → dims ≡ get_or dims 0 0 ∷ get_or dims 1 0 ∷ []
two_dimensions [] e = absurd (omega arith)
two_dimensions (a ∷ []) e = absurd (omega arith)
two_dimensions (a ∷ b ∷ []) e = refl
two_dimensions (a ∷ b ∷ c ∷ dims) e = absurd (omega arith)

bf16_only : (t : DataType) → is_bf16 t ≡ true → t ≡ bf16
bf16_only bf16 e = refl
bf16_only _ e = cc

-- Where `validate_logits_shape` accepts, the logits are BF16 of plain format and have the
-- dimensions one and the vocabulary, which is not zero, and the byte count that it yields is
-- twice the vocabulary and a word.
pub validate_logits_shape_sound :
    (spec : TensorSpec) (vocabulary : ℕ) {bytes : ℕ}
    → validate_logits_shape spec vocabulary ≡ ok bytes
    → (spec.data_type ≡ bf16)
      × (is_none_format spec.quantization ≡ true)
      × (spec.shape.dimensions ≡ 1 ∷ vocabulary ∷ [])
      × (0 < vocabulary)
      × (bytes ≡ vocabulary * 2)
      × (bytes ≤ max_word)
unfolding validate_logits_shape
validate_logits_shape_sound spec vocabulary {bytes} e =
    let (_, e1, r1) = >>=-eq-ok (require (is_bf16 spec.data_type) invalid_argument) _ e in
    let (_, e2, r2) =
      >>=-eq-ok (require (is_none_format spec.quantization) invalid_argument) _ r1 in
    let rows = get_or spec.shape.dimensions 0 0 in
    let columns = get_or spec.shape.dimensions 1 0 in
    let shape_ok = rank spec.shape == 2 && rows == 1 && columns != 0 in
    let size_ok = vocabulary != 0 && vocabulary == columns in
    let (_, e3, r3) = >>=-eq-ok (require shape_ok invalid_argument) _ r2 in
    let (_, e4, r4) = >>=-eq-ok (require size_ok invalid_argument) _ r3 in
    let shaped = require-eq-ok shape_ok invalid_argument e3 in
    let sized = require-eq-ok size_ok invalid_argument e4 in
    let same : get_or spec.shape.dimensions 1 0 ≡ vocabulary = ground arith in
    let one : get_or spec.shape.dimensions 0 0 ≡ 1 = ground arith in
    let two : length spec.shape.dimensions ≡ 2 = ground arith in
    (
      bf16_only spec.data_type (require-eq-ok _ _ e1),
      require-eq-ok _ _ e2,
      rw (one, same) at (two_dimensions spec.shape.dimensions two),
      ground arith,
      ground (arith, checked_mul_lem vocabulary 2),
      ground (arith, checked_mul_lem vocabulary 2),
    )
