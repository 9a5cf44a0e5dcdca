-- ===== src/Tokenizer/Utf8/Scalars.antt =====
-- The UTF-8 check against the encoding of Unicode scalar values.
use iom.Base.{
  ltb, if◌then◌else◌, length, All, ok, ℕ, zero, suc, ◌+◌, ◌-◌, ◌*◌, ◌/◌, ◌%◌, ◌≤◌, ◌<◌, ◌≡◌, refl,
  sym, ap, ◌∙◌, ◌↔◌, ◌⊎◌, inl, inr, none, some, List, [], ◌∷◌, ◌++◌, arith,
}
use iom.Tokenizer.Utf8.{
  lead_length, second_min, second_max, continuation_bytes, check_sequence, validate_from,
  validate_encode_utf8,
}

-- A scalar value is a code point that is no surrogate.
abbrev pub IsScalar : ℕ → Type 0
IsScalar c = (c < 55296) ⊎ ((57343 < c) × (c < 1114112))

unfoldable pub utf8 : ℕ → List ℕ
utf8 c =
    if ltb c 128
    then c ∷ []
    else if ltb c 2048
    then (192 + c / 64) ∷ (128 + c % 64) ∷ []
    else if ltb c 65536
    then (224 + c / 4096) ∷ (128 + c / 64 % 64) ∷ (128 + c % 64) ∷ []
    else (240 + c / 262144) ∷ (128 + c / 4096 % 64) ∷ (128 + c / 64 % 64) ∷ (128 + c % 64) ∷ []

unfoldable pub utf8_all : List ℕ → List ℕ
utf8_all [] = []
utf8_all (c ∷ scalars) = utf8 c ++ utf8_all scalars

-- The text is the encoding of scalar values.
abbrev pub IsUtf8 : List ℕ → Type 0
IsUtf8 text = (scalars : List ℕ) × All IsScalar scalars × (text ≡ utf8_all scalars)

lead_cases :
    (lead : ℕ)
    → ((lead ≤ 127) × (lead_length lead ≡ some 1))
      ⊎ ((194 ≤ lead) × (lead ≤ 223) × (lead_length lead ≡ some 2))
      ⊎ ((224 ≤ lead) × (lead ≤ 239) × (lead_length lead ≡ some 3))
      ⊎ ((240 ≤ lead) × (lead ≤ 244) × (lead_length lead ≡ some 4))
      ⊎ (lead_length lead ≡ none)
unfolding lead_length
lead_cases lead = ground arith

one_byte : (a : ℕ) → a ≤ 127 → (c : ℕ) × IsScalar c × (utf8 c ≡ a ∷ [])
unfolding utf8
one_byte a h = (a, inl (omega arith), ground arith)

two_bytes :
    (a b : ℕ) → 194 ≤ a → a ≤ 223 → 128 ≤ b → b ≤ 191 → (c : ℕ) × IsScalar c × (utf8 c ≡ a ∷ b ∷ [])
unfolding utf8
two_bytes a b h k l m = ((a - 192) * 64 + (b - 128), inl (omega arith), ground arith)

three_bytes :
    (a b c : ℕ)
    → 224 ≤ a
    → a ≤ 239
    → second_min a ≤ b
    → b ≤ second_max a
    → 128 ≤ b
    → b ≤ 191
    → 128 ≤ c
    → c ≤ 191
    → (s : ℕ) × IsScalar s × (utf8 s ≡ a ∷ b ∷ c ∷ [])
unfolding utf8 second_min second_max
three_bytes a b c h k l m n o p q =
    ((a - 224) * 4096 + (b - 128) * 64 + (c - 128), ground arith, ground arith)

four_bytes :
    (a b c d : ℕ)
    → 240 ≤ a
    → a ≤ 244
    → second_min a ≤ b
    → b ≤ second_max a
    → 128 ≤ b
    → b ≤ 191
    → 128 ≤ c
    → c ≤ 191
    → 128 ≤ d
    → d ≤ 191
    → (s : ℕ) × IsScalar s × (utf8 s ≡ a ∷ b ∷ c ∷ d ∷ [])
unfolding utf8 second_min second_max
four_bytes a b c d h k l m n o p q r s = (
  (a - 240) * 262144 + (b - 128) * 4096 + (c - 128) * 64 + (d - 128),
  inr (ground arith),
  ground arith,
)

-- A text that passes, by the sequence that it begins with.
record Passed (a : ℕ) (rest : List ℕ) : Type 0 where
  scalar : ℕ
  tail : List ℕ
  is_scalar : IsScalar scalar
  split : a ∷ rest ≡ utf8 scalar ++ tail
  shorter : length tail ≤ length rest
  passed : validate_from 0 tail ≡ ok tt

Passed-one :
    (a : ℕ) (rest : List ℕ)
    → a ≤ 127
    → lead_length a ≡ some 1
    → validate_from 0 (a ∷ rest) ≡ ok tt
    → Passed a rest
unfolding validate_from check_sequence continuation_bytes
Passed-one a rest h l e =
    let (c, v, same) = one_byte a h in
    record {
      scalar = c;
      tail = rest;
      is_scalar = v;
      split = ap (λ (t : List ℕ). t ++ rest) (sym same);
      shorter = omega arith;
      passed = ground (arith, l);
    }

Passed-two :
    (a : ℕ) (rest : List ℕ)
    → 194 ≤ a
    → a ≤ 223
    → lead_length a ≡ some 2
    → validate_from 0 (a ∷ rest) ≡ ok tt
    → Passed a rest
unfolding validate_from check_sequence continuation_bytes
Passed-two a [] h k l e = ground (arith, l)
Passed-two a (b ∷ tail) h k l e =
    let low : 128 ≤ b = ground (arith, l) in
    let high : b ≤ 191 = ground (arith, l) in
    let (c, v, same) = two_bytes a b h k low high in
    record {
      scalar = c;
      tail = tail;
      is_scalar = v;
      split = ap (λ (t : List ℕ). t ++ tail) (sym same);
      shorter = omega arith;
      passed = ground (arith, l);
    }

Passed-three :
    (a : ℕ) (rest : List ℕ)
    → 224 ≤ a
    → a ≤ 239
    → lead_length a ≡ some 3
    → validate_from 0 (a ∷ rest) ≡ ok tt
    → Passed a rest
unfolding validate_from check_sequence continuation_bytes
Passed-three a [] h k l e = ground (arith, l)
Passed-three a (b ∷ []) h k l e = ground (arith, l)
Passed-three a (b ∷ c ∷ tail) h k l e =
    let least : second_min a ≤ b = ground (arith, l) in
    let greatest : b ≤ second_max a = ground (arith, l) in
    let bytes : (128 ≤ b) × (b ≤ 191) × (128 ≤ c) × (c ≤ 191) = ground (arith, l) in
    let (s, v, same) = three_bytes a b c h k least greatest bytes.0 bytes.1 bytes.2 bytes.3 in
    record {
      scalar = s;
      tail = tail;
      is_scalar = v;
      split = ap (λ (t : List ℕ). t ++ tail) (sym same);
      shorter = omega arith;
      passed = ground (arith, l);
    }

Passed-four :
    (a : ℕ) (rest : List ℕ)
    → 240 ≤ a
    → a ≤ 244
    → lead_length a ≡ some 4
    → validate_from 0 (a ∷ rest) ≡ ok tt
    → Passed a rest
unfolding validate_from check_sequence continuation_bytes
Passed-four a [] h k l e = ground (arith, l)
Passed-four a (b ∷ []) h k l e = ground (arith, l)
Passed-four a (b ∷ c ∷ []) h k l e = ground (arith, l)
Passed-four a (b ∷ c ∷ d ∷ tail) h k l e =
    let least : second_min a ≤ b = ground (arith, l) in
    let greatest : b ≤ second_max a = ground (arith, l) in
    let bytes : (128 ≤ b) × (b ≤ 191) × (128 ≤ c) × (c ≤ 191) × (128 ≤ d) × (d ≤ 191) =
      ground (arith, l) in
    let (s, v, same) =
      four_bytes a b c d h k least greatest bytes.0 bytes.1 bytes.2 bytes.3 bytes.4 bytes.5 in
    record {
      scalar = s;
      tail = tail;
      is_scalar = v;
      split = ap (λ (t : List ℕ). t ++ tail) (sym same);
      shorter = omega arith;
      passed = ground (arith, l);
    }

no_sequence :
    (a : ℕ) (rest : List ℕ)
    → lead_length a ≡ none
    → validate_from 0 (a ∷ rest) ≡ ok tt
    → Passed a rest
unfolding validate_from
no_sequence a rest l e = ground (arith, l)

first_scalar : (a : ℕ) (rest : List ℕ) → validate_from 0 (a ∷ rest) ≡ ok tt → Passed a rest
first_scalar a rest e = elim (lead_cases a) [
  | inl (h, l) ↦ Passed-one a rest h l e
  | inr (inl (h, k, l)) ↦ Passed-two a rest h k l e
  | inr (inr (inl (h, k, l))) ↦ Passed-three a rest h k l e
  | inr (inr (inr (inl (h, k, l)))) ↦ Passed-four a rest h k l e
  | inr (inr (inr (inr l))) ↦ no_sequence a rest l e
]

validate_sound :
    (bound : ℕ) (text : List ℕ) → length text ≤ bound → validate_from 0 text ≡ ok tt → IsUtf8 text
unfolding utf8_all
validate_sound bound [] h e = ([], tt, refl)
validate_sound zero (a ∷ rest) h e = absurd (omega arith)
validate_sound (suc bound) (a ∷ rest) h e =
    let p = first_scalar a rest e in
    let (scalars, v, same) = validate_sound bound p.tail (omega (arith, p.shorter)) p.passed in
    (p.scalar ∷ scalars, (p.is_scalar, v), p.split ∙ ap (λ (t : List ℕ). utf8 p.scalar ++ t) same)

-- The encoding of a scalar passes, whatever follows it.
validate_utf8 :
    (c : ℕ) (tail : List ℕ) → IsScalar c → validate_from 0 (utf8 c ++ tail) ≡ validate_from 0 tail
unfolding validate_from check_sequence continuation_bytes lead_length second_min second_max utf8
validate_utf8 c tail v = ground arith

validate_complete :
    (scalars : List ℕ) → All IsScalar scalars → validate_from 0 (utf8_all scalars) ≡ ok tt
unfolding utf8_all
validate_complete [] v = unfold validate_from in refl
validate_complete (c ∷ scalars) v =
    validate_utf8 c (utf8_all scalars) v.0 ∙ validate_complete scalars v.1

-- `validate_encode_utf8` accepts a text exactly if its bytes are the UTF-8 encodings of some
-- Unicode scalar values in a row; surrogates, overlong forms and values past U+10FFFF are no
-- such encodings.
pub validate_encode_utf8_iff : (text : List ℕ) → (validate_encode_utf8 text ≡ ok tt) ↔ IsUtf8 text
unfolding validate_encode_utf8
validate_encode_utf8_iff text = (
  validate_sound (length text) text (omega arith),
  λ u. ap (validate_from 0) u.2 ∙ validate_complete u.0 u.1,
)
