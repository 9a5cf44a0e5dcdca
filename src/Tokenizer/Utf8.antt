-- ===== src/Tokenizer/Utf8.antt =====
-- src/tokenizer.cpp: the UTF-8 check before encoding, and the length of a scalar after it.
pub mod Scalars
use iom.Base.{
  ltb, leb, ◌==◌, ◌!=◌, if◌then◌else◌, ltb→lt, lt→ltb, ltb→le, le→ltb, ==→eq, eq→==, Bool-cases,
  Option-cases, length, get_elem?, get_or, set, take, drop, replicate, length-append, length-set,
  length-replicate, get_or-set_self, get_or-set_ne, sum, product, All, word_mod, max_word, add_word,
  sub_word, mul_word, Exception, invalid_argument, overflow_error, out_of_range, bad_alloc,
  runtime_error, logic_error, Result, ok, throws, ◌>>=◌, ◌>>◌, require, >>=-eq-ok, require-eq-ok,
  ok-injective, ℕ, zero, suc, ◌+◌, ◌-◌, ◌*◌, ◌/◌, ◌%◌, ◌^◌, ◌≤◌, ◌<◌, bit_and, ◌≡◌, refl, sym, ap,
  subst, ◌∙◌, ◌≢◌, ◌↔◌, ◌⊎◌, inl, inr, Bool, true, false, not, ◌&&◌, ◌||◌, Option, none, some, List,
  [], ◌∷◌, ◌++◌, map, arith, dec_lt, ℕ_discrete,
}

-- The length of the sequence that a leading byte begins.
unfoldable pub lead_length : ℕ → Option ℕ
lead_length lead =
    if leb lead 127
    then some 1
    else if leb 194 lead && leb lead 223
    then some 2
    else if lead == 224
    then some 3
    else if (leb 225 lead && leb lead 236) || lead == 237 || (leb 238 lead && leb lead 239)
    then some 3
    else if lead == 240
    then some 4
    else if leb 241 lead && leb lead 243
    then some 4
    else if lead == 244
    then some 4
    else none

unfoldable pub second_min : ℕ → ℕ
second_min lead = if lead == 224 then 160 else if lead == 240 then 144 else 128

unfoldable pub second_max : ℕ → ℕ
second_max lead = if lead == 237 then 159 else if lead == 244 then 143 else 191

abbrev pub second_in_range : ℕ → List ℕ → Bool
second_in_range lead [] = true
second_in_range lead (second ∷ rest) = leb (second_min lead) second && leb second (second_max lead)

-- The loop over the continuation bytes.
unfoldable pub continuation_bytes : ℕ → List ℕ → Bool
continuation_bytes zero rest = true
continuation_bytes (suc n) [] = false
continuation_bytes (suc n) (byte ∷ rest) = leb 128 byte && leb byte 191 && continuation_bytes n rest

-- The checks of one sequence, `length` bytes from its leading byte on.
unfoldable pub check_sequence : ℕ → ℕ → List ℕ → Result (Unit {0})
check_sequence n lead rest = do
  require (leb n (suc (length rest))) invalid_argument
  require (n == 1 || second_in_range lead rest) invalid_argument
  require (continuation_bytes (n - 1) rest) invalid_argument

-- The loop over the text; `skip` bytes of the sequence at hand have been checked.
unfoldable pub validate_from : ℕ → List ℕ → Result (Unit {0})
validate_from skip [] = ok tt
validate_from (suc skip) (byte ∷ rest) = validate_from skip rest
validate_from zero (lead ∷ rest) = elim (lead_length lead) [
  | none ↦ throws invalid_argument
  | some n ↦ check_sequence n lead rest >> validate_from (n - 1) rest
]

unfoldable pub validate_encode_utf8 : List ℕ → Result (Unit {0})
validate_encode_utf8 text = validate_from 0 text

unfoldable pub encode_utf8_scalar_length : List ℕ → ℕ → Result ℕ
encode_utf8_scalar_length text offset = elim (get_elem? text offset) [
  | none ↦ throws logic_error
  | some lead ↦
      if leb lead 127
      then ok 1
      else if leb lead 223
      then ok 2
      else if leb lead 239
      then ok 3
      else if leb lead 244
      then ok 4
      else throws logic_error
]
