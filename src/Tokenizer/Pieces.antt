-- ===== src/Tokenizer/Pieces.antt =====
-- src/tokenizer.cpp: vocabulary pieces, byte fallback pieces, and `Tokenizer::decode`.
pub mod Bytes
pub mod Sizes
pub mod Decode
use Prim.Native.Nat.{bit_or}
use iom.Base.{
  ltb, leb, ◌==◌, ◌!=◌, if◌then◌else◌, ltb→lt, lt→ltb, ltb→le, le→ltb, ==→eq, eq→==, Bool-cases,
  Option-cases, length, get_elem?, get_or, set, take, drop, replicate, length-append, length-set,
  length-replicate, get_or-set_self, get_or-set_ne, sum, product, All, word_mod, max_word, add_word,
  sub_word, mul_word, Exception, invalid_argument, overflow_error, out_of_range, bad_alloc,
  runtime_error, logic_error, Result, ok, throws, ◌>>=◌, ◌>>◌, require, >>=-eq-ok, require-eq-ok,
  ok-injective, ℕ, zero, suc, ◌+◌, ◌-◌, ◌*◌, ◌/◌, ◌%◌, ◌^◌, ◌≤◌, ◌<◌, bit_and, ◌≡◌, refl, sym, ap,
  subst, ◌∙◌, ◌≢◌, ◌↔◌, ◌⊎◌, inl, inr, Bool, true, false, not, ◌&&◌, ◌||◌, Option, none, some, List,
  [], ◌∷◌, ◌++◌, map, arith, dec_lt, ℕ_discrete,
}
use iom.Tensor.Checked.{checked_add}

-- `kHex[digit]`
abbrev pub hex : ℕ → ℕ
hex digit = if ltb digit 10 then 48 + digit else 55 + digit

-- "<0x", two digits, ">"
unfoldable pub byte_piece : ℕ → List ℕ
byte_piece byte = 60 ∷ 48 ∷ 120 ∷ hex (bit_and (byte / 16) 15) ∷ hex (bit_and byte 15) ∷ 62 ∷ []

unfoldable pub hex_digit : ℕ → ℕ
hex_digit digit =
    if leb 48 digit && leb digit 57
    then digit - 48
    else if leb 65 digit && leb digit 70
    then digit - 65 + 10
    else 255

-- The byte, if the piece stands for one.
unfoldable pub is_byte_fallback_piece : List ℕ → Option ℕ
is_byte_fallback_piece piece =
    let high = hex_digit (get_or piece 3 0) in
    let low = hex_digit (get_or piece 4 0) in
    if length piece != 6
      || get_or piece 0 0 != 60
      || get_or piece 1 0 != 48
      || get_or piece 2 0 != 120
      || get_or piece 5 0 != 62
    then none
    else if high == 255 || low == 255
    then none
    else some (bit_or (high * 16) low)

pub record DecoderState : Type 0 where
  pub replace_pattern : List ℕ
  pub replace_content : List ℕ
  pub strip_content : List ℕ
  pub strip_start : ℕ
  pub strip_stop : ℕ

-- Whether the text begins with the pattern.
abbrev pub starts_with : List ℕ → List ℕ → Bool
starts_with [] text = true
starts_with (p ∷ pattern) [] = false
starts_with (p ∷ pattern) (c ∷ text) = p == c && starts_with pattern text

abbrev pub one_further : Option ℕ → Option ℕ
one_further none = none
one_further (some n) = some (suc n)

-- `piece.find(pattern, cursor)`, counted from the cursor: how far ahead the first match begins.
unfoldable pub find : List ℕ → List ℕ → Option ℕ
find pattern [] = if length pattern == 0 then some 0 else none
find pattern (c ∷ text) =
    if starts_with pattern (c ∷ text) then some 0 else one_further (find pattern text)

unfoldable pub checked_decode_size_add : ℕ → ℕ → Result ℕ
checked_decode_size_add current addition =
    if ltb (max_word - current) addition
    then throws overflow_error
    else ok (add_word current addition)

-- The loop of `decoded_piece_size` over what is left of the piece. A match takes a byte at least,
-- so that more rounds than bytes are enough.
unfoldable pub size_from : ℕ → DecoderState → List ℕ → ℕ → Result ℕ
size_from zero d text total = throws logic_error
size_from (suc rounds) d text total = elim (find d.replace_pattern text) [
  | none ↦ checked_decode_size_add total (length text)
  | some ahead ↦ checked_decode_size_add total ahead >>= λ before.
      checked_decode_size_add before (length d.replace_content) >>= λ total'.
      size_from rounds d (drop (length d.replace_pattern + ahead) text) total'
]

unfoldable pub decoded_piece_size : List ℕ → DecoderState → Result ℕ
decoded_piece_size piece d = elim (is_byte_fallback_piece piece) [
  | some byte ↦ ok 1
  | none ↦
      if length d.replace_pattern == 0
      then ok (length piece)
      else size_from (suc (length piece)) d piece 0
]

-- The loop of `append_decoded_piece`.
unfoldable pub append_from : ℕ → DecoderState → List ℕ → List ℕ → Result (List ℕ)
append_from zero d text output = throws logic_error
append_from (suc rounds) d text output = elim (find d.replace_pattern text) [
  | none ↦ ok (output ++ text)
  | some ahead ↦
      append_from rounds d (drop (length d.replace_pattern + ahead) text)
        ((output ++ take ahead text) ++ d.replace_content)
]

unfoldable pub append_decoded_piece : List ℕ → List ℕ → DecoderState → Result (List ℕ)
append_decoded_piece output piece d = elim (is_byte_fallback_piece piece) [
  | some byte ↦ ok (output ++ (byte ∷ []))
  | none ↦
      if length d.replace_pattern == 0
      then ok (output ++ piece)
      else append_from (suc (length piece)) d piece output
]

-- The unknown, begin and end tokens.
unfoldable pub is_skipped_special_id : ℕ → Bool
is_skipped_special_id id = id == 0 || id == 1 || id == 2

-- The loops of `decode`. `limit` is the greatest size of a string.
unfoldable pub check_ids : ℕ → List ℕ → Result (Unit {0})
check_ids n [] = ok tt
check_ids n (id ∷ ids) = do require (ltb id n) invalid_argument; check_ids n ids

module _ (d : DecoderState) (vocabulary : List (List ℕ)) (skip : Bool) where
  unfoldable pub output_size : List ℕ → ℕ → Result ℕ
  output_size [] total = ok total
  output_size (id ∷ ids) total = elim (skip && is_skipped_special_id id) [
    | true ↦ output_size ids total
    | false ↦ decoded_piece_size (get_or vocabulary id []) d >>= λ n.
        checked_decode_size_add total n >>= λ total'. output_size ids total'
  ]

  unfoldable pub append_pieces : List ℕ → List ℕ → Result (List ℕ)
  append_pieces [] output = ok output
  append_pieces (id ∷ ids) output = elim (skip && is_skipped_special_id id) [
    | true ↦ append_pieces ids output
    | false ↦ append_decoded_piece output (get_or vocabulary id []) d >>= λ output'.
        append_pieces ids output'
  ]

abbrev pub is_space : List ℕ → Bool
is_space (c ∷ []) = c == 32
is_space _ = false

-- Drops a leading space.
abbrev pub erase_space : List ℕ → List ℕ
erase_space [] = []
erase_space (c ∷ text) = if c == 32 then text else c ∷ text

unfoldable pub strip : DecoderState → List ℕ → List ℕ
strip d result =
    if d.strip_start == 1 && d.strip_stop == 0 && is_space d.strip_content
    then erase_space result
    else result

unfoldable pub decode : ℕ → DecoderState → List (List ℕ) → Bool → List ℕ → Result (List ℕ)
decode limit d vocabulary skip ids = do
  check_ids (length vocabulary) ids
  size ← output_size d vocabulary skip ids 0
  require (leb size limit) overflow_error
  result ← append_pieces d vocabulary skip ids []
  ok (strip d result)
