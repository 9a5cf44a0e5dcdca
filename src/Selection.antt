-- ===== src/Selection.antt =====
-- src/token_selection.cpp: the host side of greedy token selection over BF16 logits.
pub mod Order
pub mod Scan
pub mod Admission
pub mod Tests
use Prim.Native.Nat.{bit_or}
use iom.Base.{
  ltb, leb, ◌==◌, ◌!=◌, if◌then◌else◌, ltb→lt, lt→ltb, ltb→le, le→ltb, ==→eq, eq→==, Bool-cases,
  Option-cases, length, get_elem?, get_or, set, take, drop, replicate, length-append, length-set,
  length-replicate, get_or-set_self, get_or-set_ne, sum, product, All, word_mod, max_word, add_word,
  sub_word, mul_word, Exception, invalid_argument, overflow_error, out_of_range, bad_alloc,
  runtime_error, logic_error, Result, ok, throws, ◌>>=◌, ◌>>◌, require, >>=-eq-ok, require-eq-ok,
  ok-injective, ℕ, zero, suc, ◌+◌, ◌-◌, ◌*◌, ◌/◌, ◌%◌, ◌^◌, ◌≤◌, ◌<◌, bit_and, ◌≡◌, refl, sym, ap,
  subst, ◌∙◌, ◌≢◌, ◌↔◌, ◌⊎◌, inl, inr, Bool, true, false, not, ◌&&◌, ◌||◌, Option, none, some, List,
  [], ◌∷◌, ◌++◌, map, arith, dec_lt, ℕ_discrete,
}
use iom.Tensor.Checked.{checked_mul}
use iom.Tensor.Shape.{TensorSpec, DataType, bf16, rank, is_none_format}

-- A finite IEEE single: its sign, and its magnitude in units of the least subnormal.
pub record Float : Type 0 where
  pub negative : Bool
  pub magnitude : ℕ

-- `bytes[i]`; the caller passes two bytes for each logit.
abbrev pub raw : List ℕ → ℕ → ℕ
raw bytes i = get_or bytes i 0

unfoldable pub load_bf16 : List ℕ → ℕ → ℕ
load_bf16 bytes index =
    let offset = mul_word index 2 in bit_or (raw bytes offset) (raw bytes (add_word offset 1) * 256)

-- The value of the single whose upper half the bits are.
unfoldable pub decode_bf16 : ℕ → Float
decode_bf16 bits =
    let word = bits * 2 ^ 16 in
    let exponent = word / 2 ^ 23 % 256 in
    let fraction = word % 2 ^ 23 in
    record {
      negative = word / 2 ^ 31 % 2 == 1;
      magnitude = if exponent == 0 then fraction else (2 ^ 23 + fraction) * 2 ^ (exponent - 1);
    }

-- `a > b` on finite values; the two zeros are equal.
unfoldable pub greater : Float → Float → Bool
greater a b =
    if a.negative
    then (if b.negative then ltb a.magnitude b.magnitude else false)
    else if b.negative
    then a.magnitude != 0 || b.magnitude != 0
    else ltb b.magnitude a.magnitude

-- Infinities and NaNs have all exponent bits set.
unfoldable pub nonfinite : ℕ → Bool
nonfinite bits = bit_and bits 32640 == 32640

-- The loop of `scan_logits`, with `rounds` rounds left.
unfoldable pub scan_from : List ℕ → ℕ → ℕ → Float → ℕ → Result ℕ
scan_from bytes zero id best winner = ok winner
scan_from bytes (suc rounds) id best winner =
    let bits = load_bf16 bytes id in
    let value = decode_bf16 bits in
    require (not (nonfinite bits)) runtime_error >>= λ _. elim (greater value best) [
      | true ↦ scan_from bytes rounds (add_word id 1) value id
      | false ↦ scan_from bytes rounds (add_word id 1) best winner
    ]

unfoldable pub scan_logits : List ℕ → ℕ → Result ℕ
scan_logits bytes vocabulary = do
  let first_bits = load_bf16 bytes 0
  require (not (nonfinite first_bits)) runtime_error
  scan_from bytes (vocabulary - 1) 1 (decode_bf16 first_bits) 0

abbrev pub is_bf16 : DataType → Bool
is_bf16 bf16 = true
is_bf16 _ = false

unfoldable pub validate_logits_shape : TensorSpec → ℕ → Result ℕ
validate_logits_shape spec valid_vocabulary = do
  require (is_bf16 spec.data_type) invalid_argument
  require (is_none_format spec.quantization) invalid_argument
  let rows = get_or spec.shape.dimensions 0 0
  let columns = get_or spec.shape.dimensions 1 0
  require (rank spec.shape == 2 && rows == 1 && columns != 0) invalid_argument
  require (valid_vocabulary != 0 && valid_vocabulary == columns) invalid_argument
  checked_mul valid_vocabulary 2

-- A span is its address and its size; `owner` is the native handle of the logits.
unfoldable pub validate_host_scratch : ℕ → ℕ → ℕ → ℕ → ℕ → Result (Unit {0})
validate_host_scratch host size required_bytes owner owner_storage_bytes =
    if ltb size required_bytes
    then throws invalid_argument
    else if size != 0 && host == 0
    then throws invalid_argument
    else if owner == 0
    then throws invalid_argument
    else if size == 0
    then ok tt
    else if ltb (max_word - host) size || ltb (max_word - owner) owner_storage_bytes
    then throws overflow_error
    else if ltb host (add_word owner owner_storage_bytes) && ltb owner (add_word host size)
    then throws invalid_argument
    else ok tt
