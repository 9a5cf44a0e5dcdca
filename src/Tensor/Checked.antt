-- ===== src/Tensor/Checked.antt =====
-- src/iom_internal.hpp: checked size arithmetic.
use native.Mathlib.Nat.{div-lt_iff_lt-mul, mul_comm}
use iom.Base.{
  ltb, ◌==◌, ◌!=◌, if◌then◌else◌, max_word, add_word, mul_word, overflow_error, Result, ok, throws,
  ◌>>=◌, ℕ, zero, suc, ◌+◌, ◌-◌, ◌*◌, ◌/◌, ◌%◌, ◌≤◌, ◌<◌, ◌≡◌, ◌↔◌, ◌&&◌, ◌||◌, arith,
}

unfoldable pub checked_add : ℕ → ℕ → Result ℕ
checked_add lhs rhs =
    if ltb (max_word - lhs) rhs then throws overflow_error else ok (add_word lhs rhs)

unfoldable pub checked_mul : ℕ → ℕ → Result ℕ
checked_mul lhs rhs =
    if lhs != 0 && ltb (max_word / lhs) rhs then throws overflow_error else ok (mul_word lhs rhs)

unfoldable pub bits_to_bytes : ℕ → Result ℕ
bits_to_bytes bits = do rounded ← checked_add bits 7; ok (rounded / 8)

-- The edge of a tile, `TensorSpec::TILE`.
abbrev pub tile : ℕ
tile = 16

unfoldable pub padded_extent : ℕ → Result ℕ
padded_extent extent =
    let remainder = extent % tile in
    if remainder == 0 then ok extent else checked_add extent (tile - remainder)

pub data BackingRangeRelation : Type 0 where
  disjoint overlap overflow : BackingRangeRelation

unfoldable pub checked_backing_range_relation : ℕ → ℕ → ℕ → ℕ → BackingRangeRelation
checked_backing_range_relation lhs_begin lhs_bytes rhs_begin rhs_bytes =
    let lhs_end = add_word lhs_begin lhs_bytes in
    let rhs_end = add_word rhs_begin rhs_bytes in
    if ltb (max_word - lhs_begin) lhs_bytes || ltb (max_word - rhs_begin) rhs_bytes
    then overflow
    else if ltb lhs_begin rhs_end && ltb rhs_begin lhs_end
    then overlap
    else disjoint

-- The exact sum, or an overflow exactly if it is no word.
pub checked_add_lem :
    (a b : ℕ)
    → a ≤ max_word
    → checked_add a b ≡ (if ltb max_word (a + b) then throws overflow_error else ok (a + b))
unfolding checked_add
checked_add_lem a b h = ground arith

pub checked_add_ok : (a b : ℕ) → a + b ≤ max_word → checked_add a b ≡ ok (a + b)
unfolding checked_add
checked_add_ok a b h = ground arith

-- `checked_mul` is the exact product, or throws `overflow_error` exactly if that is no word.
pub checked_mul_lem :
    (a b : ℕ)
    → checked_mul a b ≡ (if ltb max_word (a * b) then throws overflow_error else ok (a * b))
unfolding checked_mul
checked_mul_lem zero b = ground arith
checked_mul_lem (suc a) b = ground (arith, tested.0, tested.1, mul_comm b (suc a))
  where
    tested : (max_word / suc a < b) ↔ (max_word < b * suc a)
    tested = div-lt_iff_lt-mul {k = suc a} {x = max_word} {y = b} (omega arith)

pub checked_mul_ok : (a b : ℕ) → a * b ≤ max_word → checked_mul a b ≡ ok (a * b)
checked_mul_ok a b h = ground (arith, checked_mul_lem a b)

pub checked_mul_throws : (a b : ℕ) → max_word < a * b → checked_mul a b ≡ throws overflow_error
checked_mul_throws a b h = ground (arith, checked_mul_lem a b)

-- The least multiple of the tile edge that holds the extent.
abbrev pub padded : ℕ → ℕ
padded n = (n + 15) / 16 * 16

-- For an extent that is a word, `padded_extent` is `(extent + 15) / 16 * 16`, or throws
-- `overflow_error` exactly if that is no word.
pub padded_extent_lem :
    (n : ℕ)
    → n ≤ max_word
    → padded_extent n ≡ (if ltb max_word (padded n) then throws overflow_error else ok (padded n))
unfolding padded_extent checked_add
padded_extent_lem n h = ground arith

-- For two ranges whose ends are words, `checked_backing_range_relation` answers overlap exactly
-- if each begins below the end of the other.
pub checked_backing_range_relation-overlap :
    (a m b n : ℕ)
    → a + m ≤ max_word
    → b + n ≤ max_word
    → (checked_backing_range_relation a m b n ≡ overlap) ↔ ((a < b + n) × (b < a + m))
unfolding checked_backing_range_relation
checked_backing_range_relation-overlap a m b n h k = ground arith
