-- ===== src/Alloc/Buffer.antt =====
-- src/alloc.cpp, class SingleBufferAllocatorBase: the aligned byte range that an allocator
-- hands out. A pointer is the address that it holds, and the null pointer is address 0.
pub mod Align
pub mod Bounds
use iom.Base.{
  ℕ, ◌-◌, ◌<◌, ◌≤◌, ◌≡◌, Bool, true, false, not, ◌&&◌, ◌||◌, bit_and, ltb, ◌==◌, ◌!=◌,
  if◌then◌else◌, max_word, add_word, sub_word, Result, ok, throws, Exception, invalid_argument,
  overflow_error, ◌>>=◌, ◌>>◌, require,
}

pub record Buffer : Type 0 where
  pub raw_begin : ℕ
  pub raw_end : ℕ
  pub begin : ℕ
  pub align : ℕ

unfoldable pub is_power_of_two : ℕ → Bool
is_power_of_two value = value != 0 && bit_and value (sub_word value 1) == 0

unfoldable pub checked_raw_begin : ℕ → ℕ → ℕ → Result ℕ
checked_raw_begin buffer size alignment = do
  require (not (buffer == 0 && size != 0)) invalid_argument
  require (is_power_of_two alignment) invalid_argument
  ok buffer

unfoldable pub checked_raw_end : ℕ → ℕ → Result ℕ
checked_raw_end raw_begin size =
    if ltb (max_word - raw_begin) size then throws overflow_error else ok (add_word raw_begin size)

-- `~mask` is `max_word - mask`.
unfoldable pub align_up_addr : ℕ → ℕ → Result ℕ
align_up_addr align address =
    let mask = sub_word align 1 in
    if ltb (max_word - mask) address
    then throws overflow_error
    else ok (bit_and (add_word address mask) (max_word - mask))

-- The constructor.
unfoldable pub new_buffer : ℕ → ℕ → ℕ → Result Buffer
new_buffer buffer size alignment = do
  raw_begin ← checked_raw_begin buffer size alignment
  raw_end ← checked_raw_end raw_begin size
  begin ← align_up_addr alignment raw_begin
  ok (record {
    raw_begin = raw_begin;
    raw_end = raw_end;
    begin = if ltb raw_end begin then raw_end else begin;
    align = alignment;
  })

unfoldable pub capacity : Buffer → ℕ
capacity b = sub_word b.raw_end b.begin

unfoldable pub offset_of : Buffer → ℕ → Result ℕ
offset_of b address =
    if ltb address b.begin || ltb b.raw_end address
    then throws invalid_argument
    else ok (sub_word address b.begin)
