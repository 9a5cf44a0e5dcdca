-- ===== src/Alloc/Fixed.antt =====
-- src/alloc.cpp, class FixedSizeAllocator: a stack of free block indices and a bit per block. The
-- head of `free_indices` is the back of the vector.
pub mod Inv
pub mod Calls
pub mod Release
pub mod History
pub mod Tests
use iom.Base.{
  ltb, leb, ◌==◌, ◌!=◌, if◌then◌else◌, ltb→lt, lt→ltb, ltb→le, le→ltb, ==→eq, eq→==, Bool-cases,
  Option-cases, length, get_elem?, get_or, set, take, drop, replicate, length-append, length-set,
  length-replicate, get_or-set_self, get_or-set_ne, sum, product, All, word_mod, max_word, add_word,
  sub_word, mul_word, Exception, invalid_argument, overflow_error, out_of_range, bad_alloc,
  runtime_error, logic_error, Result, ok, throws, ◌>>=◌, ◌>>◌, require, >>=-eq-ok, ℕ, zero, suc,
  ◌+◌, ◌-◌, ◌*◌, ◌/◌, ◌%◌, ◌^◌, ◌≤◌, ◌<◌, bit_and, ◌≡◌, refl, sym, ap, subst, ◌∙◌, ◌≢◌, ◌↔◌, ◌⊎◌,
  inl, inr, Bool, true, false, not, ◌&&◌, ◌||◌, Option, none, some, List, [], ◌∷◌, ◌++◌, map, arith,
  dec_lt, ℕ_discrete,
}
use iom.Alloc.Buffer.{Buffer, new_buffer, is_power_of_two, capacity}

pub record FixedSizeAllocator : Type 0 where
  pub buffer : Buffer
  pub payload_size : ℕ
  pub stride : ℕ
  pub block_count : ℕ
  pub free_indices : List ℕ
  pub in_use : List Bool

unfoldable pub align_up_payload : ℕ → ℕ → Result ℕ
align_up_payload size alignment = do
  require (size != 0) invalid_argument
  require (is_power_of_two alignment) invalid_argument
  let mask = sub_word alignment 1
  require (not (ltb (max_word - mask) size)) overflow_error
  ok (bit_and (add_word size mask) (max_word - mask))

-- The loop of `reset`, with `rounds` rounds left.
unfoldable pub push_indices : ℕ → ℕ → ℕ → List ℕ → List ℕ
push_indices block_count zero i indices = indices
push_indices block_count (suc rounds) i indices =
    push_indices block_count rounds (add_word i 1) (sub_word (sub_word block_count 1) i ∷ indices)

unfoldable pub reset : FixedSizeAllocator → FixedSizeAllocator
reset a = record a {
  free_indices = push_indices a.block_count a.block_count 0 [];
  in_use = replicate (length a.in_use) false;
}

unfoldable pub new_fixed : ℕ → ℕ → ℕ → ℕ → Result FixedSizeAllocator
new_fixed buffer size alignment payload_size = do
  b ← new_buffer buffer size alignment
  stride ← align_up_payload payload_size alignment
  let block_count = capacity b / stride
  ok (
      reset (record {
        buffer = b;
        payload_size = payload_size;
        stride = stride;
        block_count = block_count;
        free_indices = [];
        in_use = replicate block_count false;
      }))

-- Takes `index` off the stack. The index is popped before the metadata check.
unfoldable pub take_index : FixedSizeAllocator → ℕ → List ℕ → Result ℕ × FixedSizeAllocator
take_index a index rest =
    if get_or a.in_use index false
    then (throws runtime_error, record a { free_indices = rest })
    else (
      ok (add_word a.buffer.begin (mul_word index a.stride)),
      record a { free_indices = rest; in_use = set a.in_use index true },
    )

unfoldable pub alloc : FixedSizeAllocator → ℕ → Result ℕ × FixedSizeAllocator
alloc a sz =
    if sz == 0
    then (ok 0, a)
    else if ltb a.payload_size sz
    then (throws bad_alloc, a)
    else elim a.free_indices [ [] ↦ (throws bad_alloc, a) | index ∷ rest ↦ take_index a index rest ]

unfoldable pub index_of : FixedSizeAllocator → ℕ → Result ℕ
index_of a address =
    let end = add_word a.buffer.begin (mul_word a.block_count a.stride) in
    let delta = sub_word address a.buffer.begin in
    if ltb address a.buffer.begin || leb end address
    then throws invalid_argument
    else if delta % a.stride != 0
    then throws invalid_argument
    else ok (delta / a.stride)

unfoldable pub free : FixedSizeAllocator → ℕ → Result (Unit {0}) × FixedSizeAllocator
free a address = if address == 0 then (ok tt, a) else elim (index_of a address) [
  | throws e ↦ (throws e, a)
  | ok index ↦ if not (get_or a.in_use index false) then (throws invalid_argument, a) else (
    ok tt,
    record a { free_indices = index ∷ a.free_indices; in_use = set a.in_use index false },
  )
]

unfoldable pub ptr_from_index : FixedSizeAllocator → ℕ → Result ℕ
ptr_from_index a index =
    if leb a.block_count index
    then throws out_of_range
    else ok (add_word a.buffer.begin (mul_word index a.stride))

unfoldable pub free_count : FixedSizeAllocator → ℕ
free_count a = length a.free_indices
