-- ===== src/Alloc/Linear.antt =====
-- src/alloc.cpp, class LinearAllocator: a bump pointer over the buffer. A call that throws returns
-- the allocator beside the exception, so that what it leaves behind can be stated.
pub mod Serve
use iom.Base.{
  ltb, leb, ◌==◌, ◌!=◌, if◌then◌else◌, ltb→lt, lt→ltb, ltb→le, le→ltb, ==→eq, eq→==, Bool-cases,
  Option-cases, length, get_elem?, get_or, set, take, drop, replicate, length-append, length-set,
  length-replicate, get_or-set_self, get_or-set_ne, sum, product, All, word_mod, max_word, add_word,
  sub_word, mul_word, Exception, invalid_argument, overflow_error, out_of_range, bad_alloc,
  runtime_error, logic_error, Result, ok, throws, ◌>>=◌, ◌>>◌, require, >>=-eq-ok, ℕ, zero, suc,
  ◌+◌, ◌-◌, ◌*◌, ◌/◌, ◌%◌, ◌^◌, ◌≤◌, ◌<◌, bit_and, ◌≡◌, refl, sym, ap, subst, ◌∙◌, ◌≢◌, ◌↔◌, ◌⊎◌,
  inl, inr, Bool, true, false, not, ◌&&◌, ◌||◌, Option, none, some, List, [], ◌∷◌, ◌++◌, map, arith,
}
use iom.Alloc.Buffer.{Buffer, new_buffer, align_up_addr}

pub record LinearAllocator : Type 0 where
  pub buffer : Buffer
  pub current : ℕ

unfoldable pub new_linear : ℕ → ℕ → ℕ → Result LinearAllocator
new_linear buffer size alignment = do
  b ← new_buffer buffer size alignment
  ok (record { buffer = b; current = b.begin })

unfoldable pub alloc : LinearAllocator → ℕ → Result ℕ × LinearAllocator
alloc a sz = elim (align_up_addr a.buffer.align a.current) [
  | throws e ↦ (throws e, a)
  | ok aligned ↦
      if ltb a.buffer.raw_end aligned || ltb (sub_word a.buffer.raw_end aligned) sz
      then (throws bad_alloc, a)
      else (ok aligned, record a { current = if sz == 0 then aligned else add_word aligned sz })
]

-- Single blocks are not given back.
unfoldable pub free : LinearAllocator → ℕ → LinearAllocator
free a buffer = a

unfoldable pub reset : LinearAllocator → LinearAllocator
reset a = record a { current = a.buffer.begin }
