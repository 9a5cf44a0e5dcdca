-- ===== src/Alloc/Buffer/Bounds.antt =====
-- What the constructor of the allocator base establishes.
use iom.Base.{
  overflow_error, inr, false, ◌<◌, inl, invalid_argument, Bool-cases, throws, ◌-◌, ℕ, ◌+◌, ◌≤◌, ◌≡◌,
  ◌⊎◌, ok, max_word, arith,
}
use iom.Alloc.Buffer.{
  is_power_of_two, Buffer, new_buffer, checked_raw_begin, checked_raw_end, capacity,
}
use iom.Alloc.Buffer.Align.{IsAlignment, IsMultiple, align_up_addr_lem, is_power_of_two-IsAlignment}

-- The range lies in the caller's buffer, which lies in the address space; it begins at a multiple
-- of the alignment, or is empty.
pub record IsValid (b : Buffer) : Type 0 where
  pub alignment : IsAlignment b.align
  pub low : b.raw_begin ≤ b.begin
  pub high : b.begin ≤ b.raw_end
  pub word : b.raw_end ≤ max_word
  pub first : IsMultiple b.align b.begin ⊎ (b.begin ≡ b.raw_end)

pub capacity_lem : {b : Buffer} → IsValid b → b.begin + capacity b ≡ b.raw_end
unfolding capacity
capacity_lem v = omega arith

-- A buffer that the constructor of the allocator base accepts, with arguments that are words, is
-- valid: its alignment is a power of two and its range lies in the given bytes and begins at a
-- multiple of the alignment or is empty; it keeps the address, the size and the alignment that
-- it was given.
pub new_buffer-IsValid :
    (buffer size alignment : ℕ) {b : Buffer}
    → buffer ≤ max_word
    → size ≤ max_word
    → alignment ≤ max_word
    → new_buffer buffer size alignment ≡ ok b
    → IsValid b × (b.raw_begin ≡ buffer) × (b.raw_end ≡ buffer + size) × (b.align ≡ alignment)
unfolding new_buffer checked_raw_begin checked_raw_end
new_buffer-IsValid buffer size alignment wb ws wa e =
    elim (Bool-cases (is_power_of_two alignment)) [
      | inl power ↦
          let aligned = is_power_of_two-IsAlignment alignment wa power in
          ground (arith, aligned, align_up_addr_lem alignment buffer aligned wb)
      | inr not_power ↦ ground arith
    ]

-- With arguments that are words, the constructor of the allocator base throws
-- `invalid_argument`, and the buffer is null with a nonzero size or the alignment fails the
-- power-of-two test; or it throws `overflow_error`, and the end of the buffer or its begin plus
-- the alignment mask is no word; or it accepts, and the end of the buffer is a word.
pub new_buffer_cases :
    (buffer size alignment : ℕ)
    → buffer ≤ max_word
    → size ≤ max_word
    → alignment ≤ max_word
    → (new_buffer buffer size alignment ≡ throws invalid_argument)
        × (((buffer ≡ 0) × (0 < size)) ⊎ (is_power_of_two alignment ≡ false))
      ⊎ (new_buffer buffer size alignment ≡ throws overflow_error)
        × ((max_word < buffer + size) ⊎ (max_word < buffer + (alignment - 1)))
      ⊎ ((b : Buffer) × (new_buffer buffer size alignment ≡ ok b) × (buffer + size ≤ max_word))
unfolding new_buffer checked_raw_begin checked_raw_end
new_buffer_cases buffer size alignment wb ws wa = elim (Bool-cases (is_power_of_two alignment)) [
  | inl power ↦
      let aligned = is_power_of_two-IsAlignment alignment wa power in
      ground (arith, aligned, align_up_addr_lem alignment buffer aligned wb)
  | inr not_power ↦ ground arith
]
