-- ===== src/Alloc/Tests.antt =====
-- The allocator base and the bump allocator run on a buffer of 200 bytes at address 1003.
use iom.Base.{
  max_word, overflow_error, bad_alloc, ok, throws, ℕ, ◌+◌, ◌-◌, ◌≤◌, ◌<◌, ◌≡◌, refl, ◌⊎◌, inl, [],
  ◌∷◌, arith,
}
use iom.Alloc.Buffer.{
  Buffer, new_buffer, checked_raw_begin, checked_raw_end, is_power_of_two, align_up_addr,
}
use iom.Alloc.Buffer.Align.{IsAlignment, IsMultiple, RoundsUp, align_up_addr_lem}
use iom.Alloc.Buffer.Bounds
use iom.Alloc.Buffer.Bounds.{new_buffer-IsValid, new_buffer_cases}
use iom.Alloc.Linear.{LinearAllocator, alloc}
use iom.Alloc.Linear.Serve.{IsValid, Served, Ascending, serve, serve-Ascending, alloc_linear_cases}

abbrev pub buffer : Buffer
buffer = record { raw_begin = 1003; raw_end = 1203; begin = 1008; align = 16 }

alignment : IsAlignment 16
alignment = (4, refl, omega arith)

pub buffer-valid : Bounds.IsValid buffer
buffer-valid = record {
  alignment = alignment;
  low = omega arith;
  high = omega arith;
  word = omega arith;
  first = inl (63, refl);
}

pub new_buffer_run : new_buffer 1003 200 16 ≡ ok buffer
unfolding new_buffer checked_raw_begin checked_raw_end is_power_of_two align_up_addr
new_buffer_run = refl

align_up_addr_lem_example :
    ((1003 + (16 - 1) ≤ max_word) × (r : ℕ) × (align_up_addr 16 1003 ≡ ok r) × RoundsUp 16 1003 r)
    ⊎ ((max_word < 1003 + (16 - 1)) × (align_up_addr 16 1003 ≡ throws overflow_error))
align_up_addr_lem_example = align_up_addr_lem 16 1003 alignment (omega arith)

abbrev null : ℕ
null = 0

abbrev linear : LinearAllocator
linear = record { buffer = buffer; current = 1030 }

linear-valid : IsValid linear
linear-valid = record { buffer = buffer-valid; low = omega arith; high = omega arith }

-- The second request finds too few bytes, the third fits.
serve_run : serve linear (100 ∷ 90 ∷ 51 ∷ []) ≡ (1040, 100) ∷ (1152, 51) ∷ []
unfolding serve alloc align_up_addr
serve_run = refl

alloc_linear_cases_example :
    ((p : ℕ) × ((alloc linear 100).0 ≡ ok p) × Served linear 100 p (alloc linear 100).1)
    ⊎ ((alloc linear 100 ≡ (throws bad_alloc, linear))
        × ((p : ℕ) → IsMultiple 16 p → 1030 ≤ p → 1203 < p + 100))
    ⊎ ((alloc linear 100 ≡ (throws overflow_error, linear)) × (max_word < 1030 + (16 - 1)))
alloc_linear_cases_example = alloc_linear_cases linear 100 (omega arith) linear-valid

serve-Ascending_example : Ascending 16 1030 1203 (serve linear (100 ∷ 90 ∷ 51 ∷ []))
serve-Ascending_example =
    serve-Ascending (100 ∷ 90 ∷ 51 ∷ []) linear (omega arith, (omega arith, (omega arith, tt)))
      linear-valid
