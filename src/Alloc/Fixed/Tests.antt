-- ===== src/Alloc/Fixed/Tests.antt =====
-- The fixed-size allocator run on a buffer of 200 bytes at address 1003, in blocks of 48 bytes for
-- payloads of 40.
use iom.Base.{
  All, invalid_argument, bad_alloc, ok, throws, ℕ, ◌≤◌, ◌<◌, ◌≡◌, refl, ◌⊎◌, true, false, List, [],
  ◌∷◌, arith,
}
use iom.Alloc.Buffer.{is_power_of_two, capacity}
use iom.Alloc.Buffer.Align.{RoundsUp}
use iom.Alloc.Tests.{buffer, new_buffer_run}
use iom.Alloc.Fixed.{
  FixedSizeAllocator, new_fixed, reset, push_indices, align_up_payload, alloc, take_index, free,
  index_of,
}
use iom.Alloc.Fixed.Inv.{IsValid, used, block, index_of-block}
use iom.Alloc.Fixed.Calls.{with_used, with_free, alloc_slot_cases}
use iom.Alloc.Fixed.Release.{index_of_sound, free_cases, free-alloc_slot}
use iom.Alloc.Fixed.History.{
  IsCall, Call, allocs, frees, run, step, Kept, run-Kept, new_fixed-IsValid,
}

abbrev start : FixedSizeAllocator
start = record {
  buffer = buffer;
  payload_size = 40;
  stride = 48;
  block_count = 4;
  free_indices = 0 ∷ 1 ∷ 2 ∷ 3 ∷ [];
  in_use = false ∷ false ∷ false ∷ false ∷ [];
}

new_fixed_run : new_fixed 1003 200 16 40 ≡ ok start
unfolding new_fixed reset push_indices align_up_payload is_power_of_two capacity
new_fixed_run = rw new_buffer_run refl

new_fixed-IsValid_example : IsValid start × RoundsUp 16 40 start.stride
new_fixed-IsValid_example =
    new_fixed-IsValid 1003 200 16 40 (omega arith) (omega arith) (omega arith) (omega arith)
      new_fixed_run

start-valid : IsValid start
start-valid =
    (new_fixed-IsValid 1003 200 16 40 (omega arith) (omega arith) (omega arith) (omega arith)
      new_fixed_run).0

-- Two blocks; the first is given back.
abbrev calls : List Call
calls = allocs 40 ∷ allocs 7 ∷ frees 1008 ∷ []

abbrev busy : FixedSizeAllocator
busy = record start { free_indices = 0 ∷ 2 ∷ 3 ∷ []; in_use = false ∷ true ∷ false ∷ false ∷ [] }

run-calls : run start calls ≡ busy
unfolding run step alloc take_index free index_of
run-calls = refl

words : All IsCall calls
words = (tt, (tt, (omega arith, tt)))

run-Kept_example : Kept start (run start calls)
run-Kept_example = run-Kept calls start words (omega arith) start-valid

busy-valid : IsValid busy
busy-valid = rw run-calls at (run-Kept calls start words (omega arith) start-valid).0

alloc_run : (alloc busy 30).0 ≡ ok 1008
unfolding alloc take_index
alloc_run = refl

free-alloc_slot_example :
    (free (alloc busy 30).1 1008 ≡ (ok tt, busy))
    × (free busy 1008 ≡ (throws invalid_argument, busy))
free-alloc_slot_example =
    free-alloc_slot busy 30 1008 (omega arith) (omega arith) busy-valid alloc_run

alloc_slot_cases_example :
    ((i : ℕ) × (rest : List ℕ) × (busy.free_indices ≡ i ∷ rest)
      × (30 ≤ 40)
      × (i < 4)
      × (used busy i ≡ false)
      × (alloc busy 30 ≡ (ok (block busy i), with_used busy i rest)))
    ⊎ ((alloc busy 30 ≡ (throws bad_alloc, busy))
        × ((40 < 30) ⊎ ((i : ℕ) → i < 4 → used busy i ≡ true)))
alloc_slot_cases_example = alloc_slot_cases busy 30 (omega arith) busy-valid

free_cases_example :
    ((i : ℕ) × (i < 4)
      × (1056 ≡ block busy i)
      × (used busy i ≡ true)
      × (free busy 1056 ≡ (ok tt, with_free busy i)))
    ⊎ ((free busy 1056 ≡ (throws invalid_argument, busy))
        × ((i : ℕ) → i < 4 → 1056 ≡ block busy i → used busy i ≡ false))
free_cases_example = free_cases busy 1056 (omega arith) (omega arith) (omega arith) busy-valid

index_of_run : index_of busy 1104 ≡ ok 2
unfolding index_of
index_of_run = refl

index_of_sound_example : (2 < 4) × (1104 ≡ block busy 2)
index_of_sound_example = index_of_sound busy 1104 (omega arith) busy-valid index_of_run

index_of-block_example : index_of busy (block busy 3) ≡ ok 3
index_of-block_example = index_of-block busy 3 busy-valid (omega arith)
