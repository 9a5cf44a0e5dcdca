-- ===== src/Alloc/FreeList/Tests.antt =====
-- The best-fit allocator run on a buffer of 200 bytes at address 1003.
use iom.Base.{
  get_elem?, All, max_word, overflow_error, bad_alloc, ok, throws, ℕ, ◌+◌, ◌-◌, ◌<◌, ◌≡◌, refl, ◌⊎◌,
  some, List, [], ◌∷◌, arith,
}
use iom.Alloc.Buffer.{align_up_addr, capacity}
use iom.Alloc.Tests.{buffer, buffer-valid, new_buffer_run}
use iom.Alloc.FreeList.{
  Block, ListAllocator, new_list, alloc, free, reset, scan, scan_block, commit, remains,
  insert_free_block, coalesce, coalesce_from,
}
use iom.Alloc.FreeList.Table.{find, assign, erase}
use iom.Alloc.FreeList.Inv.{IsValid, reset-IsValid}
use iom.Alloc.FreeList.Bytes.{reset-Balanced}
use iom.Alloc.FreeList.Grant.{Granted, Full, alloc_cases}
use iom.Alloc.FreeList.Keep.{alloc-IsValid}
use iom.Alloc.FreeList.Release.{free-IsValid}
use iom.Alloc.FreeList.Canonical.{free-alloc}
use iom.Alloc.FreeList.History.{
  IsCall, Call, allocs, frees, run, step, run-Sound, run-Safe, Safe, Sound,
}

abbrev start : ListAllocator
start = record {
  buffer = buffer;
  free_list = record { offset = 0; size = 195 } ∷ [];
  allocated = [];
}

-- Two blocks; the first is given back, and a smaller one is taken from its range.
abbrev calls : List Call
calls = allocs 30 ∷ allocs 20 ∷ frees 1008 ∷ allocs 8 ∷ []

abbrev busy : ListAllocator
busy = record {
  buffer = buffer;
  free_list = record { offset = 8; size = 24 } ∷ record { offset = 52; size = 143 } ∷ [];
  allocated = (1040, 20) ∷ (1008, 8) ∷ [];
}

new_list_run : new_list 1003 200 16 ≡ ok start
unfolding new_list reset capacity
new_list_run = rw new_buffer_run refl

run-calls : run start calls ≡ busy
unfolding run step alloc scan scan_block align_up_addr commit remains free insert_free_block
    coalesce coalesce_from find assign erase
run-calls = refl

words : All IsCall calls
words = (omega arith, (omega arith, (tt, (omega arith, tt))))

start-Sound : Sound start
start-Sound = unfold reset capacity in (reset-IsValid start buffer-valid, reset-Balanced start)

busy-valid : IsValid busy
busy-valid = rw run-calls at (run-Sound calls start words start-Sound).0

run-Safe_example : Safe (run start calls)
run-Safe_example =
    run-Safe 1003 200 16 calls (omega arith) (omega arith) (omega arith) words new_list_run

-- The request fits the first range, and wastes less there than in the second.
alloc_run : (alloc busy 5).0 ≡ ok 1024
unfolding alloc scan scan_block align_up_addr commit remains assign
alloc_run = refl

free-alloc_example : free (alloc busy 5).1 1024 ≡ (ok tt, busy)
free-alloc_example =
    free-alloc busy 5 1024 (omega arith) (omega arith) busy-valid (omega arith) alloc_run

alloc_cases_example :
    ((p : ℕ) × ((alloc busy 20).0 ≡ ok p) × Granted busy 20 p (alloc busy 20).1)
    ⊎ ((alloc busy 20 ≡ (throws bad_alloc, busy)) × Full busy 20)
    ⊎ ((alloc busy 20 ≡ (throws overflow_error, busy))
        × ((j : ℕ) × (c : Block) × (get_elem? busy.free_list j ≡ some c)
            × (max_word < 1008 + c.offset + (16 - 1))))
alloc_cases_example = alloc_cases busy 20 (omega arith) (omega arith) busy-valid

alloc-IsValid_example : IsValid (alloc busy 20).1
alloc-IsValid_example = alloc-IsValid busy 20 (omega arith) busy-valid

free-IsValid_example : IsValid (free busy 1040).1
free-IsValid_example = free-IsValid busy 1040 busy-valid
