-- ===== src/Alloc/FreeList.antt =====
-- src/alloc.cpp, class ListAllocator: best fit over a sorted list of free ranges. `allocated` is
-- the map from the address of a live block to its size.
pub mod Table
pub mod Shape
pub mod Amount
pub mod Scan
pub mod Inv
pub mod Grant
pub mod Keep
pub mod Release
pub mod Canonical
pub mod Bytes
pub mod History
pub mod Tests
use iom.Base.{
  ltb, leb, ◌==◌, ◌!=◌, if◌then◌else◌, ltb→lt, lt→ltb, ltb→le, le→ltb, ==→eq, eq→==, Bool-cases,
  Option-cases, length, get_elem?, get_or, set, take, drop, replicate, length-append, length-set,
  length-replicate, get_or-set_self, get_or-set_ne, sum, product, All, word_mod, max_word, add_word,
  sub_word, mul_word, Exception, invalid_argument, overflow_error, out_of_range, bad_alloc,
  runtime_error, logic_error, Result, ok, throws, ◌>>=◌, ◌>>◌, require, >>=-eq-ok, ℕ, zero, suc,
  ◌+◌, ◌-◌, ◌*◌, ◌/◌, ◌%◌, ◌^◌, ◌≤◌, ◌<◌, bit_and, ◌≡◌, refl, sym, ap, subst, ◌∙◌, ◌≢◌, ◌↔◌, ◌⊎◌,
  inl, inr, Bool, true, false, not, ◌&&◌, ◌||◌, Option, none, some, List, [], ◌∷◌, ◌++◌, map, arith,
}
use iom.Alloc.Buffer.{Buffer, new_buffer, align_up_addr, capacity}
use Table.{find, assign, erase}

pub record Block : Type 0 where
  pub offset : ℕ
  pub size : ℕ

pub record ListAllocator : Type 0 where
  pub buffer : Buffer
  pub free_list : List Block
  pub allocated : List (ℕ × ℕ)

-- The variables of the search loop; `index` is `max_word` while no block is chosen.
pub record Best : Type 0 where
  pub index : ℕ
  pub waste : ℕ
  pub addr : ℕ
  pub total : ℕ

abbrev pub no_best : Best
no_best = record { index = max_word; waste = max_word; addr = 0; total = 0 }

-- One round of the search loop: free range `i` is chosen if it fits and wastes less.
unfoldable pub scan_block : Buffer → ℕ → ℕ → Block → Best → Result Best
scan_block b sz i block best = do
  let block_addr = add_word b.begin block.offset
  aligned ← align_up_addr b.align block_addr
  let padding = sub_word aligned block_addr
  let total = add_word padding sz
  let waste = sub_word block.size total
  if ltb block.size padding
      then ok best
      else if ltb (sub_word block.size padding) sz
      then ok best
      else if ltb waste best.waste
      then ok (record { index = i; waste = waste; addr = aligned; total = total })
      else ok best

unfoldable pub scan : Buffer → ℕ → ℕ → List Block → Best → Result Best
scan b sz i [] best = ok best
scan b sz i (block ∷ rest) best =
    scan_block b sz i block best >>= λ best'. scan b sz (i + 1) rest best'

abbrev pub some_block : ℕ → ℕ → List Block
some_block offset size = if size != 0 then record { offset = offset; size = size } ∷ [] else []

-- What stays free of the chosen range: its padding and its suffix.
unfoldable pub remains : Block → ℕ → ℕ → List Block
remains chosen padding total =
    some_block chosen.offset padding
    ++ some_block (add_word chosen.offset total) (sub_word chosen.size total)

-- The second half of `alloc`. The search yields an index in
-- range.
unfoldable pub commit : ListAllocator → ℕ → Best → Result ℕ × ListAllocator
commit a sz best =
    if best.index == max_word
    then (throws bad_alloc, a)
    else elim (get_elem? a.free_list best.index) [
      | none ↦ (throws logic_error, a)
      | some chosen ↦
          let padding = sub_word best.addr (add_word a.buffer.begin chosen.offset) in
          (
            ok best.addr,
            record a {
              free_list =
                  take best.index a.free_list
                  ++ (remains chosen padding best.total ++ drop (suc best.index) a.free_list);
              allocated = assign best.addr sz a.allocated;
            },
          )
    ]

unfoldable pub alloc : ListAllocator → ℕ → Result ℕ × ListAllocator
alloc a sz = if sz == 0 then (ok 0, a) else elim (scan a.buffer sz 0 a.free_list no_best) [
  | throws e ↦ (throws e, a)
  | ok best ↦ commit a sz best
]

-- `std::lower_bound` on the sorted ranges, and the insertion there.
unfoldable pub insert_free_block : List Block → Block → List Block
insert_free_block [] block = block ∷ []
insert_free_block (b ∷ blocks) block =
    if ltb b.offset block.offset then b ∷ insert_free_block blocks block else block ∷ b ∷ blocks

-- The loop of `coalesce`: `last` is `blocks[out]`, and what stands before it is final.
unfoldable pub coalesce_from : Block → List Block → List Block
coalesce_from last [] = last ∷ []
coalesce_from last (b ∷ blocks) = elim (add_word last.offset last.size == b.offset) [
  | true ↦ coalesce_from (record last { size = add_word last.size b.size }) blocks
  | false ↦ last ∷ coalesce_from b blocks
]

unfoldable pub coalesce : List Block → List Block
coalesce [] = []
coalesce (b ∷ blocks) = coalesce_from b blocks

unfoldable pub free : ListAllocator → ℕ → Result (Unit {0}) × ListAllocator
free a address = if address == 0 then (ok tt, a) else elim (find address a.allocated) [
  | none ↦ (throws invalid_argument, a)
  | some sz ↦
      let released : Block = record { offset = sub_word address a.buffer.begin; size = sz } in
      (
        ok tt,
        record a {
          free_list = coalesce (insert_free_block a.free_list released);
          allocated = erase address a.allocated;
        },
      )
]

unfoldable pub reset : ListAllocator → ListAllocator
reset a = record a { free_list = some_block 0 (capacity a.buffer); allocated = [] }

unfoldable pub new_list : ℕ → ℕ → ℕ → Result ListAllocator
new_list buffer size alignment = do
  b ← new_buffer buffer size alignment
  ok (reset (record { buffer = b; free_list = []; allocated = [] }))

abbrev pub sum_sizes : List Block → ℕ → ℕ
sum_sizes [] result = result
sum_sizes (block ∷ blocks) result = sum_sizes blocks (add_word result block.size)

unfoldable pub free_bytes : ListAllocator → ℕ
free_bytes a = sum_sizes a.free_list 0
