-- ===== src/Alloc/FreeList/Grant.antt =====
-- `ListAllocator::alloc`: its outcomes, best fit, and that it keeps the invariant.
use iom.Base.{
  ◌==◌, get_elem?, take, drop, All, max_word, add_word, sub_word, overflow_error, bad_alloc, ok,
  throws, ℕ, suc, ◌+◌, ◌-◌, ◌≤◌, ◌<◌, ◌≡◌, refl, ap, subst, ◌∙◌, ◌⊎◌, inl, inr, false, some, List,
  [], ◌∷◌, ◌++◌, arith,
}
use iom.Alloc.Buffer.{Buffer, capacity}
use iom.Alloc.Buffer.Bounds.{capacity_lem}
use iom.Alloc.FreeList.{Block, Best, no_best, ListAllocator, remains, commit, alloc}
use iom.Alloc.FreeList.Table.{assign}
use iom.Alloc.FreeList.Scan.{Fits, waste, choice, scan_cases, InRange}
use iom.Alloc.FreeList.Inv.{IsValid, Gapped-InRange, Gapped-get_elem?}

-- The free list once the request at `p` is cut out of range `j`.
abbrev pub cut : ListAllocator → ℕ → ℕ → Block → ℕ → List Block
cut a sz j c p =
    take j a.free_list
    ++ (remains c (p - (a.buffer.begin + c.offset)) (p + sz - (a.buffer.begin + c.offset))
        ++ drop (suc j) a.free_list)

-- The request is served at `p`, in the range that wastes least.
pub record Granted (a : ListAllocator) (sz p : ℕ) (a' : ListAllocator) : Type 0 where
  pub j : ℕ
  pub chosen : Block
  pub at : get_elem? a.free_list j ≡ some chosen
  pub fits : Fits a.buffer sz chosen p
  pub least :
      All
        (λ c. (r : ℕ) → Fits a.buffer sz c r → waste a.buffer sz chosen p ≤ waste a.buffer sz c r)
        a.free_list
  pub after : a' ≡ record a { free_list = cut a sz j chosen p; allocated = assign p sz a.allocated }

commit-choice :
    (a : ListAllocator) (sz j p : ℕ) (c : Block)
    → IsValid a
    → get_elem? a.free_list j ≡ some c
    → Fits a.buffer sz c p
    → commit a sz (choice a.buffer sz j c p)
      ≡ (ok p, record a { free_list = cut a sz j c p; allocated = assign p sz a.allocated })
unfolding commit
commit-choice a sz j p c v at fits = rw (index_ok, at, padding) refl
  where
    inside :
        (0 + j < capacity a.buffer)
        × (0 ≤ c.offset)
        × (0 < c.size)
        × (c.offset + c.size ≤ capacity a.buffer)
    inside = Gapped-get_elem? 0 (capacity a.buffer) j a.free_list c at v.gapped

    index_ok : (j == max_word) ≡ false
    index_ok = ground (arith, inside, capacity_lem v.buffer)

    padding : sub_word p (add_word a.buffer.begin c.offset) ≡ p - (a.buffer.begin + c.offset)
    padding = omega (arith, inside, capacity_lem v.buffer, fits.up.above, fits.room)

commit_none : (a : ListAllocator) (sz : ℕ) → commit a sz no_best ≡ (throws bad_alloc, a)
unfolding commit
commit_none a sz = refl

-- No free range can take the request.
abbrev pub Full : ListAllocator → ℕ → Type 0
Full a sz = All (λ c. (r : ℕ) → ¬ Fits a.buffer sz c r) a.free_list

Full-of_least :
    (b : Buffer) (sz : ℕ) (blocks : List Block)
    → 0 < sz
    → b.raw_end ≤ max_word
    → All (InRange b) blocks
    → All (λ c. (r : ℕ) → Fits b sz c r → max_word ≤ waste b sz c r) blocks
    → All (λ c. (r : ℕ) → ¬ Fits b sz c r) blocks
Full-of_least b sz [] p w range least = tt
Full-of_least b sz (c ∷ blocks) p w range least =
    (λ r fits. omega (arith, least.0 r fits), Full-of_least b sz blocks p w range.1 least.1)

-- A request of a nonzero word size on a valid list allocator is served in a free range that it
-- fits and in which it wastes least, which is cut and the block recorded; or it throws
-- `bad_alloc` and no free range fits it; or it throws `overflow_error` and for some free range
-- the begin plus the alignment mask is no word. Where it throws, the allocator is unchanged.
pub alloc_cases :
    (a : ListAllocator) (sz : ℕ)
    → 0 < sz
    → sz ≤ max_word
    → IsValid a
    → ((p : ℕ) × ((alloc a sz).0 ≡ ok p) × Granted a sz p (alloc a sz).1)
      ⊎ ((alloc a sz ≡ (throws bad_alloc, a)) × Full a sz)
      ⊎ ((alloc a sz ≡ (throws overflow_error, a))
          × ((j : ℕ) × (c : Block) × (get_elem? a.free_list j ≡ some c)
              × (max_word < a.buffer.begin + c.offset + (a.buffer.align - 1))))
unfolding alloc
alloc_cases a sz p w v = elim (scan_cases a.buffer sz 0 a.free_list no_best v.buffer w range) [
  | inl (e, found) ↦ inr (inr (rw (nonzero, e), found))
  | inr (best, e, s) ↦ elim s.origin [
    | inl same ↦ inr (
        inl (
          rw (nonzero, e) (ap (commit a sz) same ∙ commit_none a sz),
          Full-of_least a.buffer sz a.free_list p v.buffer.word range
              (subst (Least a.free_list) same s.least),
        ))
    | inr (j, c, r, at, fits, chosen) ↦
        let choose : best ≡ choice a.buffer sz j c r =
          chosen ∙ ap (λ (k : ℕ). choice a.buffer sz k c r) (omega arith) in
        let done : commit a sz best
            ≡ (ok r, record a { free_list = cut a sz j c r; allocated = assign r sz a.allocated }) =
          ap (commit a sz) choose ∙ commit-choice a sz j r c v at fits in
        inl (
          r,
          rw (nonzero, e) (ap (λ t. t.0) done),
          record {
            j = j;
            chosen = c;
            at = at;
            fits = fits;
            least = subst (Least a.free_list) choose s.least;
            after = rw (nonzero, e) (ap (λ t. t.1) done);
          },
        )
  ]
]
  where
    nonzero : (sz == 0) ≡ false
    nonzero = ground arith

    range : All (InRange a.buffer) a.free_list
    range = Gapped-InRange a.buffer 0 a.free_list v.buffer v.gapped

    Least : List Block → Best → Type 0
    Least blocks best =
        All (λ c. (r : ℕ) → Fits a.buffer sz c r → best.waste ≤ waste a.buffer sz c r) blocks
