-- ===== src/Alloc/FreeList/Keep.antt =====
-- `alloc` keeps the invariant of `ListAllocator`: what it hands out was free, and is live afterwards.
use mathlib.Core.Path.{ap₂}
use iom.Base.{
  Option-cases, get_elem?, max_word, ℕ, zero, suc, ◌+◌, ◌-◌, ◌≤◌, ◌<◌, ◌≡◌, inl, inr, none, some,
  arith,
}
use iom.Alloc.Buffer.{capacity}
use iom.Alloc.Buffer.Bounds.{capacity_lem}
use iom.Alloc.FreeList.{Block, ListAllocator, remains, alloc}
use iom.Alloc.FreeList.Table.{find, assign, total-assign, assign-Entries, find-Entries}
use iom.Alloc.FreeList.Shape.{Gapped, remains-Gapped, splice-Gapped}
use iom.Alloc.FreeList.Amount.{amount-splice, amount-remains, le-amount}
use iom.Alloc.FreeList.Scan.{Fits}
use iom.Alloc.FreeList.Inv.{
  IsValid, within, within_inside, within-le-one, span, span-Additive, free_at, block_at,
  live_at_block, Gapped-get_elem?,
}
use iom.Alloc.FreeList.Grant.{cut, alloc_cases}

module _ (a : ListAllocator) (sz j p : ℕ) (c : Block) (pos : 0 < sz) (v : IsValid a)
    (at : get_elem? a.free_list j ≡ some c) (fits : Fits a.buffer sz c p) where
  inside :
      (0 < c.size)
      × (c.offset + c.size ≤ capacity a.buffer)
      × (capacity a.buffer + a.buffer.begin ≤ max_word)
  inside =
      let (_, _, size, end) = Gapped-get_elem? 0 (capacity a.buffer) j a.free_list c at v.gapped in
      (size, end, omega (arith, capacity_lem v.buffer))

  cut-Gapped : Gapped 0 (capacity a.buffer) (cut a sz j c p)
  cut-Gapped = splice-Gapped 0 (capacity a.buffer) j a.free_list _ c at v.gapped (
      remains-Gapped c (p - (a.buffer.begin + c.offset)) (p + sz - (a.buffer.begin + c.offset))
        (omega (arith, fits.up.above)) (omega (arith, fits.up.above, fits.room))
        (omega (arith, inside)))

  -- The bytes of the block leave the free list, and no others.
  pub cut-free_at :
      (x : ℕ)
      → free_at a.buffer (cut a sz j c p) x + within x p (p + sz) ≡ free_at a.buffer a.free_list x
  cut-free_at x = omega (
    arith,
    amount-splice f j a.free_list (remains c padding tot) c at,
    amount-remains f (span-Additive a.buffer.begin x) c padding tot (omega arith)
        (omega (arith, fits.up.above, fits.room)) (omega (arith, inside)),
    ap₂ (within x) first last,
  )
    where
      f : ℕ → ℕ → ℕ
      f = span a.buffer.begin x

      padding : ℕ
      padding = p - (a.buffer.begin + c.offset)

      tot : ℕ
      tot = p + sz - (a.buffer.begin + c.offset)

      first : a.buffer.begin + (c.offset + padding) ≡ p
      first = omega (arith, fits.up.above)

      last : a.buffer.begin + (c.offset + tot) ≡ p + sz
      last = omega (arith, fits.up.above)

  -- A free byte is in no live block.
  pub granted_fresh : find p a.allocated ≡ none
  granted_fresh = elim (Option-cases (find p a.allocated)) [
    | inl e ↦ e
    | inr (n, e) ↦ absurd (
        omega (
          arith,
          v.tiled p,
          within-le-one p a.buffer.begin a.buffer.raw_end,
          le-amount (span a.buffer.begin p) j a.free_list c at,
          within_inside p (a.buffer.begin + c.offset) (a.buffer.begin + (c.offset + c.size))
              fits.up.above (omega (arith, fits.room)),
          live_at_block p n p a.allocated e (omega arith)
              (omega (arith, (find-Entries _ p n a.allocated e v.blocks).1)),
        ))
  ]

  pub cut-IsValid :
      IsValid (record a { free_list = cut a sz j c p; allocated = assign p sz a.allocated })
  cut-IsValid = record {
    buffer = v.buffer;
    gapped = cut-Gapped;
    blocks = assign-Entries _ p sz a.allocated (fits.up.multiple, pos) v.blocks;
    tiled = λ x.
        omega (
          arith,
          v.tiled x,
          cut-free_at x,
          total-assign (block_at x) p sz a.allocated granted_fresh,
        );
  }

-- A request of a word size leaves a valid list allocator valid, whether it is served or throws:
-- the free ranges are sorted, not empty and not adjacent, and each byte of the range is free or
-- in one live block.
pub alloc-IsValid :
    (a : ListAllocator) (sz : ℕ) → sz ≤ max_word → IsValid a → IsValid (alloc a sz).1
alloc-IsValid a zero w v = unfold alloc in v
alloc-IsValid a (suc n) w v = elim (alloc_cases a (suc n) (omega arith) w v) [
  | inl (p, e, g) ↦ rw g.after (cut-IsValid a (suc n) g.j p g.chosen (omega arith) v g.at g.fits)
  | inr (inl (e, _)) ↦ rw e v
  | inr (inr (e, _)) ↦ rw e v
]
