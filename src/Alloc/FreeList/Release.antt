-- ===== src/Alloc/FreeList/Release.antt =====
-- `free` keeps the invariant of `ListAllocator`: what was live becomes free, and adjacent free
-- ranges are joined.
use mathlib.Core.Path.{ap₂}
use iom.Base.{
  ◌==◌, Option-cases, sub_word, invalid_argument, ok, throws, ℕ, zero, suc, ◌+◌, ◌-◌, ◌≤◌, ◌<◌, ◌≡◌,
  refl, inl, inr, false, none, some, List, [], ◌∷◌, arith, dec_lt,
}
use iom.Alloc.Buffer.{Buffer, capacity}
use iom.Alloc.Buffer.Bounds.{capacity_lem}
use iom.Alloc.FreeList.{suc, Block, ListAllocator, insert_free_block, coalesce, free}
use iom.Alloc.FreeList.Table.{find, erase, total-erase, erase-Entries, find-Entries}
use iom.Alloc.FreeList.Shape.{
  Ordered, Gapped, Apart, Gapped-Ordered, insert_free_block-Ordered, coalesce-Gapped,
}
use iom.Alloc.FreeList.Amount.{amount-insert, amount-coalesce}
use iom.Alloc.FreeList.Inv.{
  IsValid, within, span, span-Additive, free_at, block_at, live_at_block, within_inside,
  within-le-one, inside_within,
}

-- A range whose bytes are in no free range is apart from each.
Apart-of_unused :
    (b : Buffer) (lo hi : ℕ) (r : Block) (blocks : List Block)
    → 0 < r.size
    → Ordered lo hi blocks
    → ((x : ℕ)
        → b.begin + r.offset ≤ x
        → x < b.begin + (r.offset + r.size)
        → free_at b blocks x ≡ 0)
    → Apart r blocks
Apart-of_unused b lo hi r [] p o unused = tt
Apart-of_unused b lo hi r (c ∷ blocks) p o unused = (
  elim (dec_lt c.offset r.offset) [
    | yes before ↦ inr (elim (dec_lt r.offset (c.offset + c.size)) [
      | no clear ↦ omega arith
      | yes meet ↦ absurd (
          omega (
            arith,
            unused (b.begin + r.offset) (omega arith) (omega arith),
            within_inside (b.begin + r.offset) (b.begin + c.offset) (b.begin + (c.offset + c.size))
                (omega arith) (omega arith),
          ))
    ])
    | no after ↦ inl (elim (dec_lt c.offset (r.offset + r.size)) [
      | no clear ↦ omega arith
      | yes meet ↦ absurd (
          omega (
            arith,
            unused (b.begin + c.offset) (omega arith) (omega arith),
            within_inside (b.begin + c.offset) (b.begin + c.offset) (b.begin + (c.offset + c.size))
                (omega arith) (omega (arith, o.1)),
          ))
    ])
  ],
  Apart-of_unused b (c.offset + c.size) hi r blocks p o.3 (λ x l h. omega (arith, unused x l h)),
)

-- The range of a live block, and the free list once it is given back.
abbrev pub released : ListAllocator → ℕ → ℕ → Block
released a p n = record { offset = p - a.buffer.begin; size = n }

abbrev pub merged : ListAllocator → ℕ → ℕ → List Block
merged a p n = coalesce (insert_free_block a.free_list (released a p n))

module _ (a : ListAllocator) (p n : ℕ) (v : IsValid a) (live : find p a.allocated ≡ some n) where
  pub live_size : 0 < n
  live_size = (find-Entries _ p n a.allocated live v.blocks).1

  -- A byte of a live block lies in the buffer, and in no free range.
  pub live_byte :
      (x : ℕ)
      → p ≤ x
      → x < p + n
      → (a.buffer.begin ≤ x) × (x < a.buffer.raw_end) × (free_at a.buffer a.free_list x ≡ 0)
  live_byte x l h =
      let counted = live_at_block p n x a.allocated live l h in
      let (low, high) =
        inside_within x a.buffer.begin a.buffer.raw_end (omega (arith, v.tiled x)) in
      (low, high, omega (arith, v.tiled x, within-le-one x a.buffer.begin a.buffer.raw_end))

  pub live_bounds : (a.buffer.begin ≤ p) × (p + n ≤ a.buffer.raw_end)
  live_bounds = (
    (live_byte p (omega arith) (omega (arith, live_size))).0,
    omega (
      arith,
      live_size,
      (live_byte (p + n - 1) (omega (arith, live_size)) (omega (arith, live_size))).1,
    ),
  )

  pub inserted-Ordered :
      Ordered 0 (capacity a.buffer) (insert_free_block a.free_list (released a p n))
  inserted-Ordered =
      insert_free_block-Ordered 0 (capacity a.buffer) a.free_list (released a p n) (omega arith)
        live_size (omega (arith, live_bounds, capacity_lem v.buffer))
        (Apart-of_unused a.buffer 0 (capacity a.buffer) (released a p n) a.free_list live_size
          ordered
          λ x l h. (live_byte x (omega (arith, live_bounds)) (omega (arith, live_bounds))).2)
        ordered
    where
      ordered : Ordered 0 (capacity a.buffer) a.free_list
      ordered = Gapped-Ordered 0 (capacity a.buffer) a.free_list v.gapped

  pub merged-Gapped : Gapped 0 (capacity a.buffer) (merged a p n)
  merged-Gapped =
      coalesce-Gapped 0 (capacity a.buffer) _ (omega (arith, capacity_lem v.buffer, v.buffer.word))
        inserted-Ordered

  pub merged-free_at :
      (x : ℕ)
      → free_at a.buffer (merged a p n) x ≡ within x p (p + n) + free_at a.buffer a.free_list x
  merged-free_at x = omega (
    arith,
    amount-coalesce (span a.buffer.begin x) (span-Additive a.buffer.begin x) 0 (capacity a.buffer)
        (insert_free_block a.free_list (released a p n))
        (omega (arith, capacity_lem v.buffer, v.buffer.word)) inserted-Ordered,
    amount-insert (span a.buffer.begin x) a.free_list (released a p n),
    ap₂ (within x) first last,
  )
    where
      first : a.buffer.begin + (p - a.buffer.begin) ≡ p
      first = omega (arith, live_bounds)

      last : a.buffer.begin + (p - a.buffer.begin + n) ≡ p + n
      last = omega (arith, live_bounds)

  pub merged-IsValid :
      IsValid (record a { free_list = merged a p n; allocated = erase p a.allocated })
  merged-IsValid = record {
    buffer = v.buffer;
    gapped = merged-Gapped;
    blocks = erase-Entries _ p a.allocated v.blocks;
    tiled = λ x.
        omega (arith, v.tiled x, merged-free_at x, total-erase (block_at x) p n a.allocated live);
  }

  pub free_live :
      0 < p
      → free a p ≡ (ok tt, record a { free_list = merged a p n; allocated = erase p a.allocated })
  unfolding free
  free_live pos =
      let nonnull : (p == 0) ≡ false = ground arith in
      let offset : sub_word p a.buffer.begin ≡ p - a.buffer.begin =
        omega (arith, live_bounds, v.buffer.word) in
      rw (nonnull, live, offset) refl

-- A pointer that is no live block is refused, and nothing changes.
pub free_unknown :
    (a : ListAllocator) (p : ℕ)
    → 0 < p
    → find p a.allocated ≡ none
    → free a p ≡ (throws invalid_argument, a)
unfolding free
free_unknown a p pos missing =
    let nonnull : (p == 0) ≡ false = ground arith in rw (nonnull, missing)

-- A free, of whatever pointer, leaves a valid list allocator valid: the free ranges are sorted,
-- not empty and not adjacent, and each byte of the range is free or in one live block.
pub free-IsValid : (a : ListAllocator) (p : ℕ) → IsValid a → IsValid (free a p).1
free-IsValid a zero v = unfold free in v
free-IsValid a (suc q) v = elim (Option-cases (find (suc q) a.allocated)) [
  | inl missing ↦ rw (free_unknown a (suc q) (omega arith) missing) v
  | inr (n, live) ↦
      rw (free_live a (suc q) n v live (omega arith)) (merged-IsValid a (suc q) n v live)
]
