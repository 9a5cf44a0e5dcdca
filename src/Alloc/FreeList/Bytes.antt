-- ===== src/Alloc/FreeList/Bytes.antt =====
-- Byte accounting of `ListAllocator`: `free_bytes` and the sizes of the live blocks make up the
-- capacity.
use iom.Base.{
  Option-cases, get_elem?, max_word, add_word, ℕ, zero, suc, ◌+◌, ◌-◌, ◌≤◌, ◌<◌, ◌≡◌, inl, inr,
  some, List, [], ◌∷◌, arith,
}
use iom.Alloc.Buffer.{capacity}
use iom.Alloc.Buffer.Bounds.{capacity_lem}
use iom.Alloc.FreeList.{Block, ListAllocator, sum_sizes, free_bytes, alloc, free, remains, reset}
use iom.Alloc.FreeList.Table.{find, assign, erase, total, total-assign, total-erase}
use iom.Alloc.FreeList.Shape.{Gapped}
use iom.Alloc.FreeList.Amount.{
  amount, Additive, amount-splice, amount-remains, amount-insert, amount-coalesce,
  amount-some_block,
}
use iom.Alloc.FreeList.Scan.{Fits}
use iom.Alloc.FreeList.Inv.{IsValid, Gapped-get_elem?}
use iom.Alloc.FreeList.Grant.{cut, alloc_cases}
use iom.Alloc.FreeList.Keep.{granted_fresh}
use iom.Alloc.FreeList.Release.{released, merged, inserted-Ordered, free_live, free_unknown}

abbrev pub extent : ℕ → ℕ → ℕ
extent lo hi = hi - lo

extent-Additive : Additive extent
extent-Additive lo mid hi h k = omega arith

-- The sizes of the live blocks.
abbrev pub live_bytes : ListAllocator → ℕ
live_bytes a = total (λ p n. n) a.allocated

amount-le-hi :
    (lo hi : ℕ) (blocks : List Block)
    → lo ≤ hi
    → Gapped lo hi blocks
    → lo + amount extent blocks ≤ hi
amount-le-hi lo hi [] h g = omega arith
amount-le-hi lo hi (b ∷ []) h g = omega arith
amount-le-hi lo hi (b ∷ c ∷ blocks) h g =
    omega (arith, amount-le-hi (b.offset + b.size + 1) hi (c ∷ blocks) (omega arith) g.3)

sum_sizes_lem :
    (blocks : List Block) (acc : ℕ)
    → acc + amount extent blocks ≤ max_word
    → sum_sizes blocks acc ≡ acc + amount extent blocks
sum_sizes_lem [] acc h = omega arith
sum_sizes_lem (b ∷ blocks) acc h =
    let next : add_word acc b.size ≡ acc + b.size = omega arith in
    rw next (omega (arith, sum_sizes_lem blocks (acc + b.size) (omega arith)))

-- The sum does not wrap.
free_bytes_lem : (a : ListAllocator) → IsValid a → free_bytes a ≡ amount extent a.free_list
unfolding free_bytes
free_bytes_lem a v = omega (arith, sum_sizes_lem a.free_list 0 (omega (arith, bound)))
  where
    bound : 0 + amount extent a.free_list ≤ max_word
    bound = omega (
      arith,
      amount-le-hi 0 (capacity a.buffer) a.free_list (omega arith) v.gapped,
      capacity_lem v.buffer,
      v.buffer.word,
    )

abbrev pub Balanced : ListAllocator → Type 0
Balanced a = amount extent a.free_list + live_bytes a ≡ capacity a.buffer

pub Balanced-free_bytes :
    (a : ListAllocator) → IsValid a → Balanced a → free_bytes a + live_bytes a ≡ capacity a.buffer
Balanced-free_bytes a v b = omega (arith, free_bytes_lem a v, b)

pub reset-Balanced : (a : ListAllocator) → Balanced (reset a)
unfolding reset total
reset-Balanced a = omega (arith, amount-some_block extent extent-Additive 0 (capacity a.buffer))

cut-Balanced :
    (a : ListAllocator) (sz j p : ℕ) (c : Block)
    → 0 < sz
    → IsValid a
    → get_elem? a.free_list j ≡ some c
    → Fits a.buffer sz c p
    → Balanced a
    → Balanced (record a { free_list = cut a sz j c p; allocated = assign p sz a.allocated })
cut-Balanced a sz j p c pos v at fits b = omega (
  arith,
  b,
  inside,
  amount-splice extent j a.free_list (remains c padding tot) c at,
  amount-remains extent extent-Additive c padding tot (omega arith)
      (omega (arith, fits.up.above, fits.room))
      (omega (arith, inside, capacity_lem v.buffer, v.buffer.word)),
  total-assign (λ p n. n) p sz a.allocated (granted_fresh a sz j p c pos v at fits),
  fits.up.above,
)
  where
    padding : ℕ
    padding = p - (a.buffer.begin + c.offset)

    tot : ℕ
    tot = p + sz - (a.buffer.begin + c.offset)

    inside : c.offset + c.size ≤ capacity a.buffer
    inside = (Gapped-get_elem? 0 (capacity a.buffer) j a.free_list c at v.gapped).3

pub alloc-Balanced :
    (a : ListAllocator) (sz : ℕ) → sz ≤ max_word → IsValid a → Balanced a → Balanced (alloc a sz).1
alloc-Balanced a zero w v b = unfold alloc in b
alloc-Balanced a (suc n) w v b = elim (alloc_cases a (suc n) (omega arith) w v) [
  | inl (p, e, g) ↦ rw g.after (cut-Balanced a (suc n) g.j p g.chosen (omega arith) v g.at g.fits b)
  | inr (inl (e, _)) ↦ rw e b
  | inr (inr (e, _)) ↦ rw e b
]

merged-Balanced :
    (a : ListAllocator) (p n : ℕ)
    → IsValid a
    → find p a.allocated ≡ some n
    → Balanced a
    → Balanced (record a { free_list = merged a p n; allocated = erase p a.allocated })
merged-Balanced a p n v live b = omega (
  arith,
  b,
  amount-coalesce extent extent-Additive 0 (capacity a.buffer) _
      (omega (arith, capacity_lem v.buffer, v.buffer.word)) (inserted-Ordered a p n v live),
  amount-insert extent a.free_list (released a p n),
  total-erase (λ p n. n) p n a.allocated live,
)

pub free-Balanced : (a : ListAllocator) (p : ℕ) → IsValid a → Balanced a → Balanced (free a p).1
free-Balanced a zero v b = unfold free in b
free-Balanced a (suc q) v b = elim (Option-cases (find (suc q) a.allocated)) [
  | inl missing ↦ rw (free_unknown a (suc q) (omega arith) missing) b
  | inr (n, live) ↦
      rw (free_live a (suc q) n v live (omega arith)) (merged-Balanced a (suc q) n v live b)
]
