-- ===== src/Alloc/FreeList/Canonical.antt =====
-- A published free list is determined by the bytes that are free, so that giving a block back
-- undoes its allocation.
use mathlib.Core.Path.{ap₂}
use iom.Base.{
  get_elem?, max_word, ok, ℕ, ◌+◌, ◌≤◌, ◌<◌, ◌≡◌, refl, sym, ap, ◌∙◌, inl, inr, none, some, List,
  [], ◌∷◌, arith, dec_lt,
}
use iom.Alloc.Buffer.{Buffer, capacity}
use iom.Alloc.FreeList.{Block, ListAllocator, alloc, free}
use iom.Alloc.FreeList.Table.{find, assign, find-assign, erase-assign}
use iom.Alloc.FreeList.Scan.{Fits}
use iom.Alloc.FreeList.Shape.{Gapped}
use iom.Alloc.FreeList.Inv.{IsValid, within, within_inside, within_outside, free_at}
use iom.Alloc.FreeList.Grant.{cut, alloc_cases}
use iom.Alloc.FreeList.Keep.{cut-IsValid, cut-free_at, granted_fresh}
use iom.Alloc.FreeList.Release.{merged, merged-Gapped, merged-free_at, free_live}

-- No byte below the first range is free.
free_at_below :
    (b : Buffer) (lo hi x : ℕ) (blocks : List Block)
    → Gapped lo hi blocks
    → x < b.begin + lo
    → free_at b blocks x ≡ 0
free_at_below b lo hi x [] g h = refl
free_at_below b lo hi x (c ∷ blocks) g h = omega (
  arith,
  within_outside x (b.begin + c.offset) (b.begin + (c.offset + c.size)) (inl (omega arith)),
  free_at_below b (c.offset + c.size + 1) hi x blocks g.3 (omega arith),
)

free_at_head :
    (b : Buffer) (x : ℕ) (c : Block) (blocks : List Block)
    → b.begin + c.offset ≤ x
    → x < b.begin + (c.offset + c.size)
    → 1 ≤ free_at b (c ∷ blocks) x
free_at_head b x c blocks l h =
    omega (arith, within_inside x (b.begin + c.offset) (b.begin + (c.offset + c.size)) l h)

Block_path : (c d : Block) → c.offset ≡ d.offset → c.size ≡ d.size → c ≡ d
Block_path c d e f = cc

-- The first ranges of two lists with the same free bytes begin at the same byte...
heads_begin :
    (b : Buffer) (lo hi : ℕ) (c d : Block) (xs ys : List Block)
    → Gapped lo hi (c ∷ xs)
    → Gapped lo hi (d ∷ ys)
    → ((x : ℕ) → free_at b (c ∷ xs) x ≡ free_at b (d ∷ ys) x)
    → d.offset ≤ c.offset
heads_begin b lo hi c d xs ys g k same = elim (dec_lt c.offset d.offset) [
  | no le ↦ omega arith
  | yes lt ↦ absurd (
      omega (
        arith,
        same (b.begin + c.offset),
        free_at_head b (b.begin + c.offset) c xs (omega arith) (omega (arith, g.1)),
        free_at_below b d.offset hi (b.begin + c.offset) (d ∷ ys) (omega arith, k.1, k.2, k.3)
            (omega arith),
      ))
]

-- ...and end at the same byte.
heads_end :
    (b : Buffer) (lo hi : ℕ) (c d : Block) (xs ys : List Block)
    → Gapped lo hi (c ∷ xs)
    → Gapped lo hi (d ∷ ys)
    → c.offset ≡ d.offset
    → ((x : ℕ) → free_at b (c ∷ xs) x ≡ free_at b (d ∷ ys) x)
    → d.size ≤ c.size
heads_end b lo hi c d xs ys g k e same = elim (dec_lt c.size d.size) [
  | no le ↦ omega arith
  | yes lt ↦ absurd (
      omega (
        arith,
        same (b.begin + (c.offset + c.size)),
        free_at_head b (b.begin + (c.offset + c.size)) d ys (omega arith) (omega arith),
        within_outside (b.begin + (c.offset + c.size)) (b.begin + c.offset)
            (b.begin + (c.offset + c.size)) (inr (omega arith)),
        free_at_below b (c.offset + c.size + 1) hi (b.begin + (c.offset + c.size)) xs g.3
            (omega arith),
      ))
]

pub Gapped-unique :
    (b : Buffer) (lo hi : ℕ) (xs ys : List Block)
    → Gapped lo hi xs
    → Gapped lo hi ys
    → ((x : ℕ) → free_at b xs x ≡ free_at b ys x)
    → xs ≡ ys
Gapped-unique b lo hi [] [] g k same = refl
Gapped-unique b lo hi [] (d ∷ ys) g k same = absurd (
    omega (
      arith,
      same (b.begin + d.offset),
      free_at_head b (b.begin + d.offset) d ys (omega arith) (omega (arith, k.1)),
    ))
Gapped-unique b lo hi (c ∷ xs) [] g k same = absurd (
    omega (
      arith,
      same (b.begin + c.offset),
      free_at_head b (b.begin + c.offset) c xs (omega arith) (omega (arith, g.1)),
    ))
Gapped-unique b lo hi (c ∷ xs) (d ∷ ys) g k same = ap₂ ◌∷◌ head (
    Gapped-unique b (c.offset + c.size + 1) hi xs ys g.3 (rw head k.3) λ x. omega (
      arith,
      same x,
      ap (λ (t : Block). within x (b.begin + t.offset) (b.begin + (t.offset + t.size))) head,
    ))
  where
    begins : c.offset ≡ d.offset
    begins = omega (
      arith,
      heads_begin b lo hi c d xs ys g k same,
      heads_begin b lo hi d c ys xs k g (λ x. sym (same x)),
    )

    head : c ≡ d
    head = Block_path c d begins (
        omega (
          arith,
          heads_end b lo hi c d xs ys g k begins same,
          heads_end b lo hi d c ys xs k g (sym begins) (λ x. sym (same x)),
        ))

undo :
    (a : ListAllocator) (sz j p : ℕ) (c : Block)
    → 0 < sz
    → 0 < a.buffer.begin
    → IsValid a
    → get_elem? a.free_list j ≡ some c
    → Fits a.buffer sz c p
    → free (record a { free_list = cut a sz j c p; allocated = assign p sz a.allocated }) p
      ≡ (ok tt, a)
undo a sz j p c pos nonnull v at fits =
    free_live after p sz after_valid live (omega (arith, fits.up.above))
    ∙ ap₂
        (λ (l : List Block) (t : List (ℕ × ℕ)). (ok tt, record a { free_list = l; allocated = t }))
        (Gapped-unique a.buffer 0 (capacity a.buffer) (merged after p sz) a.free_list
          (merged-Gapped after p sz after_valid live) v.gapped
          λ x. omega (
            arith,
            merged-free_at after p sz after_valid live x,
            cut-free_at a sz j p c pos v at fits x,
          ))
        (erase-assign p sz a.allocated fresh)
  where
    after : ListAllocator
    after = record a { free_list = cut a sz j c p; allocated = assign p sz a.allocated }

    after_valid : IsValid after
    after_valid = cut-IsValid a sz j p c pos v at fits

    fresh : find p a.allocated ≡ none
    fresh = granted_fresh a sz j p c pos v at fits

    live : find p (assign p sz a.allocated) ≡ some sz
    live = ground (arith, find-assign p p sz a.allocated)

-- For a valid list allocator whose range does not begin at the null address, giving back the
-- pointer that a request of a nonzero word size has just returned succeeds and leaves the
-- allocator exactly as it was before the request.
pub free-alloc :
    (a : ListAllocator) (sz p : ℕ)
    → 0 < sz
    → sz ≤ max_word
    → IsValid a
    → 0 < a.buffer.begin
    → (alloc a sz).0 ≡ ok p
    → free (alloc a sz).1 p ≡ (ok tt, a)
free-alloc a sz p pos w v nonnull e = elim (alloc_cases a sz pos w v) [
  | inl (q, e', g) ↦
      let same : q ≡ p = cc in
      rw (g.after, ← same) (undo a sz g.j q g.chosen pos nonnull v g.at g.fits)
  | inr (inl (e', _)) ↦ cc (ap (λ t. t.0) e')
  | inr (inr (e', _)) ↦ cc (ap (λ t. t.0) e')
]
