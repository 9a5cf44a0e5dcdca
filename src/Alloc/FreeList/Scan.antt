-- ===== src/Alloc/FreeList/Scan.antt =====
-- The search loop of `ListAllocator::alloc` finds the free range that wastes least.
use native.Mathlib.Decide.{dec_lt}
use iom.Base.{
  get_elem?, All, max_word, add_word, overflow_error, ok, throws, ℕ, zero, suc, ◌+◌, ◌-◌, ◌≤◌, ◌<◌,
  ◌≡◌, refl, ap, ◌∙◌, ◌⊎◌, inl, inr, some, List, [], ◌∷◌, arith,
}
use iom.Alloc.Buffer.{Buffer}
use iom.Alloc.Buffer.Align.{RoundsUp, RoundsUp-least, align_up_addr_lem}
use iom.Alloc.Buffer.Bounds.{IsValid}
use iom.Alloc.FreeList.{scan, Block, Best, scan_block}

-- A request of `sz` bytes fits into the range at the address `r`.
pub record Fits (b : Buffer) (sz : ℕ) (block : Block) (r : ℕ) : Type 0 where
  pub up : RoundsUp b.align (b.begin + block.offset) r
  pub room : r + sz ≤ b.begin + block.offset + block.size

-- The bytes behind the request.
abbrev pub waste : Buffer → ℕ → Block → ℕ → ℕ
waste b sz block r = b.begin + block.offset + block.size - (r + sz)

abbrev pub choice : Buffer → ℕ → ℕ → Block → ℕ → Best
choice b sz i block r = record {
  index = i;
  waste = waste b sz block r;
  addr = r;
  total = r + sz - (b.begin + block.offset);
}

abbrev pub InRange : Buffer → Block → Type 0
InRange b block = b.begin + block.offset + block.size ≤ b.raw_end

pub RoundsUp-unique : (a x r s : ℕ) → RoundsUp a x r → RoundsUp a x s → r ≡ s
RoundsUp-unique a x r s u v = omega (
  arith,
  RoundsUp-least a x r s u v.multiple v.above,
  RoundsUp-least a x s r v u.multiple u.above,
)

-- What one round does: it fails, passes the range over, or chooses it.
abbrev Passed : Buffer → ℕ → ℕ → Block → Best → Type 0
Passed b sz i block best =
    (r : ℕ) × RoundsUp b.align (b.begin + block.offset) r
    × ((b.begin + block.offset + block.size < r + sz) ⊎ (best.waste ≤ waste b sz block r))
    × (scan_block b sz i block best ≡ ok best)

abbrev Chosen : Buffer → ℕ → ℕ → Block → Best → Type 0
Chosen b sz i block best =
    (r : ℕ) × Fits b sz block r
    × (waste b sz block r < best.waste)
    × (scan_block b sz i block best ≡ ok (choice b sz i block r))

scan_block_cases :
    (b : Buffer) (sz i : ℕ) (block : Block) (best : Best)
    → IsValid b
    → sz ≤ max_word
    → InRange b block
    → (scan_block b sz i block best ≡ throws overflow_error)
        × (max_word < b.begin + block.offset + (b.align - 1))
      ⊎ Passed b sz i block best
      ⊎ Chosen b sz i block best
unfolding scan_block
scan_block_cases b sz i block best v w range =
    elim (align_up_addr_lem b.align (b.begin + block.offset) v.alignment (omega arith)) [
      | inr (over, e) ↦ inl (rw (start, e), over)
      | inl (fits, r, e, up) ↦ elim (dec_lt (b.begin + block.offset + block.size) (r + sz)) [
        | yes small ↦ inr (inl (r, up, inl small, rw (start, e) (ground (arith, up))))
        | no room ↦ elim (dec_lt (waste b sz block r) best.waste) [
          | yes less ↦ inr (
              inr (
                r,
                record { up = up; room = omega arith },
                less,
                rw (start, e) (ground (arith, up)),
              ))
          | no more ↦ inr (inl (r, up, inr (omega arith), rw (start, e) (ground (arith, up))))
        ]
      ]
    ]
  where
    start : add_word b.begin block.offset ≡ b.begin + block.offset
    start = omega arith

-- The range that the loop ends with: one that fits, or the one that it began with, and no range
-- that fits wastes less.
pub record Selected (b : Buffer) (sz i : ℕ) (blocks : List Block) (best best' : Best) : Type 0 where
  pub origin :
      (best' ≡ best)
      ⊎ ((j : ℕ) × (block : Block) × (r : ℕ) × (get_elem? blocks j ≡ some block)
          × Fits b sz block r
          × (best' ≡ choice b sz (i + j) block r))
  pub less : best'.waste ≤ best.waste
  pub least : All (λ block. (r : ℕ) → Fits b sz block r → best'.waste ≤ waste b sz block r) blocks

Selected-Passed :
    (b : Buffer) (sz i : ℕ) (block : Block) (blocks : List Block) (best best' : Best)
    → Passed b sz i block best
    → Selected b sz (i + 1) blocks best best'
    → Selected b sz i (block ∷ blocks) best best'
Selected-Passed b sz i block blocks best best' (r, up, why, e) s = record {
  origin = elim s.origin [
    | inl same ↦ inl same
    | inr (j, c, t, at, fits, chosen) ↦
        inr (suc j, c, t, at, fits, chosen ∙ ap (λ (k : ℕ). choice b sz k c t) (omega arith))
  ];
  less = s.less;
  least = (
    λ t fits. omega (arith, RoundsUp-unique b.align (b.begin + block.offset) r t up fits.up),
    s.least,
  );
}

Selected-chosen :
    (b : Buffer) (sz i : ℕ) (block : Block) (blocks : List Block) (best best' : Best) (r : ℕ)
    → Fits b sz block r
    → waste b sz block r < best.waste
    → Selected b sz (i + 1) blocks (choice b sz i block r) best'
    → Selected b sz i (block ∷ blocks) best best'
Selected-chosen b sz i block blocks best best' r fits smaller s = record {
  origin = elim s.origin [
    | inl same ↦
        inr (zero, block, r, refl, fits, same ∙ ap (λ (k : ℕ). choice b sz k block r) (omega arith))
    | inr (j, c, t, at, fits', chosen) ↦
        inr (suc j, c, t, at, fits', chosen ∙ ap (λ (k : ℕ). choice b sz k c t) (omega arith))
  ];
  less = omega arith;
  least = (
    λ t other. omega (arith, RoundsUp-unique b.align (b.begin + block.offset) r t fits.up other.up),
    s.least,
  );
}

pub scan_cases :
    (b : Buffer) (sz i : ℕ) (blocks : List Block) (best : Best)
    → IsValid b
    → sz ≤ max_word
    → All (InRange b) blocks
    → (scan b sz i blocks best ≡ throws overflow_error)
        × ((j : ℕ) × (block : Block) × (get_elem? blocks j ≡ some block)
            × (max_word < b.begin + block.offset + (b.align - 1)))
      ⊎ ((best' : Best) × (scan b sz i blocks best ≡ ok best') × Selected b sz i blocks best best')
unfolding scan
scan_cases b sz i [] best v w range =
    inr (best, refl, record { origin = inl refl; less = omega arith; least = tt })
scan_cases b sz i (block ∷ blocks) best v w range =
    elim (scan_block_cases b sz i block best v w range.0) [
      | inl (e, over) ↦ inl (rw (e, scan), (zero, block, refl, over))
      | inr (inl p) ↦ elim (scan_cases b sz (i + 1) blocks best v w range.1) [
        | inl (e, found) ↦ inl (rw (p.3, scan) e, (suc found.0, found.1, found.2, found.3))
        | inr (best', e, s) ↦
            inr (best', rw (p.3, scan) e, Selected-Passed b sz i block blocks best best' p s)
      ]
      | inr (inr (r, fits, smaller, chosen)) ↦
          elim (scan_cases b sz (i + 1) blocks (choice b sz i block r) v w range.1) [
            | inl (e, found) ↦ inl (rw (chosen, scan) e, (suc found.0, found.1, found.2, found.3))
            | inr (best', e, s) ↦ inr (
              best',
              rw (chosen, scan) e,
              Selected-chosen b sz i block blocks best best' r fits smaller s,
            )
          ]
    ]
