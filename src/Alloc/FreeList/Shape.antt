-- ===== src/Alloc/FreeList/Shape.antt =====
-- The order of the free ranges: `Ordered` while a released range is being inserted, `Gapped`,
-- with no two ranges adjacent, in every published list.
use iom.Base.{
  ltb, ◌==◌, ltb→lt, ltb→le, Bool-cases, get_elem?, take, drop, max_word, add_word, sub_word, ℕ,
  zero, suc, ◌+◌, ◌≤◌, ◌<◌, ◌≡◌, subst, ◌⊎◌, inl, inr, true, some, List, [], ◌∷◌, ◌++◌, arith,
}
use iom.Alloc.FreeList.{some_block, remains, Block, insert_free_block, coalesce_from, coalesce}

-- The ranges stand between `lo` and `hi` in ascending order, none is empty, and none meets another.
abbrev pub Ordered : ℕ → ℕ → List Block → Type 0
Ordered lo hi [] = Unit {0}
Ordered lo hi (b ∷ blocks) =
    (lo ≤ b.offset)
    × (0 < b.size)
    × (b.offset + b.size ≤ hi)
    × Ordered (b.offset + b.size) hi blocks

-- Besides, no range begins where another ends.
abbrev pub Gapped : ℕ → ℕ → List Block → Type 0
Gapped lo hi [] = Unit {0}
Gapped lo hi (b ∷ blocks) =
    (lo ≤ b.offset)
    × (0 < b.size)
    × (b.offset + b.size ≤ hi)
    × Gapped (b.offset + b.size + 1) hi blocks

Gapped-mono : (l m hi : ℕ) (blocks : List Block) → l ≤ m → Gapped m hi blocks → Gapped l hi blocks
Gapped-mono l m hi [] h g = tt
Gapped-mono l m hi (b ∷ blocks) h g = (omega arith, g.1, g.2, g.3)

Ordered-mono :
    (l m hi : ℕ) (blocks : List Block) → l ≤ m → Ordered m hi blocks → Ordered l hi blocks
Ordered-mono l m hi [] h g = tt
Ordered-mono l m hi (b ∷ blocks) h g = (omega arith, g.1, g.2, g.3)

pub Gapped-Ordered : (lo hi : ℕ) (blocks : List Block) → Gapped lo hi blocks → Ordered lo hi blocks
Gapped-Ordered lo hi [] g = tt
Gapped-Ordered lo hi (b ∷ blocks) g = (
  g.0,
  g.1,
  g.2,
  Gapped-Ordered (b.offset + b.size) hi blocks (Gapped-mono _ _ hi blocks (omega arith) g.3),
)

Gapped-append :
    (lo mid hi : ℕ) (xs ys : List Block)
    → lo ≤ mid + 1
    → mid ≤ hi
    → Gapped lo mid xs
    → Gapped (mid + 1) hi ys
    → Gapped lo hi (xs ++ ys)
Gapped-append lo mid hi [] ys l h gx gy = Gapped-mono lo (mid + 1) hi ys l gy
Gapped-append lo mid hi (x ∷ xs) ys l h gx gy = (
  gx.0,
  gx.1,
  omega arith,
  Gapped-append (x.offset + x.size + 1) mid hi xs ys (omega arith) h gx.3 gy,
)

pub some_block-Gapped :
    (lo hi offset size : ℕ)
    → lo ≤ offset
    → offset + size ≤ hi
    → Gapped lo hi (some_block offset size)
some_block-Gapped lo hi offset zero l h = tt
some_block-Gapped lo hi offset (suc size) l h = ground arith

-- What stays free of a range, with at least one byte handed out of it, lies in it with a gap.
pub remains-Gapped :
    (b : Block) (padding total : ℕ)
    → padding < total
    → total ≤ b.size
    → b.offset + b.size ≤ max_word
    → Gapped b.offset (b.offset + b.size) (remains b padding total)
unfolding remains
remains-Gapped b padding total p t w =
    Gapped-append b.offset (b.offset + padding) (b.offset + b.size) (some_block b.offset padding)
      (some_block (add_word b.offset total) (sub_word b.size total)) (omega arith) (omega arith)
      (some_block-Gapped b.offset (b.offset + padding) b.offset padding (omega arith) (omega arith))
      (some_block-Gapped (b.offset + padding + 1) (b.offset + b.size) (add_word b.offset total)
        (sub_word b.size total) (omega arith) (omega arith))

-- To put ranges in the place of one that holds them.
pub splice-Gapped :
    (lo hi i : ℕ) (blocks mid : List Block) (b : Block)
    → get_elem? blocks i ≡ some b
    → Gapped lo hi blocks
    → Gapped b.offset (b.offset + b.size) mid
    → Gapped lo hi (take i blocks ++ (mid ++ drop (suc i) blocks))
splice-Gapped lo hi i [] mid b e g m = cc
splice-Gapped lo hi zero (x ∷ blocks) mid b e g m =
    let same : b ≡ x = cc in
    let m' = subst (λ (y : Block). Gapped y.offset (y.offset + y.size) mid) same m in
    Gapped-append lo (x.offset + x.size) hi mid blocks (omega arith) g.2
      (Gapped-mono lo x.offset (x.offset + x.size) mid g.0 m') g.3
splice-Gapped lo hi (suc i) (x ∷ blocks) mid b e g m =
    (g.0, g.1, g.2, splice-Gapped (x.offset + x.size + 1) hi i blocks mid b e g.3 m)

-- Two adjacent ranges, joined as `coalesce` joins them.
abbrev pub merged : Block → Block → Block
merged last b = record last { size = add_word last.size b.size }

pub merged_lem :
    (lo hi : ℕ) (last b : Block) (blocks : List Block)
    → hi ≤ max_word
    → Ordered lo hi (last ∷ b ∷ blocks)
    → (add_word last.offset last.size == b.offset) ≡ true
    → (last.offset + last.size ≡ b.offset)
      × (last.offset + add_word last.size b.size ≡ b.offset + b.size)
merged_lem lo hi last b blocks w o touch = ground arith

pub merged-Ordered :
    (lo hi : ℕ) (last b : Block) (blocks : List Block)
    → hi ≤ max_word
    → Ordered lo hi (last ∷ b ∷ blocks)
    → (add_word last.offset last.size == b.offset) ≡ true
    → Ordered lo hi (merged last b ∷ blocks)
merged-Ordered lo hi last b blocks w o touch =
    let (meet, end) = merged_lem lo hi last b blocks w o touch in
    (o.0, omega (arith, o.1, o.3.1), omega (arith, o.3.2), rw end o.3.3)

pub coalesce_from-Gapped :
    (lo hi : ℕ) (last : Block) (blocks : List Block)
    → hi ≤ max_word
    → Ordered lo hi (last ∷ blocks)
    → Gapped lo hi (coalesce_from last blocks)
unfolding coalesce_from
coalesce_from-Gapped lo hi last [] w o = (o.0, o.1, o.2, tt)
coalesce_from-Gapped lo hi last (b ∷ blocks) w o =
    elim (Bool-cases (add_word last.offset last.size == b.offset)) [
      | inl touch ↦
          rw (touch, coalesce_from)
            (coalesce_from-Gapped lo hi (merged last b) blocks w
              (merged-Ordered lo hi last b blocks w o touch))
      | inr apart ↦
          rw (apart, coalesce_from)
            (
              o.0,
              o.1,
              o.2,
              coalesce_from-Gapped (last.offset + last.size + 1) hi b blocks w
                  (ground arith, o.3.1, o.3.2, o.3.3),
            )
    ]

pub coalesce-Gapped :
    (lo hi : ℕ) (blocks : List Block)
    → hi ≤ max_word
    → Ordered lo hi blocks
    → Gapped lo hi (coalesce blocks)
unfolding coalesce
coalesce-Gapped lo hi [] w o = tt
coalesce-Gapped lo hi (b ∷ blocks) w o = coalesce_from-Gapped lo hi b blocks w o

-- A range meets no range of the list.
abbrev pub Apart : Block → List Block → Type 0
Apart r [] = Unit {0}
Apart r (b ∷ blocks) =
    ((r.offset + r.size ≤ b.offset) ⊎ (b.offset + b.size ≤ r.offset)) × Apart r blocks

pub insert_free_block-Ordered :
    (lo hi : ℕ) (blocks : List Block) (r : Block)
    → lo ≤ r.offset
    → 0 < r.size
    → r.offset + r.size ≤ hi
    → Apart r blocks
    → Ordered lo hi blocks
    → Ordered lo hi (insert_free_block blocks r)
unfolding insert_free_block
insert_free_block-Ordered lo hi [] r l p h a o = (l, p, h, tt)
insert_free_block-Ordered lo hi (b ∷ blocks) r l p h a o =
    elim (Bool-cases (ltb b.offset r.offset)) [
      | inl before ↦
          rw (before, insert_free_block)
            (
              o.0,
              o.1,
              o.2,
              insert_free_block-Ordered (b.offset + b.size) hi blocks r
                  (omega (arith, a.0, ltb→lt b.offset r.offset before)) p h a.1 o.3,
            )
      | inr after ↦
          rw (after, insert_free_block)
            (l, p, h, (omega (arith, a.0, o.1, ltb→le b.offset r.offset after), o.1, o.2, o.3))
    ]
