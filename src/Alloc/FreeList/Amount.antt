-- ===== src/Alloc/FreeList/Amount.antt =====
-- What the free ranges hold in all, for any measure that adds up over adjacent ranges: the number
-- of their bytes, or whether a byte lies in them.
use mathlib.Core.Path.{ap₂}
use iom.Base.{
  ◌==◌, Bool-cases, get_elem?, take, drop, max_word, add_word, sub_word, ℕ, zero, suc, ◌+◌, ◌≤◌,
  ◌≡◌, refl, sym, ap, inl, inr, some, List, [], ◌∷◌, ◌++◌, arith,
}
use iom.Alloc.FreeList.{Block, some_block, remains, insert_free_block, coalesce_from, coalesce}
use iom.Alloc.FreeList.Shape.{Ordered, merged, merged_lem, merged-Ordered}

module _ (f : ℕ → ℕ → ℕ) where
  abbrev pub amount : List Block → ℕ
  amount [] = 0
  amount (b ∷ blocks) = f b.offset (b.offset + b.size) + amount blocks

  abbrev pub Additive : Type 0
  Additive = (lo mid hi : ℕ) → lo ≤ mid → mid ≤ hi → f lo mid + f mid hi ≡ f lo hi

  amount-append : (xs ys : List Block) → amount (xs ++ ys) ≡ amount xs + amount ys
  amount-append [] ys = omega arith
  amount-append (x ∷ xs) ys = omega (arith, amount-append xs ys)

  pub amount-splice :
      (i : ℕ) (blocks mid : List Block) (b : Block)
      → get_elem? blocks i ≡ some b
      → amount (take i blocks ++ (mid ++ drop (suc i) blocks)) + f b.offset (b.offset + b.size)
        ≡ amount blocks + amount mid
  amount-splice i [] mid b e = cc
  amount-splice zero (x ∷ blocks) mid b e =
      let same : x ≡ b = cc in rw (← same) (omega (arith, amount-append mid blocks))
  amount-splice (suc i) (x ∷ blocks) mid b e = omega (arith, amount-splice i blocks mid b e)

  pub le-amount :
      (j : ℕ) (blocks : List Block) (b : Block)
      → get_elem? blocks j ≡ some b
      → f b.offset (b.offset + b.size) ≤ amount blocks
  le-amount j [] b e = cc
  le-amount zero (x ∷ blocks) b e = let same : x ≡ b = cc in rw (← same) (omega arith)
  le-amount (suc j) (x ∷ blocks) b e = omega (arith, le-amount j blocks b e)

  pub amount-insert :
      (blocks : List Block) (r : Block)
      → amount (insert_free_block blocks r) ≡ f r.offset (r.offset + r.size) + amount blocks
  unfolding insert_free_block
  amount-insert [] r = refl
  amount-insert (b ∷ blocks) r = ground (arith, amount-insert blocks r)

module _ (f : ℕ → ℕ → ℕ) (additive : Additive f) where
  amount_merged :
      (last b : Block)
      → last.offset + last.size ≡ b.offset
      → f last.offset (b.offset + b.size)
        ≡ f last.offset (last.offset + last.size) + f b.offset (b.offset + b.size)
  amount_merged last b e = rw e (sym (additive _ _ _ (omega arith) (omega arith)))

  amount-coalesce_from :
      (lo hi : ℕ) (last : Block) (blocks : List Block)
      → hi ≤ max_word
      → Ordered lo hi (last ∷ blocks)
      → amount f (coalesce_from last blocks) ≡ amount f (last ∷ blocks)
  unfolding coalesce_from
  amount-coalesce_from lo hi last [] w o = refl
  amount-coalesce_from lo hi last (b ∷ blocks) w o =
      elim (Bool-cases (add_word last.offset last.size == b.offset)) [
        | inl touch ↦
            let (meet, end) = merged_lem lo hi last b blocks w o touch in
            rw (touch, coalesce_from)
              (omega (
                arith,
                amount-coalesce_from lo hi (merged last b) blocks w
                    (merged-Ordered lo hi last b blocks w o touch),
                ap (f last.offset) end,
                amount_merged last b meet,
              ))
        | inr apart ↦
            rw (apart, coalesce_from)
              (omega (arith, amount-coalesce_from (last.offset + last.size) hi b blocks w o.3))
      ]

  pub amount-coalesce :
      (lo hi : ℕ) (blocks : List Block)
      → hi ≤ max_word
      → Ordered lo hi blocks
      → amount f (coalesce blocks) ≡ amount f blocks
  unfolding coalesce
  amount-coalesce lo hi [] w o = refl
  amount-coalesce lo hi (b ∷ blocks) w o = amount-coalesce_from lo hi b blocks w o

  pub amount-some_block :
      (offset size : ℕ) → amount f (some_block offset size) ≡ f offset (offset + size)
  amount-some_block offset zero =
      let whole : offset + 0 ≡ offset = omega arith in
      omega (arith, ap (f offset) whole, additive offset offset offset (omega arith) (omega arith))
  amount-some_block offset (suc size) = ground arith

  -- The parts that stay free and the part that is handed out make up the chosen range.
  pub amount-remains :
      (b : Block) (padding total : ℕ)
      → padding ≤ total
      → total ≤ b.size
      → b.offset + b.size ≤ max_word
      → amount f (remains b padding total) + f (b.offset + padding) (b.offset + total)
        ≡ f b.offset (b.offset + b.size)
  unfolding remains
  amount-remains b padding total h k w = omega (
    arith,
    amount-append f (some_block b.offset padding)
        (some_block (add_word b.offset total) (sub_word b.size total)),
    amount-some_block b.offset padding,
    amount-some_block (add_word b.offset total) (sub_word b.size total),
    ap₂ f start finish,
    additive b.offset (b.offset + padding) (b.offset + total) (omega arith) (omega arith),
    additive b.offset (b.offset + total) (b.offset + b.size) (omega arith) (omega arith),
  )
    where
      start : add_word b.offset total ≡ b.offset + total
      start = omega arith

      finish : add_word b.offset total + sub_word b.size total ≡ b.offset + b.size
      finish = omega arith
