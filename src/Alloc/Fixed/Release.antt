-- ===== src/Alloc/Fixed/Release.antt =====
-- Giving blocks of `FixedSizeAllocator` back: foreign pointers and double frees are refused, and a
-- free undoes an allocation.
use native.Mathlib.Nat.{div-mul-le_self, mod-eq-sub-div-mul}
use mathlib.Core.Path.{ap₂}
use iom.Base.{
  ◌==◌, Bool-cases, get_or, set, get_or-set_self, max_word, add_word, sub_word, mul_word,
  invalid_argument, ok, throws, ℕ, zero, suc, ◌+◌, ◌*◌, ◌/◌, ◌%◌, ◌≤◌, ◌<◌, ◌≡◌, refl, sym, ap,
  subst, ◌∙◌, ◌⊎◌, inl, inr, Bool, true, false, List, [], ◌∷◌, arith, dec_lt,
}
use iom.Alloc.Buffer.Bounds.{capacity_lem}
use iom.Alloc.Fixed.{FixedSizeAllocator, alloc, free, index_of}
use iom.Alloc.Fixed.Inv.{IsValid, used, block, index_of-block}
use iom.Alloc.Fixed.Calls.{with_used, with_free, with_used-IsValid, alloc_slot_cases}

index_lt : (i n s : ℕ) → i * s < n * s → i < n
index_lt i n s h = elim (dec_lt i n) [ yes l ↦ l | no g ↦ absurd (grind arith) ]

-- Only the pointers to blocks have an index.
pub index_of_sound :
    (a : FixedSizeAllocator) (p : ℕ) {i : ℕ}
    → p ≤ max_word
    → IsValid a
    → index_of a p ≡ ok i
    → (i < a.block_count) × (p ≡ block a i)
unfolding index_of
index_of_sound a p {i} w v e =
    let start : a.buffer.begin + i * a.stride ≡ p = omega (arith, found, whole) in
    (index_lt i a.block_count a.stride (omega (arith, found, start)), sym start)
  where
    end_eq :
        add_word a.buffer.begin (mul_word a.block_count a.stride)
        ≡ a.buffer.begin + a.block_count * a.stride
    end_eq = omega (arith, v.blocks, capacity_lem v.buffer, v.buffer.word)

    found :
        (a.buffer.begin ≤ p)
        × (p < a.buffer.begin + a.block_count * a.stride)
        × (sub_word p a.buffer.begin % a.stride ≡ 0)
        × (sub_word p a.buffer.begin / a.stride ≡ i)
    found = ground (arith, end_eq)

    whole : i * a.stride ≡ sub_word p a.buffer.begin
    whole = omega (
      arith,
      found,
      mod-eq-sub-div-mul (sub_word p a.buffer.begin) a.stride,
      div-mul-le_self (sub_word p a.buffer.begin) a.stride,
      ap (λ (t : ℕ). t * a.stride) found.3,
    )

-- Given back: the block's index goes on top of the stack.
free-used :
    (a : FixedSizeAllocator) (i : ℕ)
    → IsValid a
    → 0 < a.buffer.begin
    → i < a.block_count
    → used a i ≡ true
    → free a (block a i) ≡ (ok tt, with_free a i)
unfolding free
free-used a i v pos h u =
    let nonnull : (block a i == 0) ≡ false = ground arith in rw (nonnull, index_of-block a i v h, u)

-- Not in use: refused.
free_unused :
    (a : FixedSizeAllocator) (i : ℕ)
    → IsValid a
    → 0 < a.buffer.begin
    → i < a.block_count
    → used a i ≡ false
    → free a (block a i) ≡ (throws invalid_argument, a)
unfolding free
free_unused a i v pos h u =
    let nonnull : (block a i == 0) ≡ false = ground arith in rw (nonnull, index_of-block a i v h, u)

index_of_throws :
    (a : FixedSizeAllocator) (p : ℕ)
    → ((i : ℕ) × (index_of a p ≡ ok i)) ⊎ (index_of a p ≡ throws invalid_argument)
unfolding index_of
index_of_throws a p = ground arith

free_foreign :
    (a : FixedSizeAllocator) (p : ℕ)
    → 0 < p
    → index_of a p ≡ throws invalid_argument
    → free a p ≡ (throws invalid_argument, a)
unfolding free
free_foreign a p pos e = let nonnull : (p == 0) ≡ false = ground arith in rw (nonnull, e)

-- For a valid fixed-size allocator whose range does not begin at the null address, the free of a
-- nonnull pointer that is a word either finds it at the begin of a block in use and takes the
-- block back; or throws `invalid_argument`, changes nothing, and the pointer is the begin of no
-- block in use.
pub free_cases :
    (a : FixedSizeAllocator) (p : ℕ)
    → 0 < p
    → p ≤ max_word
    → 0 < a.buffer.begin
    → IsValid a
    → ((i : ℕ) × (i < a.block_count)
        × (p ≡ block a i)
        × (used a i ≡ true)
        × (free a p ≡ (ok tt, with_free a i)))
      ⊎ ((free a p ≡ (throws invalid_argument, a))
          × ((i : ℕ) → i < a.block_count → p ≡ block a i → used a i ≡ false))
free_cases a p pos w nonnull v = elim (index_of_throws a p) [
  | inl (i, e) ↦
      let (h, at) = index_of_sound a p w v e in
      elim (Bool-cases (used a i)) [
        | inl u ↦ inl (i, h, at, u, rw at (free-used a i v nonnull h u))
        | inr u ↦ inr (
          rw at (free_unused a i v nonnull h u),
          λ k hk atk.
              let same : i ≡ k = cc (sym e ∙ ap (index_of a) atk ∙ index_of-block a k v hk) in
              subst (λ (t : ℕ). used a t ≡ false) same u,
        )
      ]
  | inr e ↦ inr (
    free_foreign a p pos e,
    λ k hk atk. cc (sym e ∙ ap (index_of a) atk ∙ index_of-block a k v hk),
  )
]

set_back : (xs : List Bool) (i : ℕ) → get_or xs i false ≡ false → set (set xs i true) i false ≡ xs
set_back [] i e = refl
set_back (x ∷ xs) zero e = cc
set_back (x ∷ xs) (suc i) e = ap (λ t. x ∷ t) (set_back xs i e)

undo :
    (a : FixedSizeAllocator) (i : ℕ) (rest : List ℕ)
    → IsValid a
    → 0 < a.buffer.begin
    → a.free_indices ≡ i ∷ rest
    → i < a.block_count
    → used a i ≡ false
    → free (with_used a i rest) (block a i) ≡ (ok tt, a)
undo a i rest v nonnull top h u =
    free-used (with_used a i rest) i (with_used-IsValid a i rest v top) nonnull h
      (get_or-set_self a.in_use i true false (omega (arith, v.bits)))
    ∙ ap₂ (λ (f : List ℕ) (b : List Bool). (ok tt, record a { free_indices = f; in_use = b }))
        (sym top) (set_back a.in_use i u)

-- For a valid fixed-size allocator whose range does not begin at the null address, giving back
-- the pointer that a nonzero request has just returned succeeds and leaves the allocator exactly
-- as it was before the request, where a second free of that pointer is refused as invalid and
-- changes nothing.
pub free-alloc_slot :
    (a : FixedSizeAllocator) (sz p : ℕ)
    → 0 < sz
    → 0 < a.buffer.begin
    → IsValid a
    → (alloc a sz).0 ≡ ok p
    → (free (alloc a sz).1 p ≡ (ok tt, a)) × (free a p ≡ (throws invalid_argument, a))
free-alloc_slot a sz p pos nonnull v e = elim (alloc_slot_cases a sz pos v) [
  | inr (e', _) ↦ cc (ap (λ t. t.0) e')
  | inl (i, rest, top, fits, h, u, e') ↦
      let at : block a i ≡ p = cc (ap (λ t. t.0) e') in
      let state : (alloc a sz).1 ≡ with_used a i rest = ap (λ t. t.1) e' in
      rw (← at, state) (undo a i rest v nonnull top h u, free_unused a i v nonnull h u)
]
