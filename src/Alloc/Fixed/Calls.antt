-- ===== src/Alloc/Fixed/Calls.antt =====
-- `alloc` and `free` of `FixedSizeAllocator`: their outcomes, and that they keep the invariant.
use iom.Base.{
  ltb, if◌then◌else◌, get_or, set, length-set, get_or-set_self, get_or-set_ne, add_word, mul_word,
  bad_alloc, ok, throws, ℕ, ◌+◌, ◌≤◌, ◌<◌, ◌≡◌, refl, subst, ◌∙◌, ◌⊎◌, inl, inr, true, false, List,
  [], ◌∷◌, arith, dec_lt, ℕ_discrete,
}
use iom.Alloc.Fixed.{FixedSizeAllocator, take_index, alloc}
use iom.Alloc.Fixed.Inv.{IsValid, count, bit, used, block, block_bounds}

-- The allocator once block `i`, the top of the stack, is in use.
abbrev pub with_used : FixedSizeAllocator → ℕ → List ℕ → FixedSizeAllocator
with_used a i rest = record a { free_indices = rest; in_use = set a.in_use i true }

top_of_stack :
    (a : FixedSizeAllocator) (i : ℕ) (rest : List ℕ)
    → IsValid a
    → a.free_indices ≡ i ∷ rest
    → (i < a.block_count) × (used a i ≡ false) × (count i rest ≡ 0)
unfolding count
top_of_stack a i rest v e = ground (arith, e, rw e at (v.once i))

stack_cases : (xs : List ℕ) → (xs ≡ []) ⊎ ((x : ℕ) × (rest : List ℕ) × (xs ≡ x ∷ rest))
stack_cases [] = inl refl
stack_cases (x ∷ rest) = inr (x, rest, refl)

-- With no block on the stack all are in use.
all_used :
    (a : FixedSizeAllocator)
    → IsValid a
    → a.free_indices ≡ []
    → (i : ℕ) → i < a.block_count
    → used a i ≡ true
unfolding count
all_used a v e i h = ground (arith, rw e at (v.once i))

take_index-block :
    (a : FixedSizeAllocator) (i : ℕ) (rest : List ℕ)
    → IsValid a
    → i < a.block_count
    → used a i ≡ false
    → take_index a i rest ≡ (ok (block a i), with_used a i rest)
unfolding take_index
take_index-block a i rest v h u =
    let addr : add_word a.buffer.begin (mul_word i a.stride) ≡ block a i =
      omega (arith, block_bounds a i v h, v.buffer.word) in
    rw (u, addr)

-- A nonzero request on a valid fixed-size allocator either fits the payload and gets the block
-- on top of the free stack, which was not in use and is marked in use; or it throws `bad_alloc`,
-- changes nothing, and is larger than the payload or finds all blocks in use. The metadata check
-- never fails.
pub alloc_slot_cases :
    (a : FixedSizeAllocator) (sz : ℕ)
    → 0 < sz
    → IsValid a
    → ((i : ℕ) × (rest : List ℕ) × (a.free_indices ≡ i ∷ rest)
        × (sz ≤ a.payload_size)
        × (i < a.block_count)
        × (used a i ≡ false)
        × (alloc a sz ≡ (ok (block a i), with_used a i rest)))
      ⊎ ((alloc a sz ≡ (throws bad_alloc, a))
          × ((a.payload_size < sz) ⊎ ((i : ℕ) → i < a.block_count → used a i ≡ true)))
unfolding alloc
alloc_slot_cases a sz pos v = elim (dec_lt a.payload_size sz) [
  | yes large ↦ inr (ground arith, inl large)
  | no fits ↦ elim (stack_cases a.free_indices) [
    | inl e ↦ inr (ground (arith, e), inr (all_used a v e))
    | inr (i, rest, e) ↦
        let (h, u, _) = top_of_stack a i rest v e in
        inl (i, rest, e, omega arith, h, u, ground (arith, e, u, take_index-block a i rest v h u))
  ]
]

pub with_used-IsValid :
    (a : FixedSizeAllocator) (i : ℕ) (rest : List ℕ)
    → IsValid a
    → a.free_indices ≡ i ∷ rest
    → IsValid (with_used a i rest)
unfolding count
with_used-IsValid a i rest v e = record {
  buffer = v.buffer;
  nonempty = v.nonempty;
  payload = v.payload;
  blocks = v.blocks;
  bits = length-set a.in_use i true ∙ v.bits;
  once = λ k. elim (ℕ_discrete i k) [
    | yes same ↦
        let (h, u, none_left) = top_of_stack a i rest v e in
        subst
          (λ (t : ℕ).
            count t rest + bit (get_or (set a.in_use i true) t false)
            ≡ (if ltb t a.block_count then 1 else 0))
          same
          (ground
            (arith, none_left, h, get_or-set_self a.in_use i true false (omega (arith, h, v.bits))))
    | no other ↦ ground (arith, rw e at (v.once k), get_or-set_ne a.in_use i k true false other)
  ];
}

-- The allocator once block `i` is given back.
abbrev pub with_free : FixedSizeAllocator → ℕ → FixedSizeAllocator
with_free a i = record a { free_indices = i ∷ a.free_indices; in_use = set a.in_use i false }

pub with_free-IsValid :
    (a : FixedSizeAllocator) (i : ℕ)
    → IsValid a
    → i < a.block_count
    → used a i ≡ true
    → IsValid (with_free a i)
unfolding count
with_free-IsValid a i v h u = record {
  buffer = v.buffer;
  nonempty = v.nonempty;
  payload = v.payload;
  blocks = v.blocks;
  bits = length-set a.in_use i false ∙ v.bits;
  once = λ k. elim (ℕ_discrete i k) [
    | yes same ↦
        subst
          (λ (t : ℕ).
            count t (i ∷ a.free_indices) + bit (get_or (set a.in_use i false) t false)
            ≡ (if ltb t a.block_count then 1 else 0))
          same
          (ground (
            arith,
            v.once i,
            h,
            u,
            get_or-set_self a.in_use i false false (omega (arith, h, v.bits)),
          ))
    | no other ↦ ground (arith, v.once k, get_or-set_ne a.in_use i k false false other)
  ];
}
