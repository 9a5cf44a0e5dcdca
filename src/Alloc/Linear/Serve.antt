-- ===== src/Alloc/Linear/Serve.antt =====
-- What the bump allocator hands out: aligned blocks inside the buffer, in address order, so that
-- no two of them meet.
use native.Mathlib.Decide.{dec_lt}
use iom.Base.{
  All, max_word, overflow_error, bad_alloc, Result, ok, throws, ℕ, ◌+◌, ◌-◌, ◌≤◌, ◌<◌, ◌≡◌, ◌⊎◌,
  inl, inr, List, [], ◌∷◌, arith,
}
use iom.Alloc.Buffer.Align.{IsMultiple, align_up_addr_lem, RoundsUp-least}
use iom.Alloc.Buffer.Bounds
use iom.Alloc.Linear.{LinearAllocator, alloc}

pub record IsValid (a : LinearAllocator) : Type 0 where
  pub buffer : Bounds.IsValid a.buffer
  pub low : a.buffer.begin ≤ a.current
  pub high : a.current ≤ a.buffer.raw_end

-- The three outcomes of a request.
pub record Served (a : LinearAllocator) (sz p : ℕ) (b : LinearAllocator) : Type 0 where
  pub aligned : IsMultiple a.buffer.align p
  pub after : a.current ≤ p
  pub near : p < a.current + a.buffer.align
  pub within : p + sz ≤ a.buffer.raw_end
  pub moved : b.current ≡ p + sz
  pub same : b.buffer ≡ a.buffer

-- A request of a word size on a valid linear allocator is served at an aligned address less than
-- one alignment above the current one and ends inside the buffer, where the next one starts; or
-- it throws `bad_alloc`, and from no aligned address at or above the current one does it end
-- inside the buffer; or it throws `overflow_error`, and the current address plus the alignment
-- mask is no word. Where it throws, the allocator is unchanged.
pub alloc_linear_cases :
    (a : LinearAllocator) (sz : ℕ)
    → sz ≤ max_word
    → IsValid a
    → ((p : ℕ) × ((alloc a sz).0 ≡ ok p) × Served a sz p (alloc a sz).1)
      ⊎ ((alloc a sz ≡ (throws bad_alloc, a))
          × ((p : ℕ) → IsMultiple a.buffer.align p → a.current ≤ p → a.buffer.raw_end < p + sz))
      ⊎ ((alloc a sz ≡ (throws overflow_error, a)) × (max_word < a.current + (a.buffer.align - 1)))
unfolding alloc
alloc_linear_cases a sz w v =
    elim (align_up_addr_lem a.buffer.align a.current v.buffer.alignment word) [
      | inr (over, e) ↦ inr (inr (rw (e, alloc), over))
      | inl (fits, r, e, up) ↦ elim (dec_lt a.buffer.raw_end (r + sz)) [
        | yes short ↦
            inr (inl (ground (arith, e), λ p m h. omega (arith, RoundsUp-least _ _ r p up m h)))
        | no room ↦ inl (r, ground (arith, e), ground (arith, e, up))
      ]
    ]
  where
    word : a.current ≤ max_word
    word = omega arith

-- Served or not, the allocator stays valid.
pub alloc-IsValid :
    (a : LinearAllocator) (sz : ℕ) → sz ≤ max_word → IsValid a → IsValid (alloc a sz).1
alloc-IsValid a sz w v = elim (alloc_linear_cases a sz w v) [
  | inl (p, e, s) ↦ record {
    buffer = rw s.same v.buffer;
    low = rw s.same (omega arith);
    high = rw s.same (omega arith);
  }
  | inr (inl (e, _)) ↦ rw e v
  | inr (inr (e, _)) ↦ rw e v
]

-- The blocks that a client has after a series of requests, oldest first; a request that throws
-- yields none.
abbrev grant : Result ℕ → ℕ → List (ℕ × ℕ) → List (ℕ × ℕ)
grant (ok p) sz rest = (p, sz) ∷ rest
grant (throws e) sz rest = rest

unfoldable pub serve : LinearAllocator → List ℕ → List (ℕ × ℕ)
serve a [] = []
serve a (sz ∷ sizes) = let (r, b) = alloc a sz in grant r sz (serve b sizes)

-- Each block begins at a multiple of the alignment, at or after the end of the one before, and
-- ends inside the buffer.
abbrev pub Ascending : ℕ → ℕ → ℕ → List (ℕ × ℕ) → Type 0
Ascending align lo hi [] = Unit {0}
Ascending align lo hi ((p, n) ∷ rest) =
    (lo ≤ p) × (p + n ≤ hi) × IsMultiple align p × Ascending align (p + n) hi rest

-- The blocks that a valid linear allocator hands out over a series of requests of word sizes are
-- aligned, begin at or after the end of the one before, and end inside the buffer.
pub serve-Ascending :
    (sizes : List ℕ) (a : LinearAllocator)
    → All (λ n. n ≤ max_word) sizes
    → IsValid a
    → Ascending a.buffer.align a.current a.buffer.raw_end (serve a sizes)
unfolding serve
serve-Ascending [] a w v = tt
serve-Ascending (sz ∷ sizes) a w v = elim (alloc_linear_cases a sz w.0 v) [
  | inl (p, e, s) ↦
      rw (e, serve)
        (
          s.after,
          s.within,
          s.aligned,
          rw (s.same, s.moved) at
              (serve-Ascending sizes (alloc a sz).1 w.1 (alloc-IsValid a sz w.0 v)),
        )
  | inr (inl (e, _)) ↦ rw (e, serve) (serve-Ascending sizes a w.1 v)
  | inr (inr (e, _)) ↦ rw (e, serve) (serve-Ascending sizes a w.1 v)
]
