-- ===== src/Alloc/FreeList/History.antt =====
-- Any history of calls on a `ListAllocator`.
use iom.Base.{
  All, max_word, ok, >>=-eq-ok, ℕ, ◌+◌, ◌≤◌, ◌<◌, ◌≡◌, subst, ◌≢◌, ◌⊎◌, inl, inr, some, List, [],
  ◌∷◌, arith, dec_lt,
}
use iom.Alloc.Buffer.{capacity, new_buffer}
use iom.Alloc.Buffer.Align.{IsMultiple}
use iom.Alloc.Buffer.Bounds.{new_buffer-IsValid}
use iom.Alloc.FreeList.{ListAllocator, alloc, free, reset, free_bytes, new_list}
use iom.Alloc.FreeList.Table.{find, total, find-Entries}
use iom.Alloc.FreeList.Inv.{IsValid, live_at, live_at_block, within-le-one, reset-IsValid}
use iom.Alloc.FreeList.Keep.{alloc-IsValid}
use iom.Alloc.FreeList.Release.{free-IsValid, live_bounds, live_size}
use iom.Alloc.FreeList.Bytes.{
  Balanced, live_bytes, Balanced-free_bytes, reset-Balanced, alloc-Balanced, free-Balanced,
}

-- A call by the client, with its argument.
pub data Call : Type 0 where
  allocs frees : ℕ → Call
  resets : Call

unfoldable pub step : ListAllocator → Call → ListAllocator
step a (allocs sz) = (alloc a sz).1
step a (frees p) = (free a p).1
step a resets = reset a

unfoldable pub run : ListAllocator → List Call → ListAllocator
run a [] = a
run a (c ∷ calls) = run (step a c) calls

-- The arguments of the calls are words.
abbrev pub IsCall : Call → Type 0
IsCall (allocs sz) = sz ≤ max_word
IsCall (frees p) = Unit {0}
IsCall resets = Unit {0}

abbrev pub Sound : ListAllocator → Type 0
Sound a = IsValid a × Balanced a

step-Sound : (a : ListAllocator) (c : Call) → IsCall c → Sound a → Sound (step a c)
unfolding step
step-Sound a (allocs sz) w (v, b) = (alloc-IsValid a sz w v, alloc-Balanced a sz w v b)
step-Sound a (frees p) w (v, b) = (free-IsValid a p v, free-Balanced a p v b)
step-Sound a resets w (v, b) = (reset-IsValid a v.buffer, reset-Balanced a)

pub run-Sound :
    (calls : List Call) (a : ListAllocator) → All IsCall calls → Sound a → Sound (run a calls)
unfolding run
run-Sound [] a w s = s
run-Sound (c ∷ calls) a w s = run-Sound calls (step a c) w.1 (step-Sound a c w.0 s)

new_list-Sound :
    (buffer size alignment : ℕ) {a : ListAllocator}
    → buffer ≤ max_word
    → size ≤ max_word
    → alignment ≤ max_word
    → new_list buffer size alignment ≡ ok a
    → Sound a
unfolding new_list
new_list-Sound buffer size alignment {a} wb ws wa e =
    let (b, eb, done) = >>=-eq-ok (new_buffer buffer size alignment) _ e in
    let start : ListAllocator = record { buffer = b; free_list = []; allocated = [] } in
    let same : reset start ≡ a = cc in
    subst Sound same (
      reset-IsValid start (new_buffer-IsValid buffer size alignment wb ws wa eb).0,
      reset-Balanced start,
    )

live_at_two :
    (p q n m x : ℕ) (table : List (ℕ × ℕ))
    → find p table ≡ some n
    → find q table ≡ some m
    → p ≢ q
    → p ≤ x
    → x < p + n
    → q ≤ x
    → x < q + m
    → 2 ≤ live_at table x
unfolding find total
live_at_two p q n m x [] e f d a b c h = cc
live_at_two p q n m x ((k, w) ∷ table) e f d a b c h =
    ground
      (arith, live_at_two p q n m x table, live_at_block p n x table, live_at_block q m x table)

live_apart :
    (a : ListAllocator) (p q n m : ℕ)
    → IsValid a
    → find p a.allocated ≡ some n
    → find q a.allocated ≡ some m
    → p ≢ q
    → (p + n ≤ q) ⊎ (q + m ≤ p)
live_apart a p q n m v e f d = elim (dec_lt q (p + n)) [
  | no clear ↦ inl (omega arith)
  | yes l ↦ elim (dec_lt p (q + m)) [
    | no clear ↦ inr (omega arith)
    | yes h ↦ elim (dec_lt p q) [
      | yes first ↦
          absurd (twice q (omega arith) l (omega arith) (omega (arith, live_size a q m v f)))
      | no second ↦
          absurd (twice p (omega arith) (omega (arith, live_size a p n v e)) (omega arith) h)
    ]
  ]
]
  where
    twice : (x : ℕ) → p ≤ x → x < p + n → q ≤ x → x < q + m → ⊥
    twice x i j k l = omega (
      arith,
      v.tiled x,
      within-le-one x a.buffer.begin a.buffer.raw_end,
      live_at_two p q n m x a.allocated e f d i j k l,
    )

-- What a client relies on.
pub record Safe (a : ListAllocator) : Type 0 where
  pub inside :
      (p n : ℕ)
      → find p a.allocated ≡ some n
      → (0 < n) × IsMultiple a.buffer.align p × (a.buffer.begin ≤ p) × (p + n ≤ a.buffer.raw_end)
  pub apart :
      (p q n m : ℕ)
      → find p a.allocated ≡ some n
      → find q a.allocated ≡ some m
      → p ≢ q
      → (p + n ≤ q) ⊎ (q + m ≤ p)
  pub bytes : free_bytes a + live_bytes a ≡ capacity a.buffer

-- After any calls of `alloc`, `free` and `reset` with sizes that are words on a list allocator
-- that the constructor accepted, each live block is not empty, aligned and inside the buffer, no
-- two live blocks share a byte, and `free_bytes` and the sizes of the live blocks add up to the
-- capacity.
pub run-Safe :
    (buffer size alignment : ℕ) (calls : List Call) {a : ListAllocator}
    → buffer ≤ max_word
    → size ≤ max_word
    → alignment ≤ max_word
    → All IsCall calls
    → new_list buffer size alignment ≡ ok a
    → Safe (run a calls)
run-Safe buffer size alignment calls {a} wb ws wa wc e =
    let (v, b) = run-Sound calls a wc (new_list-Sound buffer size alignment wb ws wa e) in
    record {
      inside = λ p n live.
          let entry = find-Entries _ p n (run a calls).allocated live v.blocks in
          (
            entry.1,
            entry.0,
            (live_bounds (run a calls) p n v live).0,
            (live_bounds (run a calls) p n v live).1,
          );
      apart = λ p q n m. live_apart (run a calls) p q n m v;
      bytes = Balanced-free_bytes (run a calls) v b;
    }
