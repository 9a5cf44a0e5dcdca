-- ===== src/Alloc/FreeList/Inv.antt =====
-- The invariant of `ListAllocator`, and the two measures by which it is kept: at every address the
-- free ranges and the live blocks together cover the buffer exactly once.
use mathlib.Core.Path.{ap₂}
use mathlib.Core.Path.{ap₂}
use iom.Base.{
  ltb, leb, if◌then◌else◌, get_elem?, All, ℕ, zero, suc, ◌+◌, ◌≤◌, ◌<◌, ◌≡◌, ◌⊎◌, ◌&&◌, some, List,
  [], ◌∷◌, arith,
}
use iom.Alloc.Buffer.{Buffer, capacity}
use iom.Alloc.Buffer.Align.{IsMultiple}
use iom.Alloc.Buffer.Bounds
use iom.Alloc.Buffer.Bounds.{capacity_lem}
use iom.Alloc.FreeList.{Block, ListAllocator, reset}
use iom.Alloc.FreeList.Table.{find, total, Entries}
use iom.Alloc.FreeList.Scan.{InRange}
use iom.Alloc.FreeList.Shape.{some_block-Gapped, some_block-Gapped, Gapped}
use iom.Alloc.FreeList.Amount.{amount-some_block, amount-some_block, amount, Additive}

-- 1 if the address `x` lies in [lo, hi), else 0.
abbrev pub within : ℕ → ℕ → ℕ → ℕ
within x lo hi = if leb lo x && ltb x hi then 1 else 0

pub within_inside : (x lo hi : ℕ) → lo ≤ x → x < hi → within x lo hi ≡ 1
within_inside x lo hi h k = ground arith

pub within_outside : (x lo hi : ℕ) → (x < lo) ⊎ (hi ≤ x) → within x lo hi ≡ 0
within_outside x lo hi h = ground arith

pub within-le-one : (x lo hi : ℕ) → within x lo hi ≤ 1
within-le-one x lo hi = ground arith

pub inside_within : (x lo hi : ℕ) → 1 ≤ within x lo hi → (lo ≤ x) × (x < hi)
inside_within x lo hi h = ground arith

-- How many free ranges hold the address `x`; ranges count from `begin`.
abbrev pub span : ℕ → ℕ → ℕ → ℕ → ℕ
span begin x lo hi = within x (begin + lo) (begin + hi)

abbrev pub free_at : Buffer → List Block → ℕ → ℕ
free_at b blocks x = amount (span b.begin x) blocks

-- How many live blocks hold the address `x`.
abbrev pub block_at : ℕ → ℕ → ℕ → ℕ
block_at x p n = within x p (p + n)

abbrev pub live_at : List (ℕ × ℕ) → ℕ → ℕ
live_at table x = total (block_at x) table

pub span-Additive : (begin x : ℕ) → Additive (span begin x)
span-Additive begin x lo mid hi h k = ground arith

-- Live blocks are aligned and not empty.
abbrev pub IsBlock : ℕ → ℕ → ℕ → Type 0
IsBlock align p n = IsMultiple align p × (0 < n)

pub record IsValid (a : ListAllocator) : Type 0 where
  pub buffer : Bounds.IsValid a.buffer
  pub gapped : Gapped 0 (capacity a.buffer) a.free_list
  pub blocks : Entries (IsBlock a.buffer.align) a.allocated
  pub tiled :
      (x : ℕ)
      → free_at a.buffer a.free_list x + live_at a.allocated x
        ≡ within x a.buffer.begin a.buffer.raw_end

-- A live block is counted at each of its addresses.
pub live_at_block :
    (p n x : ℕ) (table : List (ℕ × ℕ))
    → find p table ≡ some n
    → p ≤ x
    → x < p + n
    → 1 ≤ live_at table x
unfolding find total
live_at_block p n x [] e h k = cc
live_at_block p n x ((q, m) ∷ table) e h k = ground (arith, live_at_block p n x table)

pub reset-IsValid : (a : ListAllocator) → Bounds.IsValid a.buffer → IsValid (reset a)
unfolding reset total
reset-IsValid a v = record {
  buffer = v;
  gapped = some_block-Gapped 0 cap 0 cap (omega arith) (omega arith);
  blocks = tt;
  tiled = λ x. omega (
    arith,
    amount-some_block (span a.buffer.begin x) (span-Additive a.buffer.begin x) 0 cap,
    ap₂ (within x) first last,
  );
}
  where
    cap : ℕ
    cap = capacity a.buffer

    first : a.buffer.begin + 0 ≡ a.buffer.begin
    first = omega arith

    last : a.buffer.begin + (0 + cap) ≡ a.buffer.raw_end
    last = omega (arith, capacity_lem v)

-- Every free range lies in the buffer.
pub Gapped-InRange :
    (b : Buffer) (lo : ℕ) (blocks : List Block)
    → Bounds.IsValid b
    → Gapped lo (capacity b) blocks
    → All (InRange b) blocks
Gapped-InRange b lo [] v g = tt
Gapped-InRange b lo (c ∷ blocks) v g =
    (omega (arith, capacity_lem v), Gapped-InRange b (c.offset + c.size + 1) blocks v g.3)

-- There are fewer free ranges than bytes, and each is as `Gapped` says.
pub Gapped-get_elem? :
    (lo hi j : ℕ) (blocks : List Block) (c : Block)
    → get_elem? blocks j ≡ some c
    → Gapped lo hi blocks
    → (lo + j < hi) × (lo ≤ c.offset) × (0 < c.size) × (c.offset + c.size ≤ hi)
Gapped-get_elem? lo hi j [] c e g = cc
Gapped-get_elem? lo hi zero (b ∷ blocks) c e g = let same : b ≡ c = cc in rw (← same) (omega arith)
Gapped-get_elem? lo hi (suc j) (b ∷ blocks) c e g =
    omega (arith, Gapped-get_elem? (b.offset + b.size + 1) hi j blocks c e g.3)
