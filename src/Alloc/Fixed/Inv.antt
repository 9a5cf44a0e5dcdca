-- ===== src/Alloc/Fixed/Inv.antt =====
-- The invariant of `FixedSizeAllocator`: each block is on the free stack once, or in use.
use native.Mathlib.Nat.{mul-mod_left, mul-div_cancel}
use iom.Base.{
  ltb, ◌==◌, if◌then◌else◌, length, get_or, add_word, sub_word, mul_word, ok, ℕ, ◌+◌, ◌*◌, ◌/◌, ◌%◌,
  ◌≤◌, ◌<◌, ◌≡◌, ap, Bool, false, List, [], ◌∷◌, arith,
}
use iom.Alloc.Buffer.{capacity}
use iom.Alloc.Buffer.Bounds
use iom.Alloc.Buffer.Bounds.{capacity_lem}
use iom.Alloc.Fixed.{FixedSizeAllocator, index_of, ptr_from_index}

-- How often an index is on the stack.
unfoldable pub count : ℕ → List ℕ → ℕ
count i [] = 0
count i (x ∷ xs) = (if i == x then 1 else 0) + count i xs

abbrev pub bit : Bool → ℕ
bit b = if b then 1 else 0

abbrev pub used : FixedSizeAllocator → ℕ → Bool
used a i = get_or a.in_use i false

pub record IsValid (a : FixedSizeAllocator) : Type 0 where
  pub buffer : Bounds.IsValid a.buffer
  pub nonempty : 0 < a.payload_size
  pub payload : a.payload_size ≤ a.stride
  pub blocks : a.block_count * a.stride ≤ capacity a.buffer
  pub bits : length a.in_use ≡ a.block_count
  pub once :
      (i : ℕ) → count i a.free_indices + bit (used a i) ≡ (if ltb i a.block_count then 1 else 0)

-- Where block `i` begins.
abbrev pub block : FixedSizeAllocator → ℕ → ℕ
block a i = a.buffer.begin + i * a.stride

-- A block lies in the buffer.
pub block_bounds :
    (a : FixedSizeAllocator) (i : ℕ)
    → IsValid a
    → i < a.block_count
    → (i * a.stride + a.stride ≤ a.block_count * a.stride)
      × (block a i + a.stride ≤ a.buffer.raw_end)
block_bounds a i v h =
    let step : i * a.stride + a.stride ≤ a.block_count * a.stride = grind arith in
    (step, omega (arith, step, v.blocks, capacity_lem v.buffer))

-- The pointer to block `i` leads back to `i`.
pub index_of-block :
    (a : FixedSizeAllocator) (i : ℕ) → IsValid a → i < a.block_count → index_of a (block a i) ≡ ok i
unfolding index_of
index_of-block a i v h = ground (
  arith,
  end_eq,
  delta_eq,
  ap (λ (t : ℕ). t % a.stride) delta_eq,
  ap (λ (t : ℕ). t / a.stride) delta_eq,
  mul-mod_left i a.stride,
  mul-div_cancel i {n = a.stride} (omega (arith, v.nonempty, v.payload)),
  block_bounds a i v h,
)
  where
    end_eq :
        add_word a.buffer.begin (mul_word a.block_count a.stride)
        ≡ a.buffer.begin + a.block_count * a.stride
    end_eq = omega (arith, v.blocks, capacity_lem v.buffer, v.buffer.word)

    delta_eq : sub_word (block a i) a.buffer.begin ≡ i * a.stride
    delta_eq = omega (arith, block_bounds a i v h, v.buffer.word)

pub ptr_from_index-block :
    (a : FixedSizeAllocator) (i : ℕ)
    → IsValid a
    → i < a.block_count
    → ptr_from_index a i ≡ ok (block a i)
unfolding ptr_from_index
ptr_from_index-block a i v h = ground (arith, block_bounds a i v h, v.buffer)
