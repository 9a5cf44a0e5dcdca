-- ===== src/Alloc/Fixed/History.antt =====
-- A new `FixedSizeAllocator`, and any history of calls on it.
use native.Mathlib.Nat.{div-mul-le_self}
use iom.Base.{
  ltb, if◌then◌else◌, length, get_or, replicate, length-replicate, All, max_word, add_word,
  sub_word, ok, >>=-eq-ok, ℕ, zero, suc, ◌+◌, ◌*◌, ◌/◌, ◌≤◌, ◌<◌, ◌≡◌, refl, sym, subst, ◌∙◌, inl,
  inr, true, false, List, [], ◌∷◌, arith,
}
use iom.Alloc.Buffer.{Buffer, capacity, new_buffer, is_power_of_two, align_up_addr}
use iom.Alloc.Buffer.Align.{is_power_of_two-IsAlignment, align_up_addr-RoundsUp, RoundsUp}
use iom.Alloc.Buffer.Bounds
use iom.Alloc.Buffer.Bounds.{new_buffer-IsValid}
use iom.Alloc.Fixed.{
  FixedSizeAllocator, align_up_payload, push_indices, reset, new_fixed, alloc, free,
}
use iom.Alloc.Fixed.Inv.{IsValid, count}
use iom.Alloc.Fixed.Calls.{alloc_slot_cases, with_used-IsValid, with_free-IsValid}
use iom.Alloc.Fixed.Release.{free_cases}

-- The loop of `reset` pushes each index below the block count once.
count-push_indices :
    (k n rounds i : ℕ) (indices : List ℕ)
    → n ≤ max_word
    → i + rounds ≡ n
    → count k (push_indices n rounds i indices) ≡ count k indices + (if ltb k rounds then 1 else 0)
unfolding push_indices count
count-push_indices k n zero i indices w e = ground arith
count-push_indices k n (suc rounds) i indices w e =
    let next : add_word i 1 ≡ i + 1 = omega arith in
    let top : sub_word (sub_word n 1) i ≡ rounds = omega arith in
    rw (next, top)
      (ground (arith, count-push_indices k n rounds (i + 1) (rounds ∷ indices) w (omega arith)))

get_or-replicate : (n i : ℕ) → get_or (replicate n false) i false ≡ false
get_or-replicate zero i = refl
get_or-replicate (suc n) zero = refl
get_or-replicate (suc n) (suc i) = get_or-replicate n i

-- All that `reset` needs of the allocator.
pub record IsSized (a : FixedSizeAllocator) : Type 0 where
  pub buffer : Bounds.IsValid a.buffer
  pub nonempty : 0 < a.payload_size
  pub payload : a.payload_size ≤ a.stride
  pub blocks : a.block_count * a.stride ≤ capacity a.buffer
  pub bits : length a.in_use ≡ a.block_count
  pub word : a.block_count ≤ max_word

pub reset-IsValid : (a : FixedSizeAllocator) → IsSized a → IsValid (reset a)
unfolding reset count
reset-IsValid a s = record {
  buffer = s.buffer;
  nonempty = s.nonempty;
  payload = s.payload;
  blocks = s.blocks;
  bits = length-replicate (length a.in_use) false ∙ s.bits;
  once = λ i. ground (
    arith,
    count-push_indices i a.block_count a.block_count 0 [] s.word (omega arith),
    get_or-replicate (length a.in_use) i,
  );
}

payload_address :
    (size alignment : ℕ)
    → 0 < size
    → is_power_of_two alignment ≡ true
    → align_up_payload size alignment ≡ align_up_addr alignment size
unfolding align_up_payload align_up_addr
payload_address size alignment pos power = ground arith

payload_accepted :
    (size alignment : ℕ) {s : ℕ}
    → align_up_payload size alignment ≡ ok s
    → (0 < size) × (is_power_of_two alignment ≡ true)
unfolding align_up_payload
payload_accepted size alignment e = ground arith

-- The payload is rounded up as an address is.
align_up_payload_lem :
    (size alignment : ℕ) {s : ℕ}
    → size ≤ max_word
    → alignment ≤ max_word
    → align_up_payload size alignment ≡ ok s
    → (0 < size) × RoundsUp alignment size s
align_up_payload_lem size alignment {s} ws wa e =
    let (pos, power) = payload_accepted size alignment e in
    (
      pos,
      align_up_addr-RoundsUp alignment size (is_power_of_two-IsAlignment alignment wa power) ws
          (sym (payload_address size alignment pos power) ∙ e),
    )

abbrev unfilled : Buffer → ℕ → ℕ → FixedSizeAllocator
unfilled b payload_size stride = record {
  buffer = b;
  payload_size = payload_size;
  stride = stride;
  block_count = capacity b / stride;
  free_indices = [];
  in_use = replicate (capacity b / stride) false;
}

capacity-le-word : (b : Buffer) → capacity b ≤ max_word
unfolding capacity
capacity-le-word b = omega arith

-- A fixed-size allocator that the constructor accepts, with arguments that are words, satisfies
-- the invariant, and its stride is the payload size rounded up to the alignment.
pub new_fixed-IsValid :
    (buffer size alignment payload_size : ℕ) {a : FixedSizeAllocator}
    → buffer ≤ max_word
    → size ≤ max_word
    → alignment ≤ max_word
    → payload_size ≤ max_word
    → new_fixed buffer size alignment payload_size ≡ ok a
    → IsValid a × RoundsUp alignment payload_size a.stride
unfolding new_fixed
new_fixed-IsValid buffer size alignment payload_size {a} wb ws wa wp e =
    let (b, eb, rest) = >>=-eq-ok (new_buffer buffer size alignment) _ e in
    let (stride, es, done) = >>=-eq-ok (align_up_payload payload_size alignment) _ rest in
    let (pos, up) = align_up_payload_lem payload_size alignment wp wa es in
    let same : reset (unfilled b payload_size stride) ≡ a = cc in
    let sized : IsSized (unfilled b payload_size stride) = record {
      buffer = (new_buffer-IsValid buffer size alignment wb ws wa eb).0;
      nonempty = pos;
      payload = up.above;
      blocks = div-mul-le_self (capacity b) stride;
      bits = length-replicate (capacity b / stride) false;
      word = omega (arith, capacity-le-word b);
    } in
    subst (λ t. IsValid t × RoundsUp alignment payload_size t.stride) same
      (reset-IsValid (unfilled b payload_size stride) sized, unfold reset in up)

-- A call by the client, with its argument.
pub data Call : Type 0 where
  allocs frees : ℕ → Call

unfoldable pub step : FixedSizeAllocator → Call → FixedSizeAllocator
step a (allocs sz) = (alloc a sz).1
step a (frees p) = (free a p).1

unfoldable pub run : FixedSizeAllocator → List Call → FixedSizeAllocator
run a [] = a
run a (c ∷ calls) = run (step a c) calls

abbrev pub IsCall : Call → Type 0
IsCall (allocs sz) = Unit {0}
IsCall (frees p) = p ≤ max_word

-- The invariant, and that the geometry stays.
abbrev pub Kept : FixedSizeAllocator → FixedSizeAllocator → Type 0
Kept a b =
    IsValid b × (b.buffer ≡ a.buffer) × (b.stride ≡ a.stride) × (b.block_count ≡ a.block_count)

alloc-Kept : (a : FixedSizeAllocator) (sz : ℕ) → IsValid a → Kept a (alloc a sz).1
alloc-Kept a zero v = unfold alloc in (v, refl, refl, refl)
alloc-Kept a (suc n) v = elim (alloc_slot_cases a (suc n) (omega arith) v) [
  | inl (i, rest, top, _, _, _, e) ↦ rw e (with_used-IsValid a i rest v top, refl, refl, refl)
  | inr (e, _) ↦ rw e (v, refl, refl, refl)
]

free-Kept :
    (a : FixedSizeAllocator) (p : ℕ)
    → p ≤ max_word
    → 0 < a.buffer.begin
    → IsValid a
    → Kept a (free a p).1
free-Kept a zero w nonnull v = unfold free in (v, refl, refl, refl)
free-Kept a (suc q) w nonnull v = elim (free_cases a (suc q) (omega arith) w nonnull v) [
  | inl (i, h, _, u, e) ↦ rw e (with_free-IsValid a i v h u, refl, refl, refl)
  | inr (e, _) ↦ rw e (v, refl, refl, refl)
]

step-Kept :
    (a : FixedSizeAllocator) (c : Call)
    → IsCall c
    → 0 < a.buffer.begin
    → IsValid a
    → Kept a (step a c)
unfolding step
step-Kept a (allocs sz) w nonnull v = alloc-Kept a sz v
step-Kept a (frees p) w nonnull v = free-Kept a p w nonnull v

-- After any calls of `alloc` and `free` with pointers that are words on a valid fixed-size
-- allocator whose range does not begin at the null address, the invariant holds and the buffer,
-- the stride and the block count are as before.
pub run-Kept :
    (calls : List Call) (a : FixedSizeAllocator)
    → All IsCall calls
    → 0 < a.buffer.begin
    → IsValid a
    → Kept a (run a calls)
unfolding run
run-Kept [] a w nonnull v = (v, refl, refl, refl)
run-Kept (c ∷ calls) a w nonnull v =
    let (v', b, s, n) = step-Kept a c w.0 nonnull v in
    let (v'', b', s', n') = run-Kept calls (step a c) w.1 (rw b nonnull) v' in
    (v'', b' ∙ b, s' ∙ s, n' ∙ n)
