-- ===== src/Alloc/Buffer/Align.antt =====
-- Rounding an address up, and what the constructor of the allocator base establishes.
use native.Mathlib.Nat.{pow-le-pow_right, one-le-pow}
use native.Mathlib.Decide.{dec_lt}
use iom.Base.Bits.{power_of_two, bit_and_high}
use iom.Base.{
  ℕ, ◌+◌, ◌-◌, ◌*◌, ◌^◌, ◌<◌, ◌≤◌, ◌≡◌, subst, true, ◌⊎◌, inl, inr, ok, throws, overflow_error,
  max_word, bit_and, arith, add_word, sub_word, ==→eq, ◌∙◌, sym, ap, word_mod,
}
use iom.Alloc.Buffer.{is_power_of_two, align_up_addr}

-- A power of two that is a word.
abbrev pub IsAlignment : ℕ → Type 0
IsAlignment a = (k : ℕ) × (a ≡ 2 ^ k) × (a ≤ max_word)

abbrev pub IsMultiple : ℕ → ℕ → Type 0
IsMultiple a x = (q : ℕ) × (x ≡ q * a)

pub is_power_of_two-IsAlignment : (v : ℕ) → v ≤ max_word → is_power_of_two v ≡ true → IsAlignment v
unfolding is_power_of_two
is_power_of_two-IsAlignment v h e =
    let (k, power) = power_of_two v (ground arith) low in (k, power, h)
  where
    low : bit_and v (v - 1) ≡ 0
    low =
        let one_less : sub_word v 1 ≡ v - 1 = ground arith in
        rw one_less at (==→eq (bit_and v (sub_word v 1)) 0 (ground arith))

pub alignment_exponent : (a : ℕ) (v : IsAlignment a) → v.0 ≤ 64
alignment_exponent a (k, e, h) = elim (dec_lt 64 k) [
  | yes big ↦ absurd (omega (arith, pow-le-pow_right {n = 2} (omega arith) {i = 65} {j = k} big))
  | no small ↦ omega arith
]

pub alignment_pos : (a : ℕ) → IsAlignment a → 0 < a
alignment_pos a (k, e, h) = omega (arith, one-le-pow k 2 (omega arith))

-- The rounded address is the least multiple of the alignment that is not below the address.
pub record RoundsUp (a x r : ℕ) : Type 0 where
  pub multiple : IsMultiple a r
  pub above : x ≤ r
  pub near : r < x + a

mul_gap : (q s a : ℕ) → q * a < s * a → q * a + a ≤ s * a
mul_gap q s a l = elim (dec_lt q s) [ yes less ↦ grind arith | no more ↦ absurd (grind arith) ]

-- No lesser multiple will do.
pub RoundsUp-least : (a x r m : ℕ) → RoundsUp a x r → IsMultiple a m → x ≤ m → r ≤ m
RoundsUp-least a x r m up (q, e) h = elim (dec_lt m r) [
  | yes less ↦ absurd (omega (arith, mul_gap q up.multiple.0 a (omega (arith, e, up.multiple.1))))
  | no not_less ↦ omega arith
]

-- The address that `align_up_addr` computes where it does not fail.
abbrev aligned : ℕ → ℕ → ℕ
aligned a x = bit_and (x + (a - 1)) (word_mod - a)

aligned-RoundsUp : (a x : ℕ) → IsAlignment a → x + (a - 1) ≤ max_word → RoundsUp a x (aligned a x)
aligned-RoundsUp a x (k, e, h) fits =
    let small = alignment_exponent a (k, e, h) in
    let p = alignment_pos a (k, e, h) in
    let (q, e', low, high) = bit_and_high 64 k (x + (a - 1)) small (omega arith) in
    let same : aligned a x ≡ bit_and (x + (a - 1)) (2 ^ 64 - 2 ^ k) =
      ap (λ (t : ℕ). bit_and (x + (a - 1)) (2 ^ 64 - t)) e in
    record {
      multiple = (q, same ∙ e' ∙ ap (λ (t : ℕ). q * t) (sym e));
      above = omega (arith, same, low, high);
      near = omega (arith, same, low, high);
    }

align_up_addr_fits :
    (a x : ℕ) → 0 < a → x + (a - 1) ≤ max_word → align_up_addr a x ≡ ok (aligned a x)
unfolding align_up_addr
align_up_addr_fits a x p fits = ground (
  arith,
  ap (bit_and (x + (a - 1))) mask,
  ap (λ (t : ℕ). bit_and t (max_word - sub_word a 1)) total,
)
  where
    mask : max_word - sub_word a 1 ≡ word_mod - a
    mask = omega arith

    total : add_word x (sub_word a 1) ≡ x + (a - 1)
    total = omega arith

pub align_up_addr_overflows :
    (a x : ℕ)
    → 0 < a
    → a ≤ max_word
    → x ≤ max_word
    → max_word < x + (a - 1)
    → align_up_addr a x ≡ throws overflow_error
unfolding align_up_addr
align_up_addr_overflows a x p h w over = ground arith

-- For an alignment that is a power of two and an address that is a word, either the address plus
-- the alignment mask is a word and `align_up_addr` gives the multiple of the alignment that is
-- at or above the address and less than one alignment above it; or that sum is no word, and it
-- throws `overflow_error`.
pub align_up_addr_lem :
    (a x : ℕ)
    → IsAlignment a
    → x ≤ max_word
    → ((x + (a - 1) ≤ max_word) × (r : ℕ) × (align_up_addr a x ≡ ok r) × RoundsUp a x r)
      ⊎ ((max_word < x + (a - 1)) × (align_up_addr a x ≡ throws overflow_error))
align_up_addr_lem a x v w = elim (dec_lt max_word (x + (a - 1))) [
  | yes over ↦ inr (over, align_up_addr_overflows a x (alignment_pos a v) v.2 w over)
  | no fits ↦ inl (
    omega arith,
    aligned a x,
    align_up_addr_fits a x (alignment_pos a v) (omega arith),
    aligned-RoundsUp a x v (omega arith),
  )
]

pub align_up_addr-RoundsUp :
    (a x : ℕ) {r : ℕ} → IsAlignment a → x ≤ max_word → align_up_addr a x ≡ ok r → RoundsUp a x r
align_up_addr-RoundsUp a x {r} v w up = elim (align_up_addr_lem a x v w) [
  | inl (fits, r', e, rounded) ↦ let same : r' ≡ r = cc in subst (RoundsUp a x) same rounded
  | inr (over, e) ↦ cc
]
