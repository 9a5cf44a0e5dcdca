-- ===== src/Base/Packed.antt =====
-- Words of two fields, packed by a shift and `|` and unpacked by `>>` and `&`.
use Prim.Native.Nat.{
  ℕ, zero, suc, ◌+◌, ◌-◌, ◌*◌, ◌/◌, ◌%◌, ◌^◌, ◌≤◌, ◌<◌, max, bit_and, bit_or, digits,
  bit_or-bitwise,
}
use mathlib.Core.Path.{◌≡◌, refl, ap, ap₂, ◌∙◌}
use native.Mathlib.Omega.{arith}
use native.Mathlib.Nat.{two-pow-succ, one-le-pow}
use iom.Base.Bits.{bit_and_step}

-- The disjunction of digits as the native operation reads it, with `n` digits to go.
abbrev disj : ℕ → ℕ → ℕ → ℕ
disj n a b = digits (λ b. b) max n a b

disj_more : (n a b : ℕ) → a ≤ n → disj (suc n) a b ≡ disj n a b
disj_more zero zero b h = refl
disj_more zero (suc a) b h = absurd (omega arith)
disj_more (suc n) zero b h = refl
disj_more (suc n) (suc a) b h = omega (arith, disj_more n (suc a / 2) (b / 2) (omega arith))

disj_enough : (d n a b : ℕ) → a ≤ n → (m : ℕ) → m ≡ d + n → disj m a b ≡ disj n a b
disj_enough zero n a b h m e = let same : m ≡ n = omega arith in rw same
disj_enough (suc d) n a b h zero e = absurd (omega arith)
disj_enough (suc d) n a b h (suc m) e =
    disj_more m a b (omega arith) ∙ disj_enough d n a b h m (omega arith)

-- The lowest digit apart from the others.
bit_or_step : (x y : ℕ) → bit_or x y ≡ bit_or (x / 2) (y / 2) * 2 + max (x % 2) (y % 2)
bit_or_step (suc x) y =
    let half = suc x / 2 in
    let rest = y / 2 in
    let digits_left = disj_enough (x - half) half half rest (omega arith) x (omega arith) in
    omega (arith, digits_left, bit_or-bitwise half rest, bit_or-bitwise (suc x) y)
bit_or_step zero y = omega (arith, bit_or-bitwise 0 (y / 2), bit_or-bitwise 0 y)

bit_or_zero_below : (n a : ℕ) → a ≤ n → bit_or a 0 ≡ a
bit_or_zero_below n zero h = refl
bit_or_zero_below zero (suc a) h = absurd (omega arith)
bit_or_zero_below (suc n) (suc a) h =
    omega (arith, bit_or_step (suc a) 0, bit_or_zero_below n (suc a / 2) (omega arith))

shift_twice : (a k : ℕ) → a * 2 ^ suc k ≡ a * 2 ^ k + a * 2 ^ k
shift_twice a k = omega (arith, ap (λ (t : ℕ). a * t) (two-pow-succ k))

-- High bits and low bits put together.
pub bit_or_fields : (k a s : ℕ) → s < 2 ^ k → bit_or (a * 2 ^ k) s ≡ a * 2 ^ k + s
bit_or_fields zero a s h =
    let none_low : s ≡ 0 = omega arith in
    let whole : a * 2 ^ 0 ≡ a = omega arith in
    rw (none_low, whole) (bit_or_zero_below a a (omega arith) ∙ omega arith)
bit_or_fields (suc k) a s h =
    let twice = shift_twice a k in
    let high : a * 2 ^ suc k / 2 ≡ a * 2 ^ k = omega (arith, twice) in
    let rest = bit_or_fields k a (s / 2) (omega (arith, two-pow-succ k)) in
    omega (arith, twice, rest, bit_or_step (a * 2 ^ suc k) s, ap (λ (t : ℕ). bit_or t (s / 2)) high)

bit_and_zero_below : (n a : ℕ) → a ≤ n → bit_and a 0 ≡ 0
bit_and_zero_below n zero h = refl
bit_and_zero_below zero (suc a) h = absurd (omega arith)
bit_and_zero_below (suc n) (suc a) h =
    omega (arith, bit_and_step (suc a) 0, bit_and_zero_below n (suc a / 2) (omega arith))

-- The low bits.
pub bit_and_low : (k a s : ℕ) → s < 2 ^ k → bit_and (a * 2 ^ k + s) (2 ^ k - 1) ≡ s
bit_and_low zero a s h =
    let none_low : s ≡ 0 = omega arith in
    rw none_low (bit_and_zero_below (a * 1 + 0) (a * 1 + 0) (omega arith))
bit_and_low (suc k) a s h =
    let twice = shift_twice a k in
    let high : (a * 2 ^ suc k + s) / 2 ≡ a * 2 ^ k + s / 2 = omega (arith, twice) in
    let ones : (2 ^ suc k - 1) / 2 ≡ 2 ^ k - 1 =
      omega (arith, two-pow-succ k, one-le-pow k 2 (omega arith)) in
    let rest = bit_and_low k a (s / 2) (omega (arith, two-pow-succ k)) in
    omega (
      arith,
      twice,
      rest,
      two-pow-succ k,
      one-le-pow k 2 (omega arith),
      bit_and_step (a * 2 ^ suc k + s) (2 ^ suc k - 1),
      ap₂ bit_and high ones,
    )
