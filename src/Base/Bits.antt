-- ===== src/Base/Bits.antt =====
-- The bit tricks of the allocators: `value & (value - 1)` and `x & ~mask`.
use Prim.Native.Nat.{
  ℕ, zero, suc, ◌+◌, ◌-◌, ◌*◌, ◌/◌, ◌%◌, ◌^◌, ◌≤◌, ◌<◌, min, bit_and, digits, bit_and-bitwise,
}
use mathlib.Core.Path.{◌≡◌, refl, ap, ◌∙◌}
use native.Mathlib.Omega.{arith}
use native.Mathlib.Nat.{two-pow-succ, one-le-pow}

-- The conjunction of digits as the native operation reads it, with `n` digits to go.
abbrev conj : ℕ → ℕ → ℕ → ℕ
conj n a b = digits (λ _. 0) min n a b

conj_more : (n a b : ℕ) → a ≤ n → conj (suc n) a b ≡ conj n a b
conj_more zero zero b h = refl
conj_more zero (suc a) b h = absurd (omega arith)
conj_more (suc n) zero b h = refl
conj_more (suc n) (suc a) b h = omega (arith, conj_more n (suc a / 2) (b / 2) (omega arith))

conj_enough : (d n a b : ℕ) → a ≤ n → (m : ℕ) → m ≡ d + n → conj m a b ≡ conj n a b
conj_enough zero n a b h m e = let same : m ≡ n = omega arith in rw same
conj_enough (suc d) n a b h zero e = absurd (omega arith)
conj_enough (suc d) n a b h (suc m) e =
    conj_more m a b (omega arith) ∙ conj_enough d n a b h m (omega arith)

-- The lowest digit apart from the others.
pub bit_and_step : (x y : ℕ) → bit_and x y ≡ bit_and (x / 2) (y / 2) * 2 + min (x % 2) (y % 2)
bit_and_step (suc x) y =
    let half = suc x / 2 in
    let rest = y / 2 in
    let digits_left = conj_enough (x - half) half half rest (omega arith) x (omega arith) in
    omega (arith, digits_left, bit_and-bitwise half rest, bit_and-bitwise (suc x) y)
bit_and_step zero y = omega (arith, bit_and-bitwise 0 (y / 2), bit_and-bitwise 0 y)

bit_and_self_below : (n a : ℕ) → a ≤ n → bit_and a a ≡ a
bit_and_self_below n zero h = refl
bit_and_self_below zero (suc a) h = absurd (omega arith)
bit_and_self_below (suc n) (suc a) h =
    omega (arith, bit_and_step (suc a) (suc a), bit_and_self_below n (suc a / 2) (omega arith))

bit_and_zero_below : (n a : ℕ) → a ≤ n → bit_and a 0 ≡ 0
bit_and_zero_below n zero h = refl
bit_and_zero_below zero (suc a) h = absurd (omega arith)
bit_and_zero_below (suc n) (suc a) h =
    omega (arith, bit_and_step (suc a) 0, bit_and_zero_below n (suc a / 2) (omega arith))

-- value & (value - 1) is zero only at a power of two.
power_of_two_below : (n v : ℕ) → v ≤ n → 0 < v → bit_and v (v - 1) ≡ 0 → (k : ℕ) × (v ≡ 2 ^ k)
power_of_two_below zero v h p e = absurd (omega arith)
power_of_two_below (suc n) v h p e = go (power_of_two_below n (v / 2) (omega arith)) (v % 2) refl
  where
    lower : bit_and (v / 2) ((v - 1) / 2) ≡ 0
    lower = omega (arith, bit_and_step v (v - 1))

    double : (k : ℕ) × (v / 2 ≡ 2 ^ k) → v % 2 ≡ 0 → (k : ℕ) × (v ≡ 2 ^ k)
    double (k, half) even = (suc k, omega (arith, two-pow-succ k))

    go :
        (0 < v / 2 → bit_and (v / 2) (v / 2 - 1) ≡ 0 → (k : ℕ) × (v / 2 ≡ 2 ^ k))
        → (r : ℕ) → v % 2 ≡ r
        → (k : ℕ) × (v ≡ 2 ^ k)
    go ih zero even = double (ih (omega arith) (ap (bit_and (v / 2)) (omega arith) ∙ lower)) even
    go ih (suc r) odd = (
      0,
      omega (
        arith,
        lower,
        bit_and_self_below (v / 2) (v / 2) (omega arith),
        ap (bit_and (v / 2)) same,
      ),
    )
      where
        same : (v - 1) / 2 ≡ v / 2
        same = omega arith

pub power_of_two : (v : ℕ) → 0 < v → bit_and v (v - 1) ≡ 0 → (k : ℕ) × (v ≡ 2 ^ k)
power_of_two v = power_of_two_below v v (omega arith)

-- x & (2 ^ n - 2 ^ k) is x rounded down to a multiple of 2 ^ k, for an n-bit word x.
abbrev pub RoundsDown : ℕ → ℕ → ℕ → Type 0
RoundsDown x p r = (q : ℕ) × (r ≡ q * p) × (r ≤ x) × (x < r + p)

rounds_double : (x y p r s : ℕ) → RoundsDown (x / 2) p r → y ≡ p + p → s ≡ r * 2 → RoundsDown x y s
rounds_double x y p r s (q, e, low, high) ey es =
    (q, omega (arith, ap (λ (t : ℕ). q * t) ey), omega arith, omega arith)

bit_and_ones : (n x : ℕ) → x < 2 ^ n → bit_and x (2 ^ n - 1) ≡ x
bit_and_ones zero x b = let gone : x ≡ 0 = omega arith in rw gone
bit_and_ones (suc n) x b = omega (
  arith,
  bit_and_ones n (x / 2) (omega (arith, two-pow-succ n)),
  bit_and_step x (2 ^ suc n - 1),
  ap (bit_and (x / 2)) halved,
)
  where
    halved : (2 ^ suc n - 1) / 2 ≡ 2 ^ n - 1
    halved = omega (arith, two-pow-succ n, one-le-pow n 2 (omega arith))

pub bit_and_high :
    (n k x : ℕ) → k ≤ n → x < 2 ^ n → RoundsDown x (2 ^ k) (bit_and x (2 ^ n - 2 ^ k))
bit_and_high n zero x h b =
    let kept = bit_and_ones n x b in
    (x, omega (arith, kept), omega (arith, kept), omega (arith, kept))
bit_and_high zero (suc k) x h b = absurd (omega arith)
bit_and_high (suc n) (suc k) x h b =
    rounds_double x (2 ^ suc k) (2 ^ k) (bit_and (x / 2) (2 ^ n - 2 ^ k)) _
      (bit_and_high n k (x / 2) (omega arith) (omega (arith, two-pow-succ n))) (two-pow-succ k)
      (omega (
        arith,
        bit_and_step x (2 ^ suc n - 2 ^ suc k),
        ap (bit_and (x / 2)) halved,
        two-pow-succ n,
        two-pow-succ k,
      ))
  where
    halved : (2 ^ suc n - 2 ^ suc k) / 2 ≡ 2 ^ n - 2 ^ k
    halved = omega (arith, two-pow-succ n, two-pow-succ k)
