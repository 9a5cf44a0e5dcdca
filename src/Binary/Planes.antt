-- ===== src/Binary/Planes.antt =====
-- The planes that a stretched input gives: those at the coordinates that it has.
use iom.Base.{
  ◌==◌, ◌!=◌, if◌then◌else◌, Bool-cases, length, take, drop, ℕ, zero, suc, ◌+◌, ◌*◌, ◌<◌, ◌≡◌, refl,
  ◌⊎◌, inl, inr, ◌&&◌, List, [], ◌∷◌, arith,
}
use mathlib.Core.Path.{ap₂}
use iom.Tensor.Layout.Numbers.{Within}
use iom.Tensor.View.Address.{dot}
use iom.Binary.{logical_strides}
use iom.Binary.Broadcast.{Stretches}

-- The leading coordinates of an input, for those of the result.
abbrev pub clamp : ℕ → List ℕ → List ℕ → List ℕ
clamp k dims [] = []
clamp (suc k) dims (c ∷ cs) = clamp k dims cs
clamp zero [] (c ∷ cs) = []
clamp zero (s ∷ dims) (c ∷ cs) = (if s == 1 then 0 else c) ∷ clamp zero dims cs

clamped_stride :
    (c d s p : ℕ)
    → c < d
    → (s ≡ d) ⊎ (s ≡ 1)
    → c * (if s == 1 && d != 1 then 0 else p) ≡ (if s == 1 then 0 else c) * p
clamped_stride c d s p h fits = elim (Bool-cases (s == 1)) [
  | inr other ↦ rw other refl
  | inl one ↦ elim (Bool-cases (d != 1)) [
    | inl wide ↦ rw (one, wide) (omega arith)
    | inr same ↦ let none_left : c ≡ 0 = ground arith in rw (one, same, none_left) refl
  ]
]

pub logical_strides-clamp :
    (k : ℕ) (result dims strides cs : List ℕ)
    → Within cs result
    → length result ≡ k + length strides
    → Stretches dims (drop k result)
    → dot (logical_strides k result dims strides) cs ≡ dot strides (clamp k dims cs)
unfolding logical_strides
logical_strides-clamp zero [] dims [] [] within long s = refl
logical_strides-clamp zero [] dims (p ∷ strides) [] within long s = absurd (omega (arith, long))
logical_strides-clamp (suc k) [] dims strides [] within long s = absurd (omega (arith, long))
logical_strides-clamp (suc k) (d ∷ result) dims strides (c ∷ cs) within long s =
    omega (arith, logical_strides-clamp k result dims strides cs within.1 (omega (arith, long)) s)
logical_strides-clamp zero (d ∷ result) [] strides (c ∷ cs) within long s = absurd s
logical_strides-clamp zero (d ∷ result) (x ∷ dims) [] (c ∷ cs) within long s =
    absurd (omega (arith, long))
logical_strides-clamp zero (d ∷ result) (x ∷ dims) (p ∷ strides) (c ∷ cs) within long s =
    ap₂ (λ (a b : ℕ). a + b) (clamped_stride c d x p within.0 s.0)
      (logical_strides-clamp zero result dims strides cs within.1 (omega (arith, long)) s.1)
logical_strides-clamp zero [] dims strides (c ∷ cs) within long s = absurd within
logical_strides-clamp zero (d ∷ result) dims strides [] within long s = absurd within
logical_strides-clamp (suc k) [] dims strides (c ∷ cs) within long s = absurd within
logical_strides-clamp (suc k) (d ∷ result) dims strides [] within long s = absurd within

clamped_axis : (c d s : ℕ) → c < d → (s ≡ d) ⊎ (s ≡ 1) → (if s == 1 then 0 else c) < s
clamped_axis c d s h fits = ground arith

pub clamp-Within :
    (k n : ℕ) (result dims cs : List ℕ)
    → Within cs result
    → length result ≡ k + n
    → Stretches dims (drop k result)
    → Within (clamp k dims cs) (take n dims)
clamp-Within zero zero [] dims [] within long s = tt
clamp-Within zero (suc n) [] dims [] within long s = absurd (omega (arith, long))
clamp-Within (suc k) n [] dims [] within long s = absurd (omega (arith, long))
clamp-Within (suc k) n (d ∷ result) dims (c ∷ cs) within long s =
    clamp-Within k n result dims cs within.1 (omega (arith, long)) s
clamp-Within zero zero (d ∷ result) dims (c ∷ cs) within long s = absurd (omega (arith, long))
clamp-Within zero (suc n) (d ∷ result) [] (c ∷ cs) within long s = absurd s
clamp-Within zero (suc n) (d ∷ result) (x ∷ dims) (c ∷ cs) within long s = (
  clamped_axis c d x within.0 s.0,
  clamp-Within zero n result dims cs within.1 (omega (arith, long)) s.1,
)
clamp-Within zero n [] dims (c ∷ cs) within long s = absurd within
clamp-Within zero n (d ∷ result) dims [] within long s = absurd within
clamp-Within (suc k) n [] dims (c ∷ cs) within long s = absurd within
clamp-Within (suc k) n (d ∷ result) dims [] within long s = absurd within
