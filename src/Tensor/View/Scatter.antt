-- ===== src/Tensor/View/Scatter.antt =====
-- Coordinates put back in the order that `permute` took their axes in.
use iom.Base.{
  length, get_or, set, replicate, length-set, get_or-set_self, get_or-set_ne, All, ℕ, zero, suc,
  ◌+◌, ◌*◌, ◌<◌, ◌≡◌, refl, sym, ap, ◌∙◌, Bool, true, false, List, [], ◌∷◌, arith, ℕ_discrete,
}
use iom.Tensor.Layout.Numbers.{Within}
use iom.Tensor.View.{pick}
use iom.Tensor.View.Address.{dot}

-- Coordinate `i` of the permuted view is coordinate `order[i]` of its source.
abbrev pub scatter : List ℕ → List ℕ → List ℕ → List ℕ
scatter [] cs base = base
scatter (axis ∷ order) [] base = base
scatter (axis ∷ order) (c ∷ cs) base = scatter order cs (set base axis c)

abbrev pub put_back : ℕ → List ℕ → List ℕ → List ℕ
put_back n order cs = scatter order cs (replicate n 0)

-- The axes of an order are below `n`, not seen yet, and different.
abbrev pub Fresh : ℕ → List ℕ → List Bool → Type 0
Fresh n [] seen = Unit {0}
Fresh n (axis ∷ order) seen =
    (axis < n) × (get_or seen axis false ≡ false) × Fresh n order (set seen axis true)

pub dot-set :
    (strides cs : List ℕ) (i c : ℕ)
    → i < length strides
    → i < length cs
    → get_or cs i 0 ≡ 0
    → dot strides (set cs i c) ≡ dot strides cs + c * get_or strides i 0
dot-set [] cs i c h k e = absurd (omega arith)
dot-set (s ∷ strides) [] i c h k e = absurd (omega arith)
dot-set (s ∷ strides) (x ∷ cs) zero c h k e = let gone : x ≡ 0 = e in rw gone (omega arith)
dot-set (s ∷ strides) (x ∷ cs) (suc i) c h k e =
    omega (arith, dot-set strides cs i c (omega arith) (omega arith) e)

pub Within-set :
    (cs dims : List ℕ) (i c : ℕ) → c < get_or dims i 0 → Within cs dims → Within (set cs i c) dims
Within-set [] [] i c h w = tt
Within-set [] (d ∷ dims) i c h w = absurd w
Within-set (x ∷ cs) [] i c h w = absurd w
Within-set (x ∷ cs) (d ∷ dims) zero c h w = (h, w.1)
Within-set (x ∷ cs) (d ∷ dims) (suc i) c h w = (w.0, Within-set cs dims i c h w.1)

-- Axes that are not seen yet have coordinate zero.
abbrev pub Zeroed : List Bool → List ℕ → Type 0
Zeroed seen base = (i : ℕ) → get_or seen i false ≡ false → get_or base i 0 ≡ 0

pub dot-scatter :
    (strides order cs base : List ℕ) (seen : List Bool) (n : ℕ)
    → length strides ≡ n
    → length base ≡ n
    → length seen ≡ n
    → length cs ≡ length order
    → Fresh n order seen
    → Zeroed seen base
    → dot strides (scatter order cs base) ≡ dot strides base + dot (pick strides order) cs
dot-scatter strides [] cs base seen n hs hb hn hc f z = omega arith
dot-scatter strides (axis ∷ order) [] base seen n hs hb hn hc f z = absurd (omega arith)
dot-scatter strides (axis ∷ order) (c ∷ cs) base seen n hs hb hn hc f z = omega (
  arith,
  dot-set strides base axis c (omega (arith, f.0)) (omega (arith, f.0)) (z axis f.1),
  dot-scatter strides order cs (set base axis c) (set seen axis true) n hs
      (length-set base axis c ∙ hb) (length-set seen axis true ∙ hn) (omega arith) f.2 zeroed,
)
  where
    zeroed : Zeroed (set seen axis true) (set base axis c)
    zeroed i e = elim (ℕ_discrete axis i) [
      | yes same ↦ cc (
        get_or-set_self seen axis true false (omega (arith, f.0, hn)),
        ap (λ (t : ℕ). get_or (set seen axis true) t false) same,
      )
      | no other ↦
          get_or-set_ne base axis i c 0 other
          ∙ z i (sym (get_or-set_ne seen axis i true false other) ∙ e)
    ]

pub Within-scatter :
    (dims order cs base : List ℕ)
    → Within cs (pick dims order)
    → Within base dims
    → Within (scatter order cs base) dims
Within-scatter dims [] cs base w b = b
Within-scatter dims (axis ∷ order) [] base w b = absurd w
Within-scatter dims (axis ∷ order) (c ∷ cs) base w b =
    Within-scatter dims order cs (set base axis c) w.1 (Within-set base dims axis c w.0 b)

pub zeros-Within : (dims : List ℕ) → All (λ d. 0 < d) dims → Within (replicate (length dims) 0) dims
zeros-Within [] h = tt
zeros-Within (d ∷ dims) h = (h.0, zeros-Within dims h.1)

pub dot-zeros : (strides : List ℕ) (n : ℕ) → dot strides (replicate n 0) ≡ 0
dot-zeros [] n = refl
dot-zeros (s ∷ strides) zero = refl
dot-zeros (s ∷ strides) (suc n) = omega (arith, dot-zeros strides n)

pub get_or-replicate {ℓ} : {A : Type ℓ} (n i : ℕ) (x : A) → get_or (replicate n x) i x ≡ x
get_or-replicate zero i x = refl
get_or-replicate (suc n) zero x = refl
get_or-replicate (suc n) (suc i) x = get_or-replicate n i x
