-- ===== src/Tensor/View/Slice.antt =====
-- A slice names planes of the view that it was taken from, at the strided coordinates.
use iom.Base.{
  length, get_or, set, take, drop, length-append, length-set, max_word, ok, ℕ, zero, suc, ◌+◌, ◌-◌,
  ◌*◌, ◌≤◌, ◌<◌, ◌≡◌, refl, ap, ◌∙◌, List, [], ◌∷◌, ◌++◌, arith,
}
use iom.Tensor.Shape.{TensorSpec, rank}
use iom.Tensor.Shape.Counts.{IsShape}
use iom.Tensor.Layout.Numbers.{Within, length-Within}
use iom.Tensor.View.{TensorView, leading_rank, leading_dimensions_of, slice}
use iom.Tensor.View.Address.{dot, plane_at, IsView, Sliced, slice-Sliced}

dot-slice :
    (strides cs : List ℕ) (d f step : ℕ)
    → d < length strides
    → d < length cs
    → f * get_or strides d 0 + dot (set strides d (get_or strides d 0 * step)) cs
      ≡ dot strides (set cs d (f + get_or cs d 0 * step))
dot-slice [] cs d f step h k = absurd (omega arith)
dot-slice (s ∷ strides) [] d f step h k = absurd (omega arith)
dot-slice (s ∷ strides) (c ∷ cs) zero f step h k = omega arith
dot-slice (s ∷ strides) (c ∷ cs) (suc d) f step h k =
    omega (arith, dot-slice strides cs d f step (omega arith) (omega arith))

mul_mono : (a b c : ℕ) → a ≤ b → a * c ≤ b * c
mul_mono a b c h = grind arith

Within-slice :
    (cs dims : List ℕ) (d first count step : ℕ)
    → d < length dims
    → first + (count - 1) * step < get_or dims d 0
    → Within cs (set dims d count)
    → Within (set cs d (first + get_or cs d 0 * step)) dims
Within-slice cs [] d first count step h k w = absurd (omega arith)
Within-slice [] (n ∷ dims) zero first count step h k w = absurd w
Within-slice [] (n ∷ dims) (suc d) first count step h k w = absurd w
Within-slice (c ∷ cs) (n ∷ dims) zero first count step h k w =
    (omega (arith, w.0, mul_mono c (count - 1) step (omega (arith, w.0))), w.1)
Within-slice (c ∷ cs) (n ∷ dims) (suc d) first count step h k w =
    (w.0, Within-slice cs dims d first count step (omega arith) k w.1)

-- The strided coordinates.
abbrev pub stretch : ℕ → ℕ → ℕ → List ℕ → List ℕ
stretch dim first step cs = set cs dim (first + get_or cs dim 0 * step)

get_or-take : (k i : ℕ) (xs : List ℕ) → i < k → get_or (take k xs) i 0 ≡ get_or xs i 0
get_or-take zero i xs h = absurd (omega arith)
get_or-take (suc k) i [] h = refl
get_or-take (suc k) zero (x ∷ xs) h = refl
get_or-take (suc k) (suc i) (x ∷ xs) h = get_or-take k i xs (omega arith)

pub length-take_le : (k : ℕ) (xs : List ℕ) → k ≤ length xs → length (take k xs) ≡ k
length-take_le zero xs h = refl
length-take_le (suc k) [] h = absurd (omega arith)
length-take_le (suc k) (x ∷ xs) h = ap suc (length-take_le k xs (omega arith))

pub take-append : (xs ys : List ℕ) (k : ℕ) → length xs ≡ k → take k (xs ++ ys) ≡ xs
take-append [] ys zero e = refl
take-append [] ys (suc k) e = absurd (omega arith)
take-append (x ∷ xs) ys zero e = absurd (omega arith)
take-append (x ∷ xs) ys (suc k) e = ap (λ t. x ∷ t) (take-append xs ys k (omega arith))

pub length-drop : (k : ℕ) (xs : List ℕ) → length (drop k xs) ≡ length xs - k
length-drop zero xs = omega arith
length-drop (suc k) [] = omega arith
length-drop (suc k) (x ∷ xs) = omega (arith, length-drop k xs)

pub leading_rank_lem :
    (spec : TensorSpec) → IsShape spec.shape → leading_rank spec ≡ rank spec.shape - 2
leading_rank_lem spec v = omega (arith, v.at_least, v.at_most)

pub length-leading :
    (spec : TensorSpec)
    → IsShape spec.shape
    → length (leading_dimensions_of spec) ≡ leading_rank spec
unfolding leading_dimensions_of
length-leading spec v =
    length-take_le (leading_rank spec) spec.shape.dimensions
      (omega (arith, leading_rank_lem spec v))

pub get_or-leading :
    (spec : TensorSpec) (i : ℕ)
    → i < leading_rank spec
    → get_or (leading_dimensions_of spec) i 0 ≡ get_or spec.shape.dimensions i 0
unfolding leading_dimensions_of
get_or-leading spec i h = get_or-take (leading_rank spec) i spec.shape.dimensions h

-- New leading dimensions before the two that stay.
pub leading_dimensions_of-put :
    (spec spec' : TensorSpec) (leading : List ℕ)
    → IsShape spec.shape
    → IsShape spec'.shape
    → spec'.shape.dimensions ≡ leading ++ drop (leading_rank spec) spec.shape.dimensions
    → leading_dimensions_of spec' ≡ leading
unfolding leading_dimensions_of
leading_dimensions_of-put spec spec' leading v v' e =
    ap (take (leading_rank spec')) e
    ∙ take-append leading rest (leading_rank spec') (
        omega (
          arith,
          leading_rank_lem spec v,
          leading_rank_lem spec' v',
          ap length e,
          length-append leading rest,
          length-drop (leading_rank spec) spec.shape.dimensions,
          v.at_least,
        ))
  where
    rest : List ℕ
    rest = drop (leading_rank spec) spec.shape.dimensions

-- A slice of a well-formed view, with a first index and a count that are words, that succeeds is
-- a well-formed view of the same owner with the leading dimension `count` in place of the sliced
-- one; at coordinates within its leading dimensions it selects the plane that the source selects
-- at the strided coordinates, and those are within the leading dimensions of the source.
pub slice_lem :
    (v : TensorView) (dim first count step : ℕ) (cs : List ℕ) {v' : TensorView}
    → IsView v
    → first ≤ max_word
    → count ≤ max_word
    → slice v dim first count step ≡ ok v'
    → Within cs (leading_dimensions_of v'.spec)
    → (v'.owner ≡ v.owner)
      × IsView v'
      × (leading_dimensions_of v'.spec ≡ set (leading_dimensions_of v.spec) dim count)
      × Within (stretch dim first step cs) (leading_dimensions_of v.spec)
      × (plane_at v' cs ≡ plane_at v (stretch dim first step cs))
slice_lem v dim first count step cs {v'} valid wf wc e w =
    let (before, same) = inside (rw dims at w) in (s.same_owner, valid', dims, before, same)
  where
    s : Sliced v dim first count step v'
    s = slice-Sliced v dim first count step valid wf wc e

    dims : leading_dimensions_of v'.spec ≡ set (leading_dimensions_of v.spec) dim count
    dims = leading_dimensions_of-put v.spec v'.spec _ valid.shape s.shape s.dims

    lead : dim < length (leading_dimensions_of v.spec)
    lead =
        omega
          (arith, s.leads, length-leading v.spec valid.shape, leading_rank_lem v.spec valid.shape)

    extent : get_or (leading_dimensions_of v.spec) dim 0 ≡ get_or v.spec.shape.dimensions dim 0
    extent = get_or-leading v.spec dim (omega (arith, s.leads, leading_rank_lem v.spec valid.shape))

    valid' : IsView v'
    valid' = record {
      shape = s.shape;
      strided = omega (
        arith,
        valid.strided,
        ap length s.strides,
        length-set v.plane_strides dim (get_or v.plane_strides dim 0 * step),
        ap length dims,
        length-set (leading_dimensions_of v.spec) dim count,
        length-leading v.spec valid.shape,
        length-leading v'.spec s.shape,
        leading_rank_lem v.spec valid.shape,
        leading_rank_lem v'.spec s.shape,
      );
      word = s.word;
    }

    inside :
        Within cs (set (leading_dimensions_of v.spec) dim count)
        → Within (stretch dim first step cs) (leading_dimensions_of v.spec)
          × (plane_at v' cs ≡ plane_at v (stretch dim first step cs))
    inside w = (
      Within-slice cs (leading_dimensions_of v.spec) dim first count step lead
          (omega (arith, s.inside, extent)) w,
      rw s.strides (
          omega (
            arith,
            s.offset,
            dot-slice v.plane_strides cs dim first step (omega (arith, valid.strided, s.leads)) (
                omega (
                  arith,
                  lead,
                  length-Within cs _ w,
                  length-set (leading_dimensions_of v.spec) dim count,
                )),
          )),
    )
