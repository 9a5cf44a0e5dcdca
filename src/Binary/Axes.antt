-- ===== src/Binary/Axes.antt =====
-- The axes of an input that is stretched to a result.
use iom.Base.{
  ◌==◌, ◌!=◌, if◌then◌else◌, length, get_or, take, drop, sub_word, ℕ, zero, suc, ◌+◌, ◌-◌, ◌≤◌, ◌<◌,
  ◌≡◌, refl, sym, ap, subst, ◌∙◌, ◌⊎◌, ◌&&◌, List, [], ◌∷◌, arith,
}
use iom.Tensor.Shape.{max_tensor_rank}
use iom.Tensor.View.Slice.{length-take_le, length-drop}
use iom.Binary.Broadcast.{Stretches, Stretches-take, Stretches-at}

drop-take : (k n : ℕ) (xs : List ℕ) → drop k (take (k + n) xs) ≡ take n (drop k xs)
drop-take zero n xs = ap (λ (m : ℕ). take m xs) (omega arith)
drop-take (suc k) n [] = ap (λ (m : ℕ). drop (suc k) (take {A = ℕ} m [])) (next k n) ∙ after_end n
  where
    next : (k n : ℕ) → suc k + n ≡ suc (k + n)
    next k n = omega arith

    after_end : (n : ℕ) → ◌≡◌ {A = List ℕ} [] (take n [])
    after_end zero = refl
    after_end (suc n) = refl
drop-take (suc k) n (x ∷ xs) =
    ap (λ (m : ℕ). drop (suc k) (take m (x ∷ xs))) (next k n) ∙ drop-take k n xs
  where
    next : (k n : ℕ) → suc k + n ≡ suc (k + n)
    next k n = omega arith

get_or-drop : (k i : ℕ) (xs : List ℕ) → get_or (drop k xs) i 0 ≡ get_or xs (k + i) 0
get_or-drop zero i xs = ap (λ (m : ℕ). get_or xs m 0) (omega arith)
get_or-drop (suc k) i [] = refl
get_or-drop (suc k) i (x ∷ xs) = get_or-drop k i xs ∙ ap (λ (m : ℕ). get_or (x ∷ xs) m 0) (next k i)
  where
    next : (k i : ℕ) → suc (k + i) ≡ suc k + i
    next k i = omega arith

pub short_sub : (n k : ℕ) → k ≤ n → n ≤ 8 → sub_word n k ≡ n - k
short_sub n k h small = omega (arith, h, small)

-- The row or the column of an input, for one of the result.
pub axis_inside : (a o x : ℕ) → x < o → (a ≡ o) ⊎ (a ≡ 1) → (if a == 1 && o != 1 then 0 else x) < a
axis_inside a o x h fits = ground arith

-- It is 0 exactly where the extent of the input is 1.
pub axis_own :
    (a o x : ℕ)
    → x < o
    → (a ≡ o) ⊎ (a ≡ 1)
    → (if a == 1 && o != 1 then 0 else x) ≡ (if a == 1 then 0 else x)
axis_own a o x h fits = ground arith

-- An input of `n` dimensions and a result of `m`.
module _ (dims result : List ℕ) (two : 2 ≤ length dims) (shorter : length dims ≤ length result)
    (most : length result ≤ max_tensor_rank)
    (s : Stretches dims (drop (length result - length dims) result)) where
  abbrev k : ℕ
  k = length result - length dims

  abbrev n : ℕ
  n = length dims

  abbrev m : ℕ
  m = length result

  -- The axes of the matrix.
  pub matrix_axis :
      (back : ℕ)
      → back ≤ 2
      → 0 < back
      → (get_or dims (n - back) 0 ≡ get_or result (m - back) 0) ⊎ (get_or dims (n - back) 0 ≡ 1)
  matrix_axis back low some_back =
      subst (λ (o : ℕ). (get_or dims (n - back) 0 ≡ o) ⊎ (get_or dims (n - back) 0 ≡ 1))
        (get_or-drop k (n - back) result
          ∙ ap (λ (i : ℕ). get_or result i 0) (place m n back low two shorter))
        (Stretches-at dims (drop k result) (n - back) s
          (omega (arith, length-drop k result, low, some_back, two, shorter)))
    where
      place : (m n back : ℕ) → back ≤ 2 → 2 ≤ n → n ≤ m → m - n + (n - back) ≡ m - back
      place m n back low two shorter = omega (arith, low, two, shorter)

  pub whole_leading : length (take (m - 2) result) ≡ k + (n - 2)
  whole_leading = length-take_le (m - 2) result (omega arith) ∙ sum_up m n two shorter
    where
      sum_up : (m n : ℕ) → 2 ≤ n → n ≤ m → m - 2 ≡ m - n + (n - 2)
      sum_up m n two shorter = omega (arith, two, shorter)

  pub leading-Stretches : Stretches dims (drop k (take (m - 2) result))
  leading-Stretches =
      subst (Stretches dims)
        (sym (
          ap (λ (i : ℕ). drop k (take i result))
            (sym (length-take_le (m - 2) result (omega arith)) ∙ whole_leading)
          ∙ drop-take k (n - 2) result))
        (Stretches-take (n - 2) dims (drop k result) s)
