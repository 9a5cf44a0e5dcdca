-- ===== src/Tokenizer/Bpe/Listed.antt =====
-- Fresh nodes are a linked list of all their places.
use iom.Base.{
  length, Among, All, max_word, ℕ, zero, suc, ◌+◌, ◌≤◌, ◌<◌, ◌≡◌, refl, inl, inr, List, [], ◌∷◌,
  arith, dec_lt, ℕ_discrete,
}
use iom.Tokenizer.Bpe.{BpeNode}
use iom.Tokenizer.Bpe.Chain.{Links, first_of, Up, IsLinked}
use iom.Tokenizer.Bpe.Built.{Fresh, before_of}

-- The nodes of a list in place.
abbrev pub count_from : ℕ → ℕ → List ℕ
count_from i zero = []
count_from i (suc n) = i ∷ count_from (suc i) n

count_from-above : (i j n : ℕ) → i < j → All (λ m. i < m) (count_from j n)
count_from-above i j zero h = tt
count_from-above i j (suc n) h = (h, count_from-above i (suc j) n (omega (arith, h)))

count_from-Up : (i n : ℕ) → Up (count_from i n)
count_from-Up i zero = tt
count_from-Up i (suc n) = (count_from-above i (suc i) n (omega arith), count_from-Up (suc i) n)

count_from-all : (i n m : ℕ) → i ≤ m → m < i + n → Among m (count_from i n)
count_from-all i zero m lo hi = absurd (omega (arith, lo, hi))
count_from-all i (suc n) m lo hi = elim (ℕ_discrete m i) [
  | yes e ↦ inl e
  | no ne ↦ elim (dec_lt i m) [
    | yes lt ↦ inr (count_from-all (suc i) n m (omega (arith, lt)) (omega (arith, hi)))
    | no ge ↦ absurd (ne (omega (arith, lo, ge)))
  ]
]

-- A run of fresh nodes up to the last.
fresh-Links :
    {limit : ℕ} {nodes : List BpeNode} (i n : ℕ)
    → Fresh limit nodes
    → i + n ≡ length nodes
    → Links nodes (before_of i) (count_from i n)
fresh-Links i zero f whole = tt
fresh-Links {nodes = nodes} i (suc zero) f whole =
    let here = f.at i (omega (arith, whole)) in
    (
      record {
        inside = omega (arith, whole);
        alive = here.alive;
        previous = here.previous;
        next = here.last (omega (arith, whole));
      },
      tt,
    )
fresh-Links {nodes = nodes} i (suc (suc n)) f whole =
    let here = f.at i (omega (arith, whole)) in
    (
      record {
        inside = omega (arith, whole);
        alive = here.alive;
        previous = here.previous;
        next = here.inner (omega (arith, whole));
      },
      fresh-Links (suc i) (suc n) f (omega (arith, whole)),
    )

pub Fresh-IsLinked :
    {limit : ℕ} {nodes : List BpeNode}
    → Fresh limit nodes
    → 0 < length nodes
    → length nodes < max_word
    → IsLinked nodes (count_from 0 (length nodes))
Fresh-IsLinked {nodes = nodes} f some_node small = record {
  links = fresh-Links 0 (length nodes) f (omega arith);
  up = count_from-Up 0 (length nodes);
  total = λ i h alive. count_from-all 0 (length nodes) i (omega arith) (omega (arith, h));
  small = small;
  first = first_zero (length nodes) some_node;
}
  where
    first_zero : (n : ℕ) → 0 < n → first_of (count_from 0 n) ≡ 0
    first_zero zero h = absurd (omega (arith, h))
    first_zero (suc n) h = refl
