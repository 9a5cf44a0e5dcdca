-- ===== src/Tokenizer/Bpe/Greedy.antt =====
-- The merging of a list of ids that the source means: of the adjacent pairs that have a rank, the
-- one of the least rank, and of these the first, gives way to its result, as long as there is one.
use iom.Base.{
  length, ℕ, ◌≤◌, ◌<◌, ◌≡◌, refl, sym, subst, ◌∙◌, ◌⊎◌, inl, inr, some, List, [], ◌∷◌, ◌++◌, arith,
}
use mathlib.Core.Path.{ap₂}
use iom.Tokenizer.Bpe.{Merges}

-- The pair has a rank that no other falls short of, and stands first among those of that rank.
pub record Merge (merges : Merges) (xs ys : List ℕ) : Type 0 where
  pub before : List ℕ
  pub after : List ℕ
  pub left : ℕ
  pub right : ℕ
  pub rank : ℕ
  pub result : ℕ
  pub split : xs ≡ before ++ (left ∷ right ∷ after)
  pub ranked : merges.rank_of left right ≡ some rank
  pub merged : merges.result_of left right ≡ some result
  pub done : ys ≡ before ++ (result ∷ after)
  pub least :
      (others rest : List ℕ) (a b k : ℕ)
      → xs ≡ others ++ (a ∷ b ∷ rest)
      → merges.rank_of a b ≡ some k
      → (rank < k) ⊎ ((rank ≡ k) × (length before ≤ length others))

-- No adjacent pair has a rank.
abbrev pub NoMerge : Merges → List ℕ → Type 0
NoMerge merges xs =
    (before after : List ℕ) (a b k : ℕ)
    → xs ≡ before ++ (a ∷ b ∷ after)
    → merges.rank_of a b ≡ some k
    → ⊥

-- Merges one after the other, until there is none.
pub data Greedy (merges : Merges) : List ℕ → List ℕ → Type 0 where
  ends : {xs : List ℕ} → NoMerge merges xs → Greedy merges xs xs
  merge : {xs ys zs : List ℕ} → Merge merges xs ys → Greedy merges ys zs → Greedy merges xs zs

record Same (before before' after after' : List ℕ) (a a' b b' : ℕ) : Type 0 where
  before_eq : before ≡ before'
  after_eq : after ≡ after'
  left_eq : a ≡ a'
  right_eq : b ≡ b'

Same-split :
    (before before' after after' : List ℕ) (a a' b b' : ℕ)
    → length before ≡ length before'
    → before ++ (a ∷ b ∷ after) ≡ before' ++ (a' ∷ b' ∷ after')
    → Same before before' after after' a a' b b'
Same-split [] [] after after' a a' b b' long e = record {
  before_eq = refl;
  after_eq = cc;
  left_eq = cc;
  right_eq = cc;
}
Same-split [] (y ∷ before') after after' a a' b b' long e = absurd (omega (arith, long))
Same-split (x ∷ before) [] after after' a a' b b' long e = absurd (omega (arith, long))
Same-split (x ∷ before) (y ∷ before') after after' a a' b b' long e =
    let s = Same-split before before' after after' a a' b b' (omega (arith, long)) (tail_eq e) in
    record {
      before_eq = ap₂ (λ (z : ℕ) (zs : List ℕ). z ∷ zs) (head_eq e) s.before_eq;
      after_eq = s.after_eq;
      left_eq = s.left_eq;
      right_eq = s.right_eq;
    }
  where
    head_eq : {xs ys : List ℕ} → x ∷ xs ≡ y ∷ ys → x ≡ y
    head_eq e = cc

    tail_eq : {xs ys : List ℕ} → x ∷ xs ≡ y ∷ ys → xs ≡ ys
    tail_eq e = cc

-- The choice leaves no other.
Merge-unique :
    (merges : Merges) (xs ys zs : List ℕ) → Merge merges xs ys → Merge merges xs zs → ys ≡ zs
Merge-unique merges xs ys zs m n =
    let s =
      Same-split m.before n.before m.after n.after m.left n.left m.right n.right
        (long (m.least n.before n.after n.left n.right n.rank n.split n.ranked)
          (n.least m.before m.after m.left m.right m.rank m.split m.ranked))
        (sym m.split ∙ n.split) in
    let result = same_some (sym m.merged ∙ ap₂ merges.result_of s.left_eq s.right_eq ∙ n.merged) in
    m.done
    ∙ ap₂ (λ (b c : List ℕ). b ++ c) s.before_eq
        (ap₂ (λ (z : ℕ) (c : List ℕ). z ∷ c) result s.after_eq)
    ∙ sym n.done
  where
    long : {r s a b : ℕ} → (r < s) ⊎ ((r ≡ s) × (a ≤ b)) → (s < r) ⊎ ((s ≡ r) × (b ≤ a)) → a ≡ b
    long (inl x) (inl y) = absurd (omega (arith, x, y))
    long (inl x) (inr y) = absurd (omega (arith, x, y.0))
    long (inr x) (inl y) = absurd (omega (arith, x.0, y))
    long (inr x) (inr y) = omega (arith, x.1, y.1)

    same_some : {x y : ℕ} → some x ≡ some y → x ≡ y
    same_some e = cc

-- Nor does the list that the choices end with.
pub Greedy-unique :
    (merges : Merges) {xs ys zs : List ℕ} → Greedy merges xs ys → Greedy merges xs zs → ys ≡ zs
Greedy-unique merges (ends none_here) (ends none_there) = refl
Greedy-unique merges (ends none_here) (merge m rest) =
    absurd (none_here m.before m.after m.left m.right m.rank m.split m.ranked)
Greedy-unique merges (merge m rest) (ends none_there) =
    absurd (none_there m.before m.after m.left m.right m.rank m.split m.ranked)
Greedy-unique merges {zs = zs} (merge {ys = ys} m rest) (merge n rest') =
    Greedy-unique merges rest
      (subst (λ (l : List ℕ). Greedy merges l zs) (sym (Merge-unique merges _ ys _ m n)) rest')
