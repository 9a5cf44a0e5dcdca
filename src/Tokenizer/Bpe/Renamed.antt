-- ===== src/Tokenizer/Bpe/Renamed.antt =====
-- The ids along the list, before and after a merge.
-- The ids along a list of nodes that a merge leaves as they are.
use iom.Base.{
  length, Among, All-Among, All, max_word, ℕ, suc, ◌≤◌, ◌<◌, ◌≡◌, refl, ap, ◌≢◌, inl, inr, List, [],
  ◌∷◌, ◌++◌, arith,
}
use mathlib.Core.Path.{ap₂}
use iom.Tokenizer.Bpe.{BpeNode, node_at}
use iom.Tokenizer.Bpe.Chain.{Up, ids}
use iom.Tokenizer.Bpe.Merged.{Merged}
use iom.Tokenizer.Bpe.Relinked.{kept}

ids-kept :
    {nodes nodes' : List BpeNode} {i j n id : ℕ} (chain : List ℕ)
    → Merged nodes nodes' i j n id
    → length nodes < max_word
    → All (λ m. i < m) chain
    → All (λ m. j < m) chain
    → All (λ m. m < length nodes) chain
    → ids nodes' chain ≡ ids nodes chain
ids-kept [] h small a b c = refl
ids-kept (m ∷ chain) h small a b c =
    let (p, same) =
      kept h m (λ e. omega (arith, e, a.0)) (λ e. omega (arith, e, b.0))
        (λ e. omega (arith, e, c.0, small)) in
    ap₂ (λ (x : ℕ) (xs : List ℕ). x ∷ xs) (ap (λ (b : BpeNode). b.id) same)
      (ids-kept chain h small a.1 b.1 c.1)

-- The two ids of the pair give way to the new one.
pub ids-Merged :
    {nodes nodes' : List BpeNode} {i j n id : ℕ} (before after : List ℕ)
    → Merged nodes nodes' i j n id
    → length nodes < max_word
    → Up (before ++ (i ∷ j ∷ after))
    → All (λ m. m < length nodes) (before ++ (i ∷ j ∷ after))
    → ids nodes' (before ++ (i ∷ after)) ≡ ids nodes before ++ (id ∷ ids nodes after)
ids-Merged [] after h small up inside =
    ap₂ (λ (x : ℕ) (xs : List ℕ). x ∷ xs) (ap (λ (b : BpeNode). b.id) h.left)
      (ids-kept after h small up.0.1 up.1.0 inside.1.1)
ids-Merged {i = i} {j = j} (m ∷ before) after h small up inside =
    let (mi, mj) = below before up.0 in
    let (p, same) = kept h m mi mj (λ e. omega (arith, e, inside.0, small)) in
    ap₂ (λ (x : ℕ) (xs : List ℕ). x ∷ xs) (ap (λ (b : BpeNode). b.id) same)
      (ids-Merged before after h small up.1 inside.1)
  where
    below : (before : List ℕ) → All (λ k. m < k) (before ++ (i ∷ j ∷ after)) → (m ≢ i) × (m ≢ j)
    below [] a = (λ e. absurd (omega (arith, e, a.0)), λ e. absurd (omega (arith, e, a.1.0)))
    below (k ∷ before) a = below before a.1

-- A list of ids in two parts, the second of which begins with a pair, comes from such places.
pub record Places (nodes : List BpeNode) (chain others rest : List ℕ) (a b : ℕ) : Type 0 where
  pub before : List ℕ
  pub i : ℕ
  pub j : ℕ
  pub after : List ℕ
  pub whole : chain ≡ before ++ (i ∷ j ∷ after)
  pub long : length before ≡ length others
  pub first : (node_at nodes i).id ≡ a
  pub second : (node_at nodes j).id ≡ b

head_eq : {x y : ℕ} {xs ys : List ℕ} → x ∷ xs ≡ y ∷ ys → x ≡ y
head_eq e = cc

tail_eq : {x y : ℕ} {xs ys : List ℕ} → x ∷ xs ≡ y ∷ ys → xs ≡ ys
tail_eq e = cc

empty_eq : {x : ℕ} {xs : List ℕ} → [] ≡ x ∷ xs → ⊥
empty_eq e = cc

pub ids-Places :
    (nodes : List BpeNode) (chain others rest : List ℕ) (a b : ℕ)
    → ids nodes chain ≡ others ++ (a ∷ b ∷ rest)
    → Places nodes chain others rest a b
ids-Places nodes [] [] rest a b e = absurd (empty_eq e)
ids-Places nodes [] (o ∷ others) rest a b e = absurd (empty_eq e)
ids-Places nodes (i ∷ []) [] rest a b e = absurd (empty_eq (tail_eq e))
ids-Places nodes (i ∷ j ∷ chain) [] rest a b e = record {
  before = [];
  i = i;
  j = j;
  after = chain;
  whole = refl;
  long = refl;
  first = head_eq e;
  second = head_eq (tail_eq e);
}
ids-Places nodes (i ∷ chain) (o ∷ others) rest a b e =
    let deep = ids-Places nodes chain others rest a b (tail_eq e) in
    record {
      before = i ∷ deep.before;
      i = deep.i;
      j = deep.j;
      after = deep.after;
      whole = ap (λ (c : List ℕ). i ∷ c) deep.whole;
      long = ap suc deep.long;
      first = deep.first;
      second = deep.second;
    }

first_in : (i : ℕ) (before rest : List ℕ) → Among i (before ++ (i ∷ rest))
first_in i [] rest = inl refl
first_in i (k ∷ before) rest = inr (first_in i before rest)

-- In an ascending list, what is not greater does not stand later.
pub Up-order :
    (before others xs ys : List ℕ) (i a : ℕ)
    → Up (before ++ (i ∷ xs))
    → before ++ (i ∷ xs) ≡ others ++ (a ∷ ys)
    → i ≤ a
    → length before ≤ length others
Up-order [] others xs ys i a up e le = omega arith
Up-order (m ∷ before) [] xs ys i a up e le =
    absurd (
      later (All-Among (λ k. m < k) i (before ++ (i ∷ xs)) up.0 (first_in i before xs)) (head_eq e))
  where
    later : m < i → m ≡ a → ⊥
    later lt e = omega (arith, lt, e, le)
Up-order (m ∷ before) (o ∷ others) xs ys i a up e le =
    omega (arith, Up-order before others xs ys i a up.1 (tail_eq e) le)

pub ids-append :
    (nodes : List BpeNode) (xs ys : List ℕ) → ids nodes (xs ++ ys) ≡ ids nodes xs ++ ids nodes ys
ids-append nodes [] ys = refl
ids-append nodes (x ∷ xs) ys =
    ap (λ (zs : List ℕ). (node_at nodes x).id ∷ zs) (ids-append nodes xs ys)

pub length-ids : (nodes : List BpeNode) (xs : List ℕ) → length (ids nodes xs) ≡ length xs
length-ids nodes [] = refl
length-ids nodes (x ∷ xs) = ap suc (length-ids nodes xs)
