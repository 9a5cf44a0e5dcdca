-- ===== src/Tokenizer/Bpe/Relinked.antt =====
-- A merge takes the right node of the pair out of the linked list.
use iom.Base.{
  length, Among, All, max_word, ℕ, ◌<◌, ◌≡◌, refl, sym, ap, subst, ◌∙◌, ◌≢◌, inl, inr, true, false,
  List, [], ◌∷◌, ◌++◌, arith, ℕ_discrete,
}
use native.Mathlib.Decide.{ℕ_discrete}
use iom.Tokenizer.Bpe.{BpeNode, node_at, no_index}
use iom.Tokenizer.Bpe.Chain.{LinkAt, Links, first_of, Up, IsLinked}
use iom.Tokenizer.Bpe.Merged.{Merged}

-- Nodes that a merge leaves as they are, but for a link back.
pub kept :
    {nodes nodes' : List BpeNode} {i j n id : ℕ}
    → Merged nodes nodes' i j n id
    → (m : ℕ) → m ≢ i
    → m ≢ j
    → m ≢ no_index
    → (p : ℕ) × (node_at nodes' m ≡ record (node_at nodes m) { previous = p })
kept {nodes} {nodes'} {i} {j} {n} {id} h m mi mj mo = elim (ℕ_discrete m n) [
  | yes e ↦
      let more : n ≢ no_index = λ k. mo (e ∙ k) in
      (
        i,
        subst (λ (k : ℕ). node_at nodes' k ≡ record (node_at nodes k) { previous = i }) (sym e)
            (h.successor more),
      )
  | no d ↦ ((node_at nodes m).previous, h.others m mi mj d)
]

-- Apart from all three places that a merge sets.
abbrev Apart : ℕ → ℕ → ℕ → ℕ → Type 0
Apart i j n m = (m ≢ i) × (m ≢ j) × (m ≢ n)

LinkAt-same :
    {nodes nodes' : List BpeNode} {p m q : ℕ}
    → length nodes' ≡ length nodes
    → node_at nodes' m ≡ node_at nodes m
    → LinkAt nodes p m q
    → LinkAt nodes' p m q
LinkAt-same size same link = record {
  inside = omega (arith, size, link.inside);
  alive = ap (λ (b : BpeNode). b.alive) same ∙ link.alive;
  previous = ap (λ (b : BpeNode). b.previous) same ∙ link.previous;
  next = ap (λ (b : BpeNode). b.next) same ∙ link.next;
}

Links-kept :
    {nodes nodes' : List BpeNode} {i j n id : ℕ}
    → Merged nodes nodes' i j n id
    → (p : ℕ) (chain : List ℕ) → All (Apart i j n) chain
    → Links nodes p chain
    → Links nodes' p chain
Links-kept h p [] apart links = tt
Links-kept {nodes} {nodes'} h p (m ∷ chain) apart links = (
  LinkAt-same {nodes = nodes} {nodes' = nodes'} h.size (h.others m apart.0.0 apart.0.1 apart.0.2)
      links.0,
  Links-kept h m chain apart.1 links.1,
)

first_same :
    (before : List ℕ) (i : ℕ) (xs ys : List ℕ)
    → first_of (before ++ (i ∷ xs)) ≡ first_of (before ++ (i ∷ ys))
first_same [] i xs ys = refl
first_same (h ∷ before) i xs ys = refl

-- The list behind the merged node.
Links-after :
    {nodes nodes' : List BpeNode} {i j id : ℕ} (after : List ℕ)
    → Merged nodes nodes' i j (first_of after) id
    → length nodes < max_word
    → All (λ m. i < m) (j ∷ after)
    → Up (j ∷ after)
    → Links nodes j after
    → Links nodes' i after
Links-after [] h small above up links = tt
Links-after {nodes} {nodes'} {i} {j} (k ∷ after) h small above up links =
    let (behind, rest) = links in
    let more : k ≢ no_index = λ e. absurd (omega (arith, e, behind.inside, small)) in
    let same = h.successor more in
    (
      record {
        inside = omega (arith, h.size, behind.inside);
        alive = ap (λ (b : BpeNode). b.alive) same ∙ behind.alive;
        previous = ap (λ (b : BpeNode). b.previous) same;
        next = ap (λ (b : BpeNode). b.next) same ∙ behind.next;
      },
      Links-kept h k after (beyond i j k after above.1.1 up.0.1 up.1.0) rest,
    )
  where
    beyond :
        (i j k : ℕ) (after : List ℕ)
        → All (λ m. i < m) after
        → All (λ m. j < m) after
        → All (λ m. k < m) after
        → All (Apart i j k) after
    beyond i j k [] a b c = tt
    beyond i j k (m ∷ after) a b c = (
      (
        λ e. absurd (omega (arith, e, a.0)),
        λ e. absurd (omega (arith, e, b.0)),
        λ e. absurd (omega (arith, e, c.0)),
      ),
      beyond i j k after a.1 b.1 c.1,
    )

Links-Merged :
    {nodes nodes' : List BpeNode} {i j id : ℕ} (p : ℕ) (before after : List ℕ)
    → Merged nodes nodes' i j (first_of after) id
    → length nodes < max_word
    → Up (before ++ (i ∷ j ∷ after))
    → Links nodes p (before ++ (i ∷ j ∷ after))
    → Links nodes' p (before ++ (i ∷ after))
Links-Merged {nodes} {nodes'} {i} {j} p [] after h small up links = (
  record {
    inside = omega (arith, h.size, links.0.inside);
    alive = ap (λ (b : BpeNode). b.alive) h.left ∙ links.0.alive;
    previous = ap (λ (b : BpeNode). b.previous) h.left ∙ links.0.previous;
    next = ap (λ (b : BpeNode). b.next) h.left;
  },
  Links-after after h small up.0 up.1 links.1.1,
)
Links-Merged {nodes} {nodes'} {i} {j} p (m ∷ before) after h small up links =
    let (mi, mj, mn) = below m before (omega (arith, links.0.inside, small)) up.0 in
    (
      LinkAt-same {nodes = nodes} {nodes' = nodes'} h.size (h.others m mi mj mn)
          (subst (LinkAt nodes p m) (first_same before i (j ∷ after) after) links.0),
      Links-Merged m before after h small up.1 links.1,
    )
  where
    ahead : (m : ℕ) (after : List ℕ) → m < max_word → All (λ k. m < k) after → m ≢ first_of after
    ahead m [] hm a e = omega (arith, e, hm)
    ahead m (k ∷ after) hm a e = omega (arith, e, a.0)

    below :
        (m : ℕ) (before : List ℕ)
        → m < max_word
        → All (λ k. m < k) (before ++ (i ∷ j ∷ after))
        → Apart i j (first_of after) m
    below m (k ∷ before) hm a = below m before hm a.1
    below m [] hm a = (
      λ e. absurd (omega (arith, e, a.0)),
      λ e. absurd (omega (arith, e, a.1.0)),
      ahead m after hm a.1.1,
    )

-- A list without the second of a pair.
All-without :
    (P : ℕ → Type 0) (before : List ℕ) (i j : ℕ) (after : List ℕ)
    → All P (before ++ (i ∷ j ∷ after))
    → All P (before ++ (i ∷ after))
All-without P [] i j after a = (a.0, a.1.1)
All-without P (m ∷ before) i j after a = (a.0, All-without P before i j after a.1)

Up-without :
    (before : List ℕ) (i j : ℕ) (after : List ℕ)
    → Up (before ++ (i ∷ j ∷ after))
    → Up (before ++ (i ∷ after))
Up-without [] i j after u = (u.0.1, u.1.1)
Up-without (m ∷ before) i j after u =
    (All-without (λ k. m < k) before i j after u.0, Up-without before i j after u.1)

Among-without :
    (before : List ℕ) (i j : ℕ) (after : List ℕ) (m : ℕ)
    → m ≢ j
    → Among m (before ++ (i ∷ j ∷ after))
    → Among m (before ++ (i ∷ after))
Among-without [] i j after m ne (inl e) = inl e
Among-without [] i j after m ne (inr (inl e)) = absurd (ne e)
Among-without [] i j after m ne (inr (inr a)) = inr a
Among-without (k ∷ before) i j after m ne (inl e) = inl e
Among-without (k ∷ before) i j after m ne (inr a) = inr (Among-without before i j after m ne a)

Among-middle : (before : List ℕ) (i : ℕ) (after : List ℕ) → Among i (before ++ (i ∷ after))
Among-middle [] i after = inl refl
Among-middle (k ∷ before) i after = inr (Among-middle before i after)

pub Merged-IsLinked :
    {nodes nodes' : List BpeNode} {i j id : ℕ} (before after : List ℕ)
    → IsLinked nodes (before ++ (i ∷ j ∷ after))
    → Merged nodes nodes' i j (first_of after) id
    → IsLinked nodes' (before ++ (i ∷ after))
Merged-IsLinked {nodes} {nodes'} {i} {j} before after v h = record {
  links = Links-Merged no_index before after h v.small v.up v.links;
  up = Up-without before i j after v.up;
  total = λ m hm alive. elim (ℕ_discrete m j) [
    | yes e ↦ absurd (true_false (sym alive ∙ ap (λ (k : ℕ). (node_at nodes' k).alive) e ∙ h.right))
    | no mj ↦ elim (ℕ_discrete m i) [
      | yes e ↦
          subst (λ (k : ℕ). Among k (before ++ (i ∷ after))) (sym e) (Among-middle before i after)
      | no mi ↦
          let (p, same) = kept h m mi mj (λ e. far m (length nodes') hm e size') in
          Among-without before i j after m mj (
            v.total m (omega (arith, hm, h.size))
              (sym (ap (λ (b : BpeNode). b.alive) same) ∙ alive))
    ]
  ];
  small = omega (arith, h.size, v.small);
  first = sym (first_same before i (j ∷ after) after) ∙ v.first;
}
  where
    size' : length nodes' < max_word
    size' = omega (arith, h.size, v.small)

    far : (m n : ℕ) → m < n → m ≡ no_index → n < max_word → ⊥
    far m n hm e s = omega (arith, hm, e, s)

    true_false : true ≡ false → ⊥
    true_false e = cc

pub Links-inside :
    (nodes : List BpeNode) (p : ℕ) (chain : List ℕ)
    → Links nodes p chain
    → All (λ m. m < length nodes) chain
Links-inside nodes p [] links = tt
Links-inside nodes p (m ∷ chain) links = (links.0.inside, Links-inside nodes m chain links.1)
