-- ===== src/Tokenizer/Bpe/Chain.antt =====
-- The linked list of the nodes that are alive.
use iom.Base.{
  length, Among, All, max_word, ℕ, ◌<◌, ◌≡◌, sym, ap, subst, ◌∙◌, ◌≢◌, inl, inr, true, List, [],
  ◌∷◌, ◌++◌, map, arith,
}
use mathlib.Core.Path.{ap₂}
use iom.Tokenizer.Bpe.{BpeNode, node_at, linked, no_index}
use iom.Tokenizer.Bpe.Heap.{Pair}

abbrev pub first_of : List ℕ → ℕ
first_of [] = no_index
first_of (i ∷ chain) = i

-- A node of the list between its neighbours.
pub record LinkAt (nodes : List BpeNode) (before i after : ℕ) : Type 0 where
  pub inside : i < length nodes
  pub alive : (node_at nodes i).alive ≡ true
  pub previous : (node_at nodes i).previous ≡ before
  pub next : (node_at nodes i).next ≡ after

abbrev pub Links : List BpeNode → ℕ → List ℕ → Type 0
Links nodes before [] = Unit {0}
Links nodes before (i ∷ chain) = LinkAt nodes before i (first_of chain) × Links nodes i chain

-- The places ascend.
abbrev pub Up : List ℕ → Type 0
Up [] = Unit {0}
Up (i ∷ chain) = All (λ j. i < j) chain × Up chain

-- The linked nodes are in order, begin at the first, and are all that are alive.
pub record IsLinked (nodes : List BpeNode) (chain : List ℕ) : Type 0 where
  pub links : Links nodes no_index chain
  pub up : Up chain
  pub total : (i : ℕ) → i < length nodes → (node_at nodes i).alive ≡ true → Among i chain
  pub small : length nodes < max_word
  pub first : first_of chain ≡ 0

-- The ids along the list.
abbrev pub ids : List BpeNode → List ℕ → List ℕ
ids nodes = map (λ i. (node_at nodes i).id)

pub linked-fields :
    (l r : BpeNode) (i j : ℕ)
    → linked l r i j ≡ true
    → (l.alive ≡ true) × (r.alive ≡ true) × (l.next ≡ j) × (r.previous ≡ i)
linked-fields l r i j h = (ground arith, ground arith, ground arith, ground arith)

pub fields-linked :
    (l r : BpeNode) (i j : ℕ)
    → l.alive ≡ true
    → r.alive ≡ true
    → l.next ≡ j
    → r.previous ≡ i
    → linked l r i j ≡ true
fields-linked l r i j a b c d = ground arith

-- A list in two parts, the second of which begins with a pair.
pub record Split (chain : List ℕ) (i j : ℕ) : Type 0 where
  pub before : List ℕ
  pub after : List ℕ
  pub whole : chain ≡ before ++ (i ∷ j ∷ after)

-- A node of the list whose successor is inside is followed by it.
chain-Split :
    (nodes : List BpeNode) (p : ℕ) (chain : List ℕ) (i : ℕ)
    → Links nodes p chain
    → Among i chain
    → (node_at nodes i).next ≢ no_index
    → Split chain i (node_at nodes i).next
chain-Split nodes p [] i links among more = absurd among
chain-Split nodes p (h ∷ []) i links (inl e) more =
    absurd (more (ap (λ (n : ℕ). (node_at nodes n).next) e ∙ links.0.next))
chain-Split nodes p (h ∷ []) i links (inr m) more = absurd m
chain-Split nodes p (h ∷ k ∷ chain) i links (inl e) more = record {
  before = [];
  after = chain;
  whole =
      ap₂ (λ (a b : ℕ). a ∷ b ∷ chain) (sym e)
        (sym (ap (λ (n : ℕ). (node_at nodes n).next) e ∙ links.0.next));
}
chain-Split nodes p (h ∷ k ∷ chain) i links (inr m) more =
    let rest = chain-Split nodes h (k ∷ chain) i links.1 m more in
    record {
      before = h ∷ rest.before;
      after = rest.after;
      whole = ap (λ (c : List ℕ). h ∷ c) rest.whole;
    }

-- Two nodes that are next to each other are so in the list.
pub Pair-Split :
    (nodes : List BpeNode) (chain : List ℕ) (i j : ℕ)
    → IsLinked nodes chain
    → Pair nodes i j
    → Split chain i j
Pair-Split nodes chain i j v (hi, hj, h) =
    let (alive_i, alive_j, next, previous) =
      linked-fields (node_at nodes i) (node_at nodes j) i j h in
    let more : (node_at nodes i).next ≢ no_index = λ e. absurd (far (sym next ∙ e)) in
    subst (Split chain i) next
      (chain-Split nodes no_index chain i v.links (v.total i hi alive_i) more)
  where
    far : j ≡ no_index → ⊥
    far e = omega (arith, e, hj, v.small)

-- What follows the first part of a list.
pub Links-drop :
    (nodes : List BpeNode) (p : ℕ) (before rest : List ℕ)
    → Links nodes p (before ++ rest)
    → (q : ℕ) × Links nodes q rest
Links-drop nodes p [] rest links = (p, links)
Links-drop nodes p (h ∷ before) rest links = Links-drop nodes h before rest links.1

-- And what is next to each other in the list are such two nodes.
pub Split-Pair :
    (nodes : List BpeNode) (chain before after : List ℕ) (i j : ℕ)
    → Links nodes no_index chain
    → chain ≡ before ++ (i ∷ j ∷ after)
    → Pair nodes i j
Split-Pair nodes chain before after i j links whole =
    let (p, here) =
      Links-drop nodes no_index before (i ∷ j ∷ after) (subst (Links nodes no_index) whole links) in
    (
      here.0.inside,
      here.1.0.inside,
      fields-linked (node_at nodes i) (node_at nodes j) i j here.0.alive here.1.0.alive here.0.next
          here.1.0.previous,
    )
