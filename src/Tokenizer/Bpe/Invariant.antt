-- ===== src/Tokenizer/Bpe/Invariant.antt =====
-- What the loop of the merges keeps: the nodes are a linked list, and each pair that has a rank
-- stands on the heap, about the nodes as they are now.
use iom.Base.{
  length, All, max_word, ℕ, ◌<◌, ◌≡◌, sym, ap, subst, ◌∙◌, ◌≢◌, inl, inr, true, false, some, List,
  ◌∷◌, ◌++◌, arith, ℕ_discrete,
}
use mathlib.Core.Path.{ap₂}
use iom.Tokenizer.Bpe.{BpeNode, BpeHeapEntry, node_at, no_index, current, Merges}
use iom.Tokenizer.Bpe.Heap.{Pair, Sorted, IsRanked, Queued, Pushed}
use iom.Tokenizer.Bpe.Chain.{first_of, IsLinked, linked-fields, fields-linked}
use iom.Tokenizer.Bpe.Merged.{Merged}
use iom.Tokenizer.Bpe.Relinked.{kept, Merged-IsLinked}
use iom.Tokenizer.Bpe.Start.{Queued-old}
use iom.Tokenizer.Bpe.Current.{current-Says, Says-current}

pub record Invariant (merges : Merges) (nodes : List BpeNode) (chain : List ℕ)
    (heap : List BpeHeapEntry) : Type 0 where
  pub list : IsLinked nodes chain
  pub sorted : Sorted heap
  pub ranked : All (IsRanked merges) heap
  pub cover :
      (i j k : ℕ)
      → Pair nodes i j
      → merges.rank_of (node_at nodes i).id (node_at nodes j).id ≡ some k
      → Queued nodes heap i j

-- An entry that is out of date may go.
pub stale-Invariant :
    (merges : Merges) (nodes : List BpeNode) (chain : List ℕ) (entry : BpeHeapEntry)
    (heap : List BpeHeapEntry)
    → current nodes entry ≡ false
    → Invariant merges nodes chain (entry ∷ heap)
    → Invariant merges nodes chain heap
stale-Invariant merges nodes chain entry heap stale v = record {
  list = v.list;
  sorted = v.sorted.1;
  ranked = v.ranked.1;
  cover = λ i j k pair rank.
      let q = v.cover i j k pair rank in
      elim q.held [
        | inl e ↦ absurd (true_false (sym q.now ∙ ap (current nodes) e ∙ stale))
        | inr m ↦ record { entry = q.entry; held = m; left = q.left; right = q.right; now = q.now }
      ];
}
  where
    true_false : true ≡ false → ⊥
    true_false e = cc

-- Two nodes next to each other after a merge, neither of them the merged one, were so before.
record Back (nodes nodes' : List BpeNode) (a b : ℕ) : Type 0 where
  pair : Pair nodes a b
  left_id : (node_at nodes' a).id ≡ (node_at nodes a).id
  right_id : (node_at nodes' b).id ≡ (node_at nodes b).id
  left_generation : (node_at nodes' a).generation ≡ (node_at nodes a).generation
  right_generation : (node_at nodes' b).generation ≡ (node_at nodes b).generation

Pair-Back :
    {nodes nodes' : List BpeNode} {i j n id : ℕ} (a b : ℕ)
    → length nodes < max_word
    → Merged nodes nodes' i j n id
    → Pair nodes' a b
    → a ≢ i
    → b ≢ i
    → Back nodes nodes' a b
Pair-Back {nodes} {nodes'} {i} {j} {n} a b small h (ha, hb, together) ai bi =
    let (alive_a, alive_b, next, previous) =
      linked-fields (node_at nodes' a) (node_at nodes' b) a b together in
    let ha' : a < length nodes = omega (arith, ha, h.size) in
    let hb' : b < length nodes = omega (arith, hb, h.size) in
    let (p, same_a) = kept h a ai (not_dead a alive_a) (inner a ha') in
    let same_b = h.others b bi (not_dead b alive_b) (not_next previous (inner b hb')) in
    record {
      pair = (
        ha',
        hb',
        fields-linked (node_at nodes a) (node_at nodes b) a b
            (sym (ap (λ (m : BpeNode). m.alive) same_a) ∙ alive_a)
            (sym (ap (λ (m : BpeNode). m.alive) same_b) ∙ alive_b)
            (sym (ap (λ (m : BpeNode). m.next) same_a) ∙ next)
            (sym (ap (λ (m : BpeNode). m.previous) same_b) ∙ previous),
      );
      left_id = ap (λ (m : BpeNode). m.id) same_a;
      right_id = ap (λ (m : BpeNode). m.id) same_b;
      left_generation = ap (λ (m : BpeNode). m.generation) same_a;
      right_generation = ap (λ (m : BpeNode). m.generation) same_b;
    }
  where
    true_false : true ≡ false → ⊥
    true_false e = cc

    not_dead : (m : ℕ) → (node_at nodes' m).alive ≡ true → m ≢ j
    not_dead m alive e =
        true_false (sym alive ∙ ap (λ (k : ℕ). (node_at nodes' k).alive) e ∙ h.right)

    inner : (m : ℕ) → m < length nodes → m ≢ no_index
    inner m hm e = omega (arith, hm, e, small)

    not_next : (node_at nodes' b).previous ≡ a → b ≢ no_index → b ≢ n
    not_next previous inside e = ai (
        sym previous
        ∙ ap (λ (k : ℕ). (node_at nodes' k).previous) e
        ∙ ap (λ (m : BpeNode). m.previous) (h.successor (λ k. inside (e ∙ k))))

-- Such an entry stays up to date.
still_current :
    (nodes nodes' : List BpeNode) (e : BpeHeapEntry)
    → Back nodes nodes' e.left e.right
    → Pair nodes' e.left e.right
    → current nodes e ≡ true
    → current nodes' e ≡ true
still_current nodes nodes' e b pair now =
    let s = current-Says nodes e now in
    Says-current nodes' e (record {
      pair = pair;
      left_generation = b.left_generation ∙ s.left_generation;
      right_generation = b.right_generation ∙ s.right_generation;
      left_id = b.left_id ∙ s.left_id;
      right_id = b.right_id ∙ s.right_id;
    })

-- And it is still on the heap, where the entry of the merged pair is not.
Pair-kept :
    (merges : Merges) (nodes nodes' : List BpeNode) (chain : List ℕ) (entry : BpeHeapEntry)
    (heap : List BpeHeapEntry) (n id : ℕ) (a b k : ℕ)
    → Invariant merges nodes chain (entry ∷ heap)
    → Merged nodes nodes' entry.left entry.right n id
    → Pair nodes' a b
    → a ≢ entry.left
    → b ≢ entry.left
    → merges.rank_of (node_at nodes' a).id (node_at nodes' b).id ≡ some k
    → Queued nodes' heap a b
Pair-kept merges nodes nodes' chain entry heap n id a b k v h pair ai bi rank =
    let back = Pair-Back a b v.list.small h pair ai bi in
    let q =
      v.cover a b k back.pair (ap₂ merges.rank_of (sym back.left_id) (sym back.right_id) ∙ rank) in
    elim q.held [
      | inl e ↦ absurd (ai (sym q.left ∙ ap (λ (f : BpeHeapEntry). f.left) e))
      | inr m ↦ record {
        entry = q.entry;
        held = m;
        left = q.left;
        right = q.right;
        now =
            still_current nodes nodes' q.entry
              (subst (λ (x : ℕ). Back nodes nodes' x q.entry.right) (sym q.left)
                (subst (Back nodes nodes' a) (sym q.right) back))
              (subst (λ (x : ℕ). Pair nodes' x q.entry.right) (sym q.left)
                (subst (Pair nodes' a) (sym q.right) pair))
              q.now;
      }
    ]

-- The merge of a pair, and the new pairs to its left and right.
pub merged-Invariant :
    (merges : Merges) (nodes nodes' : List BpeNode) (before after : List ℕ) (entry : BpeHeapEntry)
    (heap heap1 heap2 : List BpeHeapEntry) (id : ℕ)
    → Invariant merges nodes (before ++ (entry.left ∷ entry.right ∷ after)) (entry ∷ heap)
    → Merged nodes nodes' entry.left entry.right (first_of after) id
    → Pushed merges nodes' (node_at nodes entry.left).previous entry.left heap heap1
    → Pushed merges nodes' entry.left (first_of after) heap1 heap2
    → Invariant merges nodes' (before ++ (entry.left ∷ after)) heap2
merged-Invariant merges nodes nodes' before after entry heap heap1 heap2 id v h one two = record {
  list = Merged-IsLinked before after v.list h;
  sorted = two.sorted (one.sorted v.sorted.1);
  ranked = two.ranked (one.ranked v.ranked.1);
  cover = λ a b k (ha, hb, together) rank.
      let i = entry.left in
      let n = first_of after in
      let (alive_a, alive_b, next, previous) =
        linked-fields (node_at nodes' a) (node_at nodes' b) a b together in
      let pair : Pair nodes' a b = (ha, hb, together) in
      elim (ℕ_discrete a i) [
        | yes e ↦
            let b_eq : b ≡ n =
              sym next
              ∙ ap (λ (m : ℕ). (node_at nodes' m).next) e
              ∙ ap (λ (m : BpeNode). m.next) h.left in
            at_places a i b n heap2 (sym e) (sym b_eq) pair rank (two.queued k)
        | no ai ↦ elim (ℕ_discrete b i) [
          | yes e ↦
              let a_eq : a ≡ (node_at nodes i).previous =
                sym previous
                ∙ ap (λ (m : ℕ). (node_at nodes' m).previous) e
                ∙ ap (λ (m : BpeNode). m.previous) h.left in
              Queued-old two.old (
                at_places a (node_at nodes i).previous b i heap1 (sym a_eq) (sym e) pair rank
                  (one.queued k))
          | no bi ↦ Queued-old two.old (
              Queued-old one.old (
                Pair-kept merges nodes nodes' (before ++ (i ∷ entry.right ∷ after)) entry heap n id
                  a b k v h pair ai bi rank))
        ]
      ];
}
  where
    at_places :
        {k : ℕ} (a a' b b' : ℕ) (heap : List BpeHeapEntry)
        → a' ≡ a
        → b' ≡ b
        → Pair nodes' a b
        → merges.rank_of (node_at nodes' a).id (node_at nodes' b).id ≡ some k
        → (Pair nodes' a' b'
            → merges.rank_of (node_at nodes' a').id (node_at nodes' b').id ≡ some k
            → Queued nodes' heap a' b')
        → Queued nodes' heap a b
    at_places a a' b b' heap ea eb pair rank queued =
        subst (λ (m : ℕ). Queued nodes' heap m b) ea
          (subst (λ (m : ℕ). Queued nodes' heap a' m) eb
            (queued
              (subst (λ (m : ℕ). Pair nodes' m b') (sym ea)
                (subst (λ (m : ℕ). Pair nodes' a m) (sym eb) pair))
              (ap₂ (λ (x y : ℕ). merges.rank_of (node_at nodes' x).id (node_at nodes' y).id) ea eb
                ∙ rank)))
