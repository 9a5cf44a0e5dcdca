-- ===== src/Tokenizer/Bpe/Heap.antt =====
-- The heap of merges: it is sorted, and a pair that is queued is on it.
use iom.Base.{
  leb, ◌==◌, lt→ltb, eq→==, Bool-cases, Option-cases, length, Among, All, max_word, Exception, ok,
  throws, ok-injective, ℕ, ◌≤◌, ◌<◌, ◌≡◌, refl, sym, subst, ◌∙◌, ◌⊎◌, inl, inr, true, false, ◌||◌,
  none, some, List, [], ◌∷◌, arith,
}
use iom.Tokenizer.Bpe.{
  node_at, current, linked, no_index, BpeNode, BpeHeapEntry, lower, push_heap, Merges, MergeQueue,
  queue_pair,
}

-- The first is on top of the second, or as near the top.
abbrev pub NotBelow : BpeHeapEntry → BpeHeapEntry → Type 0
NotBelow e f = lower e f ≡ false

abbrev pub Sorted : List BpeHeapEntry → Type 0
Sorted [] = Unit {0}
Sorted (e ∷ heap) = All (NotBelow e) heap × Sorted heap

lower-asym : (e f : BpeHeapEntry) → lower e f ≡ true → NotBelow f e
unfolding lower
lower-asym e f h = ground arith

NotBelow-trans : (e f g : BpeHeapEntry) → NotBelow e f → NotBelow f g → NotBelow e g
unfolding lower
NotBelow-trans e f g h k = ground arith

-- What the order says of ranks and places.
pub NotBelow-rank :
    (e f : BpeHeapEntry)
    → NotBelow e f
    → (e.rank < f.rank) ⊎ ((e.rank ≡ f.rank) × (e.left ≤ f.left))
unfolding lower
NotBelow-rank e f h = ground arith

push_heap-All :
    (P : BpeHeapEntry → Type 0) (entry : BpeHeapEntry) (heap : List BpeHeapEntry)
    → P entry
    → All P heap
    → All P (push_heap entry heap)
unfolding push_heap
push_heap-All P entry [] p h = (p, tt)
push_heap-All P entry (e ∷ heap) p h = elim (Bool-cases (lower entry e)) [
  | inl below ↦ rw (below, push_heap) (h.0, push_heap-All P entry heap p h.1)
  | inr above ↦ rw (above, push_heap) (p, h)
]

All-NotBelow :
    (e f : BpeHeapEntry) (heap : List BpeHeapEntry)
    → NotBelow e f
    → All (NotBelow f) heap
    → All (NotBelow e) heap
All-NotBelow e f [] h a = tt
All-NotBelow e f (g ∷ heap) h a = (NotBelow-trans e f g h a.0, All-NotBelow e f heap h a.1)

push_heap-Sorted :
    (entry : BpeHeapEntry) (heap : List BpeHeapEntry) → Sorted heap → Sorted (push_heap entry heap)
unfolding push_heap
push_heap-Sorted entry [] s = (tt, tt)
push_heap-Sorted entry (e ∷ heap) s = elim (Bool-cases (lower entry e)) [
  | inl below ↦
      rw (below, push_heap)
        (
          push_heap-All (NotBelow e) entry heap (lower-asym entry e below) s.0,
          push_heap-Sorted entry heap s.1,
        )
  | inr above ↦ rw (above, push_heap) ((above, All-NotBelow entry e heap above s.0), s)
]

-- The pushed entry is on the heap, and so is all that was there.
push_heap_self :
    (entry : BpeHeapEntry) (heap : List BpeHeapEntry) → Among entry (push_heap entry heap)
unfolding push_heap
push_heap_self entry [] = inl refl
push_heap_self entry (e ∷ heap) = elim (Bool-cases (lower entry e)) [
  | inl below ↦ rw (below, push_heap) (inr (push_heap_self entry heap))
  | inr above ↦ rw (above, push_heap) (inl refl)
]

push_heap_old :
    (entry f : BpeHeapEntry) (heap : List BpeHeapEntry)
    → Among f heap
    → Among f (push_heap entry heap)
unfolding push_heap
push_heap_old entry f [] m = absurd m
push_heap_old entry f (e ∷ heap) m = elim (Bool-cases (lower entry e)) [
  | inl below ↦
      rw (below, push_heap)
        (elim m [ inl here ↦ inl here | inr there ↦ inr (push_heap_old entry f heap there) ])
  | inr above ↦ rw (above, push_heap) (inr m)
]

-- Two nodes that are next to each other.
abbrev pub Pair : List BpeNode → ℕ → ℕ → Type 0
Pair nodes i j =
    (i < length nodes)
    × (j < length nodes)
    × (linked (node_at nodes i) (node_at nodes j) i j ≡ true)

-- An entry for a pair, about the nodes as they are now.
pub record Queued (nodes : List BpeNode) (heap : List BpeHeapEntry) (i j : ℕ) : Type 0 where
  pub entry : BpeHeapEntry
  pub held : Among entry heap
  pub left : entry.left ≡ i
  pub right : entry.right ≡ j
  pub now : current nodes entry ≡ true

-- The rank of an entry is that of its pair of ids.
abbrev pub IsRanked : Merges → BpeHeapEntry → Type 0
IsRanked merges e = merges.rank_of e.left_id e.right_id ≡ some e.rank

-- What `queue_pair` does to the heap.
pub record Pushed (merges : Merges) (nodes : List BpeNode) (i j : ℕ)
    (heap heap' : List BpeHeapEntry) : Type 0 where
  pub old : (f : BpeHeapEntry) → Among f heap → Among f heap'
  pub sorted : Sorted heap → Sorted heap'
  pub ranked : All (IsRanked merges) heap → All (IsRanked merges) heap'
  pub queued :
      (k : ℕ)
      → Pair nodes i j
      → merges.rank_of (node_at nodes i).id (node_at nodes j).id ≡ some k
      → Queued nodes heap' i j

no_push :
    (merges : Merges) (nodes : List BpeNode) (i j : ℕ) (heap : List BpeHeapEntry)
    → ((k : ℕ)
        → Pair nodes i j
        → merges.rank_of (node_at nodes i).id (node_at nodes j).id ≡ some k
        → ⊥)
    → Pushed merges nodes i j heap heap
no_push merges nodes i j heap none_here = record {
  old = λ f m. m;
  sorted = λ s. s;
  ranked = λ r. r;
  queued = λ k pair rank. absurd (none_here k pair rank);
}

-- The entry that `queue_pair` pushes.
abbrev entry_for : List BpeNode → ℕ → ℕ → ℕ → BpeHeapEntry
entry_for nodes i j rank = record {
  rank = rank;
  left = i;
  right = j;
  left_generation = (node_at nodes i).generation;
  right_generation = (node_at nodes j).generation;
  left_id = (node_at nodes i).id;
  right_id = (node_at nodes j).id;
}

==-refl : (n : ℕ) → (n == n) ≡ true
==-refl n = eq→== n n refl

entry_for-current :
    (nodes : List BpeNode) (i j rank : ℕ)
    → Pair nodes i j
    → current nodes (entry_for nodes i j rank) ≡ true
unfolding current
entry_for-current nodes i j rank (hi, hj, h) =
    rw
      (
        lt→ltb i (length nodes) hi,
        lt→ltb j (length nodes) hj,
        h,
        ==-refl (node_at nodes i).generation,
        ==-refl (node_at nodes j).generation,
        ==-refl (node_at nodes i).id,
        ==-refl (node_at nodes j).id,
      )
      refl

unchanged :
    (merges : Merges) (nodes : List BpeNode) (i j : ℕ) (q : MergeQueue) {q' : MergeQueue}
    → ok q ≡ ok q'
    → ((k : ℕ)
        → Pair nodes i j
        → merges.rank_of (node_at nodes i).id (node_at nodes j).id ≡ some k
        → ⊥)
    → Pushed merges nodes i j q.heap q'.heap
unchanged merges nodes i j q {q'} e none_here =
    subst (λ (r : MergeQueue). Pushed merges nodes i j q.heap r.heap) (ok-injective q q' e)
      (no_push merges nodes i j q.heap none_here)

pub queue_pair-Pushed :
    (merges : Merges) (limit : ℕ) (nodes : List BpeNode) (i j : ℕ) (q : MergeQueue)
    {q' : MergeQueue}
    → length nodes ≤ max_word
    → queue_pair merges limit nodes i j q ≡ ok q'
    → Pushed merges nodes i j q.heap q'.heap
unfolding queue_pair
queue_pair-Pushed merges limit nodes i j q {q'} small e =
    elim (Bool-cases (i == no_index || j == no_index)) [
      | inl off ↦
          unchanged merges nodes i j q (rw (off, queue_pair) at e)
            (λ k (hi, hj, h) rank. absurd (off_index i j (length nodes) small off hi hj))
      | inr on ↦ elim (Bool-cases (leb (length nodes) i || leb (length nodes) j)) [
        | inl outside ↦ absurd (refused (rw (on, outside, queue_pair) at e))
        | inr inside ↦ elim (Bool-cases (linked (node_at nodes i) (node_at nodes j) i j)) [
          | inr apart ↦
              unchanged merges nodes i j q (rw (on, inside, apart, queue_pair) at e)
                (λ k (hi, hj, h) rank. true_false (sym h ∙ apart))
          | inl together ↦
              elim (Option-cases (merges.rank_of (node_at nodes i).id (node_at nodes j).id)) [
                | inl no_rank ↦
                    unchanged merges nodes i j q
                      (rw (on, inside, together, no_rank, queue_pair) at e)
                      (λ k (hi, hj, h) rank. none_some (sym no_rank ∙ rank))
                | inr (rank, ranked) ↦
                    elim (Option-cases
                      (merges.result_of (node_at nodes i).id (node_at nodes j).id)) [
                        | inl no_result ↦ absurd (
                            refused (rw (on, inside, together, ranked, no_result, queue_pair) at e))
                        | inr (result, found) ↦ elim (Bool-cases (leb limit q.pushes)) [
                          | inl full ↦ absurd (
                              refused
                                (rw (on, inside, together, ranked, found, full, queue_pair) at e))
                          | inr room ↦
                              let entry = entry_for nodes i j rank in
                              let same =
                                ok-injective _ q' (
                                  rw (on, inside, together, ranked, found, room, queue_pair) at
                                    e) in
                              subst (λ (r : MergeQueue). Pushed merges nodes i j q.heap r.heap) same
                                (record {
                                  old = λ f m. push_heap_old entry f q.heap m;
                                  sorted = push_heap-Sorted entry q.heap;
                                  ranked = push_heap-All (IsRanked merges) entry q.heap ranked;
                                  queued = λ k pair r. record {
                                    entry = entry;
                                    held = push_heap_self entry q.heap;
                                    left = refl;
                                    right = refl;
                                    now = entry_for-current nodes i j rank pair;
                                  };
                                })
                        ]
                      ]
              ]
        ]
      ]
    ]
  where
    refused : {x : Exception} → throws x ≡ ok q' → ⊥
    refused e = cc

    off_index :
        (i j n : ℕ) → n ≤ max_word → (i == no_index || j == no_index) ≡ true → i < n → j < n → ⊥
    off_index i j n small off hi hj = ground arith

    true_false : true ≡ false → ⊥
    true_false e = cc

    none_some : {k : ℕ} → none ≡ some k → ⊥
    none_some e = cc
