-- ===== src/Tokenizer/Bpe/Rounds.antt =====
-- Merging ends: each entry of the heap is taken off once, and the limit bounds how many are pushed.
use iom.Base.{
  Result-cases, List-cases, ltb, ◌==◌, Bool-cases, Option-cases, length, max_word, add_word,
  overflow_error, Result, ok, throws, >>=-eq-ok, ok-injective, ℕ, zero, suc, ◌+◌, ◌-◌, ◌≤◌, ◌<◌,
  ◌≡◌, refl, ap, subst, ◌⊎◌, inl, inr, some, List, [], ◌∷◌, arith,
}
use iom.Tokenizer.Bpe.{
  node_at, current, BpeNode, BpeHeapEntry, push_heap, Merges, MergeQueue, queue_pair, queue_all,
  merge_nodes, merge_entry, merge_all, encode_checked_mul, apply_encode_bpe,
}

length-push_heap :
    (entry : BpeHeapEntry) (heap : List BpeHeapEntry)
    → length (push_heap entry heap) ≡ suc (length heap)
unfolding push_heap
length-push_heap entry [] = refl
length-push_heap entry (e ∷ heap) = ground (arith, length-push_heap entry heap)

-- Every entry is one of the pushes, and there are no more than the limit.
record Bounded (limit : ℕ) (q : MergeQueue) (budget : ℕ) : Type 0 where
  pushed : q.pushes ≤ limit
  within : length q.heap + (limit - q.pushes) ≤ budget

-- A call of `queue_pair` that succeeds pushes one entry, or none.
queue_pair_cases :
    (merges : Merges) (limit : ℕ) (nodes : List BpeNode) (left right : ℕ) (q : MergeQueue)
    {q' : MergeQueue}
    → queue_pair merges limit nodes left right q ≡ ok q'
    → (q' ≡ q)
      ⊎ ((q.pushes < limit)
          × (length q'.heap ≡ suc (length q.heap))
          × (q'.pushes ≡ add_word q.pushes 1))
unfolding queue_pair
queue_pair_cases merges limit nodes left right q e =
    elim (Option-cases (merges.rank_of (node_at nodes left).id (node_at nodes right).id)) [
      | inl no_rank ↦ inl (ground (arith, no_rank))
      | inr (rank, ranked) ↦
          elim (Option-cases (merges.result_of (node_at nodes left).id (node_at nodes right).id)) [
            | inl no_result ↦ inl (ground (arith, ranked, no_result))
            | inr (result, found) ↦
                let entry : BpeHeapEntry = record {
                  rank = rank;
                  left = left;
                  right = right;
                  left_generation = (node_at nodes left).generation;
                  right_generation = (node_at nodes right).generation;
                  left_id = (node_at nodes left).id;
                  right_id = (node_at nodes right).id;
                } in
                ground (arith, ranked, found, length-push_heap entry q.heap)
          ]
    ]

queue_pair-Bounded :
    (merges : Merges) (limit : ℕ) (nodes : List BpeNode) (left right : ℕ) (q : MergeQueue)
    (budget : ℕ) {q' : MergeQueue}
    → limit ≤ max_word
    → Bounded limit q budget
    → queue_pair merges limit nodes left right q ≡ ok q'
    → Bounded limit q' budget
queue_pair-Bounded merges limit nodes left right q budget w b e =
    elim (queue_pair_cases merges limit nodes left right q e) [
      | inl same ↦ rw same b
      | inr (room, longer, more) ↦ record {
        pushed = omega (arith, b.pushed);
        within = omega (arith, b.within);
      }
    ]

queue_all-Bounded :
    (merges : Merges) (limit : ℕ) (nodes : List BpeNode) (rounds index : ℕ) (q : MergeQueue)
    (budget : ℕ) {q' : MergeQueue}
    → limit ≤ max_word
    → Bounded limit q budget
    → queue_all merges limit nodes rounds index q ≡ ok q'
    → Bounded limit q' budget
unfolding queue_all
queue_all-Bounded merges limit nodes zero index q budget w b e =
    subst (λ (t : MergeQueue). Bounded limit t budget) (ok-injective q _ e) b
queue_all-Bounded merges limit nodes (suc rounds) index q budget w b e =
    let (next, e1, r1) =
      >>=-eq-ok (queue_pair merges limit nodes index (node_at nodes index).next q) _ e in
    queue_all-Bounded merges limit nodes rounds (suc index) next budget w
      (queue_pair-Bounded merges limit nodes index (node_at nodes index).next q budget w b e1) r1

merge_entry-Bounded :
    (merges : Merges) (limit : ℕ) (nodes : List BpeNode) (entry : BpeHeapEntry) (q : MergeQueue)
    (budget : ℕ) {r : List BpeNode × MergeQueue}
    → limit ≤ max_word
    → Bounded limit q budget
    → merge_entry merges limit nodes entry q ≡ ok r
    → Bounded limit r.1 budget
unfolding merge_entry
merge_entry-Bounded merges limit nodes entry q budget {r} w b e =
    elim (Bool-cases (current nodes entry)) [
      | inr stale ↦
          let same = ok-injective (nodes, q) r (rw (stale, merge_entry) at e) in
          subst (λ (t : List BpeNode × MergeQueue). Bounded limit t.1 budget) same b
      | inl valid ↦
          let l = node_at nodes entry.left in
          let r' = node_at nodes entry.right in
          elim (Option-cases (merges.result_of l.id r'.id)) [
            | inl no_result ↦ cc (rw (valid, no_result, merge_entry) at e)
            | inr (id, found) ↦
                let (nodes', e1, r1) =
                  >>=-eq-ok (merge_nodes nodes entry id) _ (rw (valid, found, merge_entry) at e) in
                let (q', e2, r2) =
                  >>=-eq-ok (queue_pair merges limit nodes' l.previous entry.left q) _ r1 in
                let (q'', e3, r3) =
                  >>=-eq-ok (queue_pair merges limit nodes' entry.left r'.next q') _ r2 in
                let b' =
                  queue_pair-Bounded merges limit nodes' l.previous entry.left q budget w b e2 in
                let b'' =
                  queue_pair-Bounded merges limit nodes' entry.left r'.next q' budget w b' e3 in
                subst (λ (t : List BpeNode × MergeQueue). Bounded limit t.1 budget)
                  (ok-injective (nodes', q'') r r3) b''
          ]
    ]

-- One round, with its heap at hand.
merge_all_ends :
    (rounds : ℕ) (merges : Merges) (limit : ℕ) (nodes : List BpeNode) (q : MergeQueue)
    → limit ≤ max_word
    → Bounded limit q rounds
    → (r : Result (List BpeNode)) × (merge_all (suc rounds) merges limit nodes q ≡ some r)
unfolding merge_all
merge_all_ends zero merges limit nodes q w b = elim (List-cases q.heap) [
  | inl empty ↦ (ok nodes, rw (empty, merge_all) refl)
  | inr (entry, heap, e) ↦ absurd (omega (arith, ap length e, b.within))
]
merge_all_ends (suc rounds) merges limit nodes q w b = elim (List-cases q.heap) [
  | inl empty ↦ (ok nodes, rw (empty, merge_all) refl)
  | inr (entry, heap, e) ↦
      let left : MergeQueue = record q { heap = heap } in
      elim (Result-cases (merge_entry merges limit nodes entry left)) [
        | inr (x, e') ↦ (throws x, rw (e, e', merge_all) refl)
        | inl ((nodes', q'), e') ↦
            let taken : Bounded limit left rounds = record {
              pushed = b.pushed;
              within = omega (arith, ap length e, b.within);
            } in
            let (r, done) =
              merge_all_ends rounds merges limit nodes' q' w
                (merge_entry-Bounded merges limit nodes entry left rounds w taken e') in
            (r, rw (e, e', merge_all) done)
      ]
]

limit_word : (n : ℕ) {limit : ℕ} → encode_checked_mul n 3 ≡ ok limit → limit ≤ max_word
unfolding encode_checked_mul
limit_word n e = ground arith

-- On any nodes and merges, `apply_encode_bpe` empties its heap or throws within one round more
-- than the limit on heap pushes.
pub apply_encode_bpe_ends :
    (heap_max : ℕ) (merges : Merges) (nodes : List BpeNode)
    → (r : Result (List BpeNode)) × (apply_encode_bpe heap_max merges nodes ≡ some r)
unfolding apply_encode_bpe
apply_encode_bpe_ends heap_max merges nodes = elim (Bool-cases (length nodes == 0)) [
  | inl empty ↦ (ok nodes, rw empty refl)
  | inr some_nodes ↦ elim (Result-cases (encode_checked_mul (length nodes) 3)) [
    | inr (x, e) ↦ (throws x, rw (some_nodes, e) refl)
    | inl (limit, e) ↦ elim (Bool-cases (ltb heap_max limit)) [
      | inl large ↦ (throws overflow_error, rw (some_nodes, e, large) refl)
      | inr fits ↦
          let start : MergeQueue = record { heap = []; pushes = 0 } in
          elim (Result-cases (queue_all merges limit nodes (length nodes) 0 start)) [
            | inr (x, e') ↦ (throws x, rw (some_nodes, e, fits, e') refl)
            | inl (q, e') ↦
                let w : limit ≤ max_word = limit_word (length nodes) e in
                let b =
                  queue_all-Bounded merges limit nodes (length nodes) 0 start limit w
                    (record { pushed = omega arith; within = omega arith }) e' in
                let (r, done) = merge_all_ends limit merges limit nodes q w b in
                (r, rw (some_nodes, e, fits, e') done)
          ]
    ]
  ]
]
