-- ===== src/Tokenizer/Bpe/Loop.antt =====
-- The second loop of the merges, from a linked list of nodes whose ranked pairs are all queued.
use iom.Base.{
  Result-cases, List-cases, Bool-cases, Option-cases, length, max_word, Exception, ok, throws,
  >>=-eq-ok, ok-injective, ℕ, zero, suc, ◌≤◌, ◌<◌, ◌≡◌, refl, sym, subst, ◌∙◌, ◌≢◌, inl, inr, true,
  none, some, List, [], ◌∷◌, ◌++◌, arith,
}
use iom.Tokenizer.Bpe.{
  BpeNode, BpeHeapEntry, node_at, no_index, current, Merges, MergeQueue, queue_pair, merge_nodes,
  merge_entry, merge_all,
}
use iom.Tokenizer.Bpe.Heap.{Pushed, queue_pair-Pushed}
use iom.Tokenizer.Bpe.Chain.{first_of, IsLinked, ids, Up, Links-drop, Pair-Split}
use iom.Tokenizer.Bpe.Merged.{Merged, merge_nodes-Merged}
use iom.Tokenizer.Bpe.Greedy.{Greedy, merge, ends}
use iom.Tokenizer.Bpe.Current.{current-Says}
use iom.Tokenizer.Bpe.Invariant.{Invariant, stale-Invariant, merged-Invariant}
use iom.Tokenizer.Bpe.Pick.{pick-Merge, empty-NoMerge}

-- What a round does: the list may be merged once, and what can be merged from there, can from here.
pub record Progress (merges : Merges) (nodes : List BpeNode) (chain : List ℕ)
    (nodes' : List BpeNode) (heap : List BpeHeapEntry) : Type 0 where
  pub chain' : List ℕ
  pub kept : Invariant merges nodes' chain' heap
  pub so_far :
      (zs : List ℕ) → Greedy merges (ids nodes' chain') zs → Greedy merges (ids nodes chain) zs

Up-drop : (before rest : List ℕ) → Up (before ++ rest) → Up rest
Up-drop [] rest up = up
Up-drop (m ∷ before) rest up = Up-drop before rest up.1

-- The successor of a pair is neither of the two, and they are two.
three_places :
    (size i j : ℕ) (after : List ℕ)
    → Up (i ∷ j ∷ after)
    → i < size
    → j < size
    → size < max_word
    → (i ≢ j) × (first_of after ≢ i) × (first_of after ≢ j)
three_places size i j [] up hi hj small = (
  λ e. omega (arith, e, up.0.0),
  λ e. omega (arith, e, hi, small),
  λ e. omega (arith, e, hj, small),
)
three_places size i j (k ∷ after) up hi hj small = (
  λ e. omega (arith, e, up.0.0),
  λ e. omega (arith, e, up.0.1.0),
  λ e. omega (arith, e, up.1.0.0),
)

-- A round for an entry that is up to date.
merge_round :
    (merges : Merges) (limit : ℕ) (nodes nodes' : List BpeNode) (before after : List ℕ)
    (entry : BpeHeapEntry) (q q1 q2 : MergeQueue) (id : ℕ)
    → Invariant merges nodes (before ++ (entry.left ∷ entry.right ∷ after)) (entry ∷ q.heap)
    → current nodes entry ≡ true
    → merges.result_of (node_at nodes entry.left).id (node_at nodes entry.right).id ≡ some id
    → merge_nodes nodes entry id ≡ ok nodes'
    → queue_pair merges limit nodes' (node_at nodes entry.left).previous entry.left q ≡ ok q1
    → queue_pair merges limit nodes' entry.left (node_at nodes entry.right).next q1 ≡ ok q2
    → Progress merges nodes (before ++ (entry.left ∷ entry.right ∷ after)) nodes' q2.heap
merge_round merges limit nodes nodes' before after entry q q1 q2 id v now result made one two =
    let i = entry.left in
    let j = entry.right in
    let (hi, hj, together) = (current-Says nodes entry now).pair in
    let (p, links) = Links-drop nodes no_index before (i ∷ j ∷ after) v.list.links in
    let next : (node_at nodes j).next ≡ first_of after = links.1.0.next in
    let up = Up-drop before (i ∷ j ∷ after) v.list.up in
    let (apart, ni, nj) = three_places (length nodes) i j after up hi hj v.list.small in
    let h : Merged nodes nodes' i j (first_of after) id =
      subst (λ (m : ℕ). Merged nodes nodes' i j m id) next
        (merge_nodes-Merged nodes entry id hi hj apart (λ e. ni (sym next ∙ e))
          (λ e. nj (sym next ∙ e)) made) in
    let word : length nodes' ≤ max_word = omega (arith, h.size, v.list.small) in
    let first = queue_pair-Pushed merges limit nodes' (node_at nodes i).previous i q word one in
    let second =
      subst (λ (m : ℕ). Pushed merges nodes' i m q1.heap q2.heap) next
        (queue_pair-Pushed merges limit nodes' i (node_at nodes j).next q1 word two) in
    record {
      chain' = before ++ (i ∷ after);
      kept =
          merged-Invariant merges nodes nodes' before after entry q.heap q1.heap q2.heap id v h
            first second;
      so_far = λ zs rest.
          merge (pick-Merge merges nodes nodes' before after entry q.heap id v now result h) rest;
    }

merge_entry-Progress :
    (merges : Merges) (limit : ℕ) (nodes : List BpeNode) (chain : List ℕ) (entry : BpeHeapEntry)
    (q : MergeQueue) {nodes' : List BpeNode} {q' : MergeQueue}
    → Invariant merges nodes chain (entry ∷ q.heap)
    → merge_entry merges limit nodes entry q ≡ ok (nodes', q')
    → Progress merges nodes chain nodes' q'.heap
unfolding merge_entry
merge_entry-Progress merges limit nodes chain entry q {nodes'} {q'} v e =
    elim (Bool-cases (current nodes entry)) [
      | inl now ↦
          elim (Option-cases
            (merges.result_of (node_at nodes entry.left).id (node_at nodes entry.right).id)) [
              | inl no_result ↦ absurd (refused (rw (now, no_result, merge_entry) at e))
              | inr (id, result) ↦
                  let (made, makes, rest) =
                    >>=-eq-ok (merge_nodes nodes entry id) _ (rw (now, result, merge_entry) at e) in
                  let (q1, one, rest1) =
                    >>=-eq-ok
                      (queue_pair merges limit made (node_at nodes entry.left).previous entry.left
                        q)
                      _ rest in
                  let (q2, two, rest2) =
                    >>=-eq-ok
                      (queue_pair merges limit made entry.left (node_at nodes entry.right).next q1)
                      _ rest1 in
                  let s =
                    Pair-Split nodes chain entry.left entry.right v.list
                      (current-Says nodes entry now).pair in
                  subst
                    (λ (r : List BpeNode × MergeQueue). Progress merges nodes chain r.0 r.1.heap)
                    (ok-injective (made, q2) (nodes', q') rest2)
                    (subst (λ (c : List ℕ). Progress merges nodes c made q2.heap) (sym s.whole)
                      (merge_round merges limit nodes made s.before s.after entry q q1 q2 id
                        (subst (λ (c : List ℕ). Invariant merges nodes c (entry ∷ q.heap)) s.whole
                          v)
                        now result makes one two))
            ]
      | inr stale ↦
          subst (λ (r : List BpeNode × MergeQueue). Progress merges nodes chain r.0 r.1.heap)
            (ok-injective (nodes, q) (nodes', q') (rw (stale, merge_entry) at e))
            (record {
              chain' = chain;
              kept = stale-Invariant merges nodes chain entry q.heap stale v;
              so_far = λ zs rest. rest;
            })
    ]
  where
    result : List BpeNode × MergeQueue
    result = (nodes', q')

    refused : {x : Exception} → throws x ≡ ok result → ⊥
    refused e = cc

-- What the loop ends with.
pub record Finished (merges : Merges) (nodes : List BpeNode) (chain : List ℕ)
    (nodes' : List BpeNode) : Type 0 where
  pub chain' : List ℕ
  pub list : IsLinked nodes' chain'
  pub greedy : Greedy merges (ids nodes chain) (ids nodes' chain')

merge_all_empty :
    (rounds : ℕ) (merges : Merges) (limit : ℕ) (nodes : List BpeNode) (q : MergeQueue)
    → q.heap ≡ []
    → merge_all (suc rounds) merges limit nodes q ≡ some (ok nodes)
unfolding merge_all
merge_all_empty rounds merges limit nodes q empty = rw (empty, merge_all) refl

-- A round that does not end the loop.
merge_all_round :
    (rounds : ℕ) (merges : Merges) (limit : ℕ) (nodes : List BpeNode) (q : MergeQueue)
    (entry : BpeHeapEntry) (heap : List BpeHeapEntry) {nodes' : List BpeNode}
    → q.heap ≡ entry ∷ heap
    → merge_all (suc rounds) merges limit nodes q ≡ some (ok nodes')
    → (m : List BpeNode) × (q' : MergeQueue) × (merge_entry merges limit nodes entry
          (record q { heap = heap })
        ≡ ok (m, q'))
      × (merge_all rounds merges limit m q' ≡ some (ok nodes'))
unfolding merge_all
merge_all_round rounds merges limit nodes q entry heap {nodes'} top e =
    elim (Result-cases (merge_entry merges limit nodes entry (record q { heap = heap }))) [
      | inr (x, failed) ↦ absurd (refused (rw (top, failed, merge_all) at e))
      | inl ((m, q'), done) ↦ (m, q', done, rw (top, done, merge_all) at e)
    ]
  where
    refused : {x : Exception} → some (throws x) ≡ some (ok nodes') → ⊥
    refused e = cc

pub merge_all-Finished :
    (rounds : ℕ) (merges : Merges) (limit : ℕ) (nodes : List BpeNode) (chain : List ℕ)
    (q : MergeQueue) {nodes' : List BpeNode}
    → Invariant merges nodes chain q.heap
    → merge_all rounds merges limit nodes q ≡ some (ok nodes')
    → Finished merges nodes chain nodes'
unfolding merge_all
merge_all-Finished zero merges limit nodes chain q {nodes'} v e = absurd (nothing e)
  where
    nothing : none ≡ some (ok nodes') → ⊥
    nothing e = cc
merge_all-Finished (suc rounds) merges limit nodes chain q {nodes'} v e = elim (List-cases q.heap) [
  | inl empty ↦
      subst (Finished merges nodes chain)
        (same_ok (sym (merge_all_empty rounds merges limit nodes q empty) ∙ e))
        (record {
          chain' = chain;
          list = v.list;
          greedy =
              ends
                (empty-NoMerge merges nodes chain (subst (Invariant merges nodes chain) empty v));
        })
  | inr (entry, heap, top) ↦
      let (m, q', done, more) = merge_all_round rounds merges limit nodes q entry heap top e in
      let p =
        merge_entry-Progress merges limit nodes chain entry (record q { heap = heap })
          (subst (Invariant merges nodes chain) top v) done in
      let f = merge_all-Finished rounds merges limit m p.chain' q' p.kept more in
      record { chain' = f.chain'; list = f.list; greedy = p.so_far (ids nodes' f.chain') f.greedy }
]
  where
    same_ok : {m n : List BpeNode} → some (ok m) ≡ some (ok n) → m ≡ n
    same_ok e = cc
