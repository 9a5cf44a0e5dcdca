-- ===== src/Tokenizer/Bpe/Start.antt =====
-- The nodes and the heap as the loop of the merges finds them.
use iom.Base.{
  length, Among, All, max_word, ok, >>=-eq-ok, ok-injective, ℕ, zero, suc, ◌+◌, ◌≤◌, ◌<◌, ◌≡◌, sym,
  ap, subst, ◌∙◌, ◌≢◌, some, List, arith, dec_lt, ℕ_discrete,
}
use iom.Tokenizer.Bpe.{BpeNode, BpeHeapEntry, node_at, Merges, MergeQueue, queue_pair, queue_all}
use iom.Tokenizer.Bpe.Heap.{Sorted, Pair, Queued, IsRanked, queue_pair-Pushed}
use iom.Tokenizer.Bpe.Chain.{linked-fields}

pub Queued-old :
    {nodes : List BpeNode} {heap heap' : List BpeHeapEntry} {i j : ℕ}
    → ((f : BpeHeapEntry) → Among f heap → Among f heap')
    → Queued nodes heap i j
    → Queued nodes heap' i j
Queued-old old q = record {
  entry = q.entry;
  held = old q.entry q.held;
  left = q.left;
  right = q.right;
  now = q.now;
}

-- What the first loop does to the heap.
pub record Filled (merges : Merges) (nodes : List BpeNode) (first last : ℕ)
    (heap heap' : List BpeHeapEntry) : Type 0 where
  pub old : (f : BpeHeapEntry) → Among f heap → Among f heap'
  pub sorted : Sorted heap → Sorted heap'
  pub ranked : All (IsRanked merges) heap → All (IsRanked merges) heap'
  pub queued :
      (i j k : ℕ)
      → first ≤ i
      → i < last
      → Pair nodes i j
      → merges.rank_of (node_at nodes i).id (node_at nodes j).id ≡ some k
      → Queued nodes heap' i j

pub queue_all-Filled :
    (merges : Merges) (limit : ℕ) (nodes : List BpeNode) (rounds index : ℕ) (q : MergeQueue)
    {q' : MergeQueue}
    → length nodes ≤ max_word
    → queue_all merges limit nodes rounds index q ≡ ok q'
    → Filled merges nodes index (index + rounds) q.heap q'.heap
unfolding queue_all
queue_all-Filled merges limit nodes zero index q {q'} small e =
    subst (λ (r : MergeQueue). Filled merges nodes index (index + 0) q.heap r.heap)
      (ok-injective q q' e)
      (record {
        old = λ f m. m;
        sorted = λ s. s;
        ranked = λ r. r;
        queued = λ i j k lo hi. absurd (omega (arith, lo, hi));
      })
queue_all-Filled merges limit nodes (suc rounds) index q {q'} small e =
    let next = (node_at nodes index).next in
    let (q1, first, rest) = >>=-eq-ok (queue_pair merges limit nodes index next q) _ e in
    let one = queue_pair-Pushed merges limit nodes index next q small first in
    let more = queue_all-Filled merges limit nodes rounds (suc index) q1 small rest in
    record {
      old = λ f m. more.old f (one.old f m);
      sorted = λ s. more.sorted (one.sorted s);
      ranked = λ r. more.ranked (one.ranked r);
      queued = λ i j k lo hi pair ranked. elim (ℕ_discrete i index) [
        | no apart ↦
            more.queued i j k (above i index lo apart) (below i index rounds hi) pair ranked
        | yes same ↦
            let (hi, hj, together) = pair in
            let j_eq : j ≡ next =
              sym (linked-fields (node_at nodes i) (node_at nodes j) i j together).2
              ∙ ap (λ (m : ℕ). (node_at nodes m).next) same in
            Queued-old more.old (
              subst (λ (m : ℕ). Queued nodes q1.heap i m) (sym j_eq)
                (subst (λ (m : ℕ). Queued nodes q1.heap m next) (sym same)
                  (one.queued k
                    (subst (λ (m : ℕ). Pair nodes index m) j_eq
                      (subst (λ (m : ℕ). Pair nodes m j) same pair))
                    (subst
                      (λ (m : ℕ).
                        merges.rank_of (node_at nodes index).id (node_at nodes m).id ≡ some k)
                      j_eq
                      (subst
                        (λ (m : ℕ).
                          merges.rank_of (node_at nodes m).id (node_at nodes j).id ≡ some k)
                        same ranked)))))
      ];
    }
  where
    equal : (i index : ℕ) → index ≤ i → ¬ (index < i) → i ≡ index
    equal i index lo ge = omega (arith, lo, ge)

    above : (i index : ℕ) → index ≤ i → i ≢ index → suc index ≤ i
    above i index lo apart = elim (dec_lt index i) [
      | yes lt ↦ omega (arith, lt)
      | no ge ↦ absurd (apart (equal i index lo ge))
    ]

    below : (i index rounds : ℕ) → i < index + suc rounds → i < suc index + rounds
    below i index rounds hi = omega (arith, hi)
