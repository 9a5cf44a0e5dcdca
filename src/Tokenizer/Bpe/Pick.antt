-- ===== src/Tokenizer/Bpe/Pick.antt =====
-- The entry on top of the heap is the merge that the greedy choice makes.
use iom.Base.{
  length, Among, All-Among, ℕ, ◌≤◌, ◌<◌, ◌≡◌, sym, ap, ◌∙◌, ◌⊎◌, inl, inr, true, some, List, [],
  ◌∷◌, ◌++◌, arith,
}
use mathlib.Core.Path.{ap₂}
use iom.Tokenizer.Bpe.{BpeNode, BpeHeapEntry, node_at, no_index, current, Merges}
use iom.Tokenizer.Bpe.Heap.{IsRanked, Queued, NotBelow, NotBelow-rank}
use iom.Tokenizer.Bpe.Chain.{first_of, ids, Split-Pair}
use iom.Tokenizer.Bpe.Merged.{Merged}
use iom.Tokenizer.Bpe.Relinked.{Links-inside}
use iom.Tokenizer.Bpe.Renamed.{ids-append, length-ids, ids-Merged, ids-Places, Up-order}
use iom.Tokenizer.Bpe.Greedy.{Merge, NoMerge}
use iom.Tokenizer.Bpe.Current.{current-Says}
use iom.Tokenizer.Bpe.Invariant.{Invariant}

-- The entry of a pair in the list is not above the top one.
top_order :
    (merges : Merges) (nodes : List BpeNode) (chain : List ℕ) (entry e : BpeHeapEntry)
    (heap : List BpeHeapEntry)
    → Invariant merges nodes chain (entry ∷ heap)
    → Among e (entry ∷ heap)
    → (entry.rank < e.rank) ⊎ ((entry.rank ≡ e.rank) × (entry.left ≤ e.left))
top_order merges nodes chain entry e heap v (inl same) = inr (
  sym (ap (λ (f : BpeHeapEntry). f.rank) same),
  omega (arith, ap (λ (f : BpeHeapEntry). f.left) same),
)
top_order merges nodes chain entry e heap v (inr m) =
    NotBelow-rank entry e (All-Among (NotBelow entry) e heap v.sorted.0 m)

-- An entry that is up to date has the rank of the pair.
Queued-rank :
    (merges : Merges) (nodes : List BpeNode) (chain : List ℕ) (heap : List BpeHeapEntry) (i j k : ℕ)
    → Invariant merges nodes chain heap
    → merges.rank_of (node_at nodes i).id (node_at nodes j).id ≡ some k
    → (q : Queued nodes heap i j) → q.entry.rank ≡ k
Queued-rank merges nodes chain heap i j k v rank q =
    let e = q.entry in
    let says = current-Says nodes e q.now in
    same_some (
      sym (All-Among (IsRanked merges) e heap v.ranked q.held)
      ∙ ap₂ merges.rank_of (sym says.left_id ∙ ap (λ (m : ℕ). (node_at nodes m).id) q.left)
          (sym says.right_id ∙ ap (λ (m : ℕ). (node_at nodes m).id) q.right)
      ∙ rank)
  where
    same_some : {x y : ℕ} → some x ≡ some y → x ≡ y
    same_some e = cc

pub pick-Merge :
    (merges : Merges) (nodes nodes' : List BpeNode) (before after : List ℕ) (entry : BpeHeapEntry)
    (heap : List BpeHeapEntry) (id : ℕ)
    → Invariant merges nodes (before ++ (entry.left ∷ entry.right ∷ after)) (entry ∷ heap)
    → current nodes entry ≡ true
    → merges.result_of (node_at nodes entry.left).id (node_at nodes entry.right).id ≡ some id
    → Merged nodes nodes' entry.left entry.right (first_of after) id
    → Merge merges
        (ids nodes (before ++ (entry.left ∷ entry.right ∷ after)))
        (ids nodes' (before ++ (entry.left ∷ after)))
pick-Merge merges nodes nodes' before after entry heap id v now result h =
    let i = entry.left in
    let j = entry.right in
    let chain = before ++ (i ∷ j ∷ after) in
    let says = current-Says nodes entry now in
    record {
      before = ids nodes before;
      after = ids nodes after;
      left = (node_at nodes i).id;
      right = (node_at nodes j).id;
      rank = entry.rank;
      result = id;
      split = ids-append nodes before (i ∷ j ∷ after);
      ranked = ap₂ merges.rank_of says.left_id says.right_id ∙ v.ranked.0;
      merged = result;
      done =
          ids-Merged before after h v.list.small v.list.up
            (Links-inside nodes no_index chain v.list.links);
      least = λ others rest a b k e rank.
          let p = ids-Places nodes chain others rest a b e in
          let pair = Split-Pair nodes chain p.before p.after p.i p.j v.list.links p.whole in
          let ranked = ap₂ merges.rank_of p.first p.second ∙ rank in
          let q = v.cover p.i p.j k pair ranked in
          let same = Queued-rank merges nodes chain (entry ∷ heap) p.i p.j k v ranked q in
          elim (top_order merges nodes chain entry q.entry heap v q.held) [
            | inl lt ↦ inl (omega (arith, lt, same))
            | inr (eq, le) ↦ inr (
              eq ∙ same,
              place p.before others p.i p.j p.after p.whole p.long (omega (arith, le, q.left)),
            )
          ];
    }
  where
    place :
        (before' others : List ℕ) (i' j' : ℕ) (after' : List ℕ)
        → before ++ (entry.left ∷ entry.right ∷ after) ≡ before' ++ (i' ∷ j' ∷ after')
        → length before' ≡ length others
        → entry.left ≤ i'
        → length (ids nodes before) ≤ length others
    place before' others i' j' after' whole long le = omega (
      arith,
      length-ids nodes before,
      long,
      Up-order before before' (entry.right ∷ after) (j' ∷ after') entry.left i' v.list.up whole le,
    )

-- No pair with a rank is left when the heap is empty.
pub empty-NoMerge :
    (merges : Merges) (nodes : List BpeNode) (chain : List ℕ)
    → Invariant merges nodes chain []
    → NoMerge merges (ids nodes chain)
empty-NoMerge merges nodes chain v before after a b k e rank =
    let p = ids-Places nodes chain before after a b e in
    let pair = Split-Pair nodes chain p.before p.after p.i p.j v.list.links p.whole in
    (v.cover p.i p.j k pair (ap₂ merges.rank_of p.first p.second ∙ rank)).held
