-- ===== src/Tokenizer/Bpe/Applied.antt =====
-- Both loops of the merges, from the nodes of the initial symbols on.
use iom.Base.{
  Result-cases, ltb, ◌==◌, ◌!=◌, ltb→le, Bool-cases, length, max_word, Exception, ok, throws, ℕ,
  suc, ◌/◌, ◌≤◌, ◌<◌, ◌≡◌, ◌≢◌, inl, inr, Bool, true, false, ◌&&◌, some, List, [], arith,
}
use iom.Tokenizer.Bpe.{BpeNode, Merges, MergeQueue, queue_all, encode_checked_mul, apply_encode_bpe}
use iom.Tokenizer.Bpe.Start.{queue_all-Filled}
use iom.Tokenizer.Bpe.Built.{Fresh}
use iom.Tokenizer.Bpe.Listed.{Fresh-IsLinked, count_from}
use iom.Tokenizer.Bpe.Invariant.{Invariant}
use iom.Tokenizer.Bpe.Loop.{Finished, merge_all-Finished}
use native.Mathlib.Nat.{le-div_iff_mul-le}

-- With all nodes tried, the first loop leaves what the second keeps.
filled-Invariant :
    (merges : Merges) (limit most : ℕ) (nodes : List BpeNode) {q : MergeQueue}
    → Fresh most nodes
    → 0 < length nodes
    → length nodes < max_word
    → queue_all merges limit nodes (length nodes) 0 (record { heap = []; pushes = 0 }) ≡ ok q
    → Invariant merges nodes (count_from 0 (length nodes)) q.heap
filled-Invariant merges limit most nodes fresh some_node small e =
    let f =
      queue_all-Filled merges limit nodes (length nodes) 0 (record { heap = []; pushes = 0 })
        (omega (arith, small)) e in
    record {
      list = Fresh-IsLinked fresh some_node small;
      sorted = f.sorted tt;
      ranked = f.ranked tt;
      cover = λ i j k pair. f.queued i j k (omega arith) (omega (arith, pair.0)) pair;
    }

-- A product that is in range has factors that are.
encode_checked_mul-small :
    (n : ℕ) {limit : ℕ} → n ≢ 0 → encode_checked_mul n 3 ≡ ok limit → n < max_word
unfolding encode_checked_mul
encode_checked_mul-small n {limit} some_node e =
    elim (Bool-cases (n != 0 && ltb (max_word / n) 3)) [
      | inl large ↦ absurd (refused (rw (large, encode_checked_mul) at e))
      | inr fits ↦
          let three =
            (le-div_iff_mul-le {k = n} {x = 3} {y = max_word} (omega (arith, some_node))).0
              (quotient fits) in
          omega (arith, three, some_node)
    ]
  where
    refused : {x : Exception} → throws x ≡ ok limit → ⊥
    refused e = cc

    quotient : (n != 0 && ltb (max_word / n) 3) ≡ false → 3 ≤ max_word / n
    quotient fits = ltb→le _ _ (second (n != 0) _ (nonzero n some_node) fits)
      where
        second : (a b : Bool) → a ≡ true → (a && b) ≡ false → b ≡ false
        second a b x y = ground arith

        nonzero : (m : ℕ) → m ≢ 0 → (m != 0) ≡ true
        nonzero m h = ground arith

pub apply_encode_bpe-Finished :
    (heap_max : ℕ) (merges : Merges) (most : ℕ) (nodes : List BpeNode) {nodes' : List BpeNode}
    → Fresh most nodes
    → 0 < length nodes
    → apply_encode_bpe heap_max merges nodes ≡ some (ok nodes')
    → Finished merges nodes (count_from 0 (length nodes)) nodes'
unfolding apply_encode_bpe
apply_encode_bpe-Finished heap_max merges most nodes {nodes'} fresh some_node e =
    let not_empty = nonzero (length nodes) some_node in
    elim (Result-cases (encode_checked_mul (length nodes) 3)) [
      | inr (x, large) ↦ absurd (refused (rw (not_empty, large, apply_encode_bpe) at e))
      | inl (limit, sized) ↦ elim (Bool-cases (ltb heap_max limit)) [
        | inl full ↦ absurd (refused (rw (not_empty, sized, full, apply_encode_bpe) at e))
        | inr room ↦
            elim (Result-cases
              (queue_all merges limit nodes (length nodes) 0 (record { heap = []; pushes = 0 }))) [
                | inr (x, failed) ↦
                    absurd (refused (rw (not_empty, sized, room, failed, apply_encode_bpe) at e))
                | inl (q, filled) ↦
                    merge_all-Finished (suc limit) merges limit nodes (count_from 0 (length nodes))
                      q
                      (filled-Invariant merges limit most nodes fresh some_node
                        (encode_checked_mul-small (length nodes) (λ z. omega (arith, z, some_node))
                          sized)
                        filled)
                      (rw (not_empty, sized, room, filled, apply_encode_bpe) at e)
              ]
      ]
    ]
  where
    refused : {x : Exception} → some (throws x) ≡ some (ok nodes') → ⊥
    refused e = cc

    nonzero : (n : ℕ) → 0 < n → (n == 0) ≡ false
    nonzero n h = ground arith
