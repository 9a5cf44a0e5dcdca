-- ===== src/Tokenizer/Encode/Merged.antt =====
-- What a span of plain text becomes: the ids of its initial symbols, merged greedily.
use iom.Base.{
  ◌==◌, if◌then◌else◌, length, max_word, Exception, Result, ok, throws, >>=-eq-ok, ok-injective, ℕ,
  zero, suc, ◌≤◌, ◌≡◌, refl, sym, ap, subst, ◌∙◌, ◌≢◌, Bool, false, Option, none, some, List, [],
  ◌∷◌, ◌++◌, map, arith, dec_lt,
}
use mathlib.Core.List.{append-nil}
use iom.Tokenizer.Bpe.{BpeNode, Merges, apply_encode_bpe, node_at, no_index}
use iom.Tokenizer.Bpe.Chain.{Links, first_of, ids}
use iom.Tokenizer.Bpe.Greedy.{Greedy, ends, Greedy-unique}
use iom.Tokenizer.Bpe.Listed.{count_from}
use iom.Tokenizer.Bpe.Applied.{apply_encode_bpe-Finished}
use iom.Tokenizer.Encode.{
  Tables, append_encode_initial_symbols, normalize_encode_span, collect_ids, ended,
  append_encode_plain_span,
}
use iom.Tokenizer.Encode.Symbols.{append_encode_initial_symbols-Fresh, collect_ids-Links}

-- The ids of a span are those of the symbols of its normalized text after the greedy merges.
pub record MergedSpan (t : Tables) (plain merged : List ℕ) : Type 0 where
  pub normalized : List ℕ
  pub symbols : List BpeNode
  pub normalizes : normalize_encode_span t.limits.text plain t.normalizer ≡ ok normalized
  pub begins : append_encode_initial_symbols t normalized ≡ ok symbols
  pub greedy : Greedy t.merges (map (λ n. n.id) symbols) merged

-- The ids along all places in order are those of the nodes.
shifted :
    (n : BpeNode) (nodes : List BpeNode) (i count : ℕ)
    → ids (n ∷ nodes) (count_from (suc i) count) ≡ ids nodes (count_from i count)
shifted n nodes i zero = refl
shifted n nodes i (suc count) =
    ap (λ (xs : List ℕ). (node_at nodes i).id ∷ xs) (shifted n nodes (suc i) count)

ids-count_from :
    (nodes : List BpeNode) → ids nodes (count_from 0 (length nodes)) ≡ map (λ n. n.id) nodes
ids-count_from [] = refl
ids-count_from (n ∷ nodes) =
    ap (λ (xs : List ℕ). n.id ∷ xs) (shifted n nodes 0 (length nodes) ∙ ids-count_from nodes)

-- Of no symbols, none are left.
no_symbols :
    (t : Tables) (out : List ℕ) (symbols nodes : List BpeNode) {r : List ℕ}
    → length symbols ≡ 0
    → ended (apply_encode_bpe t.limits.heap t.merges symbols) ≡ ok nodes
    → collect_ids t.limits.ids (length nodes) nodes (if length nodes == 0 then no_index else 0) out
      ≡ ok r
    → r ≡ out
unfolding apply_encode_bpe collect_ids
no_symbols t out (s ∷ symbols) nodes empty e collected = absurd (omega (arith, empty))
no_symbols t out [] nodes {r} empty e collected = sym (
    ok-injective out r (
      subst
        (λ (m : List BpeNode).
          collect_ids t.limits.ids (length m) m (if length m == 0 then no_index else 0) out ≡ ok r)
        (sym (ok-injective [] nodes e)) collected))

not_empty_split : (before after : List ℕ) (a b : ℕ) → [] ≡ before ++ (a ∷ b ∷ after) → ⊥
not_empty_split [] after a b e = cc
not_empty_split (x ∷ before) after a b e = cc

empty-Greedy :
    (merges : Merges) (symbols : List BpeNode)
    → length symbols ≡ 0
    → Greedy merges (map (λ n. n.id) symbols) []
empty-Greedy merges [] empty =
    ends (λ before after a b k e rank. not_empty_split before after a b e)
empty-Greedy merges (s ∷ symbols) empty = absurd (omega (arith, empty))

-- A list that begins at node 0 has a node.
some_node :
    (nodes : List BpeNode) (chain : List ℕ)
    → Links nodes no_index chain
    → first_of chain ≡ 0
    → length nodes ≢ 0
some_node nodes [] links first e = omega (arith, first)
some_node nodes (m ∷ chain) links first e = omega (arith, links.0.inside, e)

-- A span has one such list of ids.
MergedSpan-unique :
    (t : Tables) (plain xs ys : List ℕ) → MergedSpan t plain xs → MergedSpan t plain ys → xs ≡ ys
MergedSpan-unique t plain xs ys a b =
    let normalized = ok-injective a.normalized b.normalized (sym a.normalizes ∙ b.normalizes) in
    let symbols = ok-injective a.symbols b.symbols (
      sym a.begins
      ∙ ap (λ (n : List ℕ). append_encode_initial_symbols t n) normalized
      ∙ b.begins) in
    Greedy-unique t.merges
      (subst (λ (l : List BpeNode). Greedy t.merges (map (λ n. n.id) l) xs) symbols a.greedy)
      b.greedy

spans_from :
    (t : Tables) (plain out normalized : List ℕ) (symbols nodes : List BpeNode) {r : List ℕ}
    → t.limits.nodes ≤ max_word
    → normalize_encode_span t.limits.text plain t.normalizer ≡ ok normalized
    → append_encode_initial_symbols t normalized ≡ ok symbols
    → ended (apply_encode_bpe t.limits.heap t.merges symbols) ≡ ok nodes
    → collect_ids t.limits.ids (length nodes) nodes (if length nodes == 0 then no_index else 0) out
      ≡ ok r
    → (merged : List ℕ) × (r ≡ out ++ merged) × MergedSpan t plain merged
spans_from t plain out normalized symbols nodes {r} word normalizes begins merges collected =
    elim (dec_lt 0 (length symbols)) [
      | yes some_symbol ↦
          let fresh = append_encode_initial_symbols-Fresh t normalized word begins in
          let f =
            apply_encode_bpe-Finished t.limits.heap t.merges t.limits.nodes symbols fresh
              some_symbol (ended-ok merges) in
          (
            ids nodes f.chain',
            collect_ids-Links t.limits.ids (length nodes) nodes no_index f.chain' out f.list.small
                f.list.links
                (subst (λ (n : ℕ). collect_ids t.limits.ids (length nodes) nodes n out ≡ ok r)
                  (sym f.list.first)
                  (subst
                    (λ (b : Bool).
                      collect_ids t.limits.ids (length nodes) nodes (if b then no_index else 0) out
                      ≡ ok r)
                    (not_zero (length nodes) (some_node nodes f.chain' f.list.links f.list.first))
                    collected)),
            record {
              normalized = normalized;
              symbols = symbols;
              normalizes = normalizes;
              begins = begins;
              greedy =
                  subst (λ (xs : List ℕ). Greedy t.merges xs (ids nodes f.chain'))
                    (ids-count_from symbols) f.greedy;
            },
          )
      | no no_symbol ↦ (
        [],
        no_symbols t out symbols nodes (omega (arith, no_symbol)) merges collected
            ∙ sym (append-nil out),
        record {
          normalized = normalized;
          symbols = symbols;
          normalizes = normalizes;
          begins = begins;
          greedy = empty-Greedy t.merges symbols (omega (arith, no_symbol));
        },
      )
    ]
  where
    not_zero : (n : ℕ) → n ≢ 0 → (n == 0) ≡ false
    not_zero n h = ground arith

    ended-ok :
        {nodes : List BpeNode} {r : Option (Result (List BpeNode))}
        → ended r ≡ ok nodes
        → r ≡ some (ok nodes)
    ended-ok {r = none} e = absurd (refused e)
      where
        refused : {x : Exception} {m : List BpeNode} → throws x ≡ ok m → ⊥
        refused e = cc
    ended-ok {r = some s} e = ap some e

-- Where the vector of symbols has at most `max_word` nodes and `append_encode_plain_span`
-- accepts a span that is not empty, it appends the ids of the initial symbols of the normalized
-- span after merging them greedily: as long as an adjacent pair has a rank, the pair of the
-- least rank, and of these the first, gives way to its result. No other list of ids arises so.
pub append_encode_plain_span-MergedSpan :
    (t : Tables) (plain out : List ℕ) {r : List ℕ}
    → t.limits.nodes ≤ max_word
    → length plain ≢ 0
    → append_encode_plain_span t plain out ≡ ok r
    → (merged : List ℕ) × (r ≡ out ++ merged)
      × MergedSpan t plain merged
      × ((other : List ℕ) → MergedSpan t plain other → other ≡ merged)
unfolding append_encode_plain_span
append_encode_plain_span-MergedSpan t plain out {r} word some_text e =
    let (normalized, normalizes, e1) =
      >>=-eq-ok (normalize_encode_span t.limits.text plain t.normalizer) _
        (rw (not_zero (length plain) some_text, append_encode_plain_span) at e) in
    let (symbols, begins, e2) = >>=-eq-ok (append_encode_initial_symbols t normalized) _ e1 in
    let (nodes, merges, collected) =
      >>=-eq-ok (ended (apply_encode_bpe t.limits.heap t.merges symbols)) _ e2 in
    let (merged, result, span) =
      spans_from t plain out normalized symbols nodes word normalizes begins merges collected in
    (merged, result, span, λ other o. MergedSpan-unique t plain other merged o span)
  where
    not_zero : (n : ℕ) → n ≢ 0 → (n == 0) ≡ false
    not_zero n h = ground arith
