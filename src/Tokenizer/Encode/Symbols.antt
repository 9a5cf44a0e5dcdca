-- ===== src/Tokenizer/Encode/Symbols.antt =====
-- The initial symbols are fresh nodes, and the walk over the nodes collects the ids of the list.
use iom.Base.{
  ltb, leb, ◌==◌, ◌!=◌, Bool-cases, Option-cases, length, get_elem?, take, max_word, Exception,
  overflow_error, logic_error, ok, throws, require, >>=-eq-ok, ok-injective, ℕ, zero, suc, ◌-◌, ◌≤◌,
  ◌<◌, ◌≡◌, sym, ap, subst, ◌∙◌, inl, inr, false, not, ◌&&◌, ◌||◌, List, [], ◌∷◌, ◌++◌, arith,
}
use mathlib.Core.List.{append_assoc, append-nil}
use iom.Tokenizer.Utf8.{encode_utf8_scalar_length}
use iom.Tokenizer.Bpe.{BpeNode, append_bpe_node, node_at, no_index}
use iom.Tokenizer.Bpe.Chain.{Links, first_of, ids}
use iom.Tokenizer.Bpe.Built.{Fresh, Fresh-nil, append_bpe_node-Fresh}
use iom.Tokenizer.Encode.{
  Tables, append_bytes, append_symbol, symbols_from, append_encode_initial_symbols, last_id,
  encode_checked_push, collect_ids,
}

append_bytes-Fresh :
    (t : Tables) (scalar : List ℕ) (nodes : List BpeNode) {nodes' : List BpeNode}
    → t.limits.nodes ≤ max_word
    → Fresh t.limits.nodes nodes
    → append_bytes t scalar nodes ≡ ok nodes'
    → Fresh t.limits.nodes nodes'
unfolding append_bytes
append_bytes-Fresh t [] nodes {nodes'} word f e =
    subst (Fresh t.limits.nodes) (ok-injective nodes nodes' e) f
append_bytes-Fresh t (byte ∷ scalar) nodes {nodes'} word f e =
    elim (Option-cases (get_elem? t.byte_pieces byte)) [
      | inl no_piece ↦ absurd (refused (rw (no_piece, append_bytes) at e))
      | inr (piece, found) ↦ elim (Option-cases (t.vocabulary piece)) [
        | inl no_id ↦ absurd (refused (rw (found, no_id, append_bytes) at e))
        | inr (id, known) ↦
            let (m, first, rest) =
              >>=-eq-ok (append_bpe_node t.limits.nodes nodes id) _
                (rw (found, known, append_bytes) at e) in
            append_bytes-Fresh t scalar m word
              (append_bpe_node-Fresh t.limits.nodes nodes id word f first) rest
      ]
    ]
  where
    refused : {x : Exception} → throws x ≡ ok nodes' → ⊥
    refused e = cc

append_symbol-Fresh :
    (t : Tables) (scalar : List ℕ) (nodes : List BpeNode) {nodes' : List BpeNode}
    → t.limits.nodes ≤ max_word
    → Fresh t.limits.nodes nodes
    → append_symbol t scalar nodes ≡ ok nodes'
    → Fresh t.limits.nodes nodes'
unfolding append_symbol
append_symbol-Fresh t scalar nodes {nodes'} word f e = elim (Option-cases (t.vocabulary scalar)) [
  | inr (id, known) ↦
      append_bpe_node-Fresh t.limits.nodes nodes id word f (rw (known, append_symbol) at e)
  | inl unknown ↦ elim (Bool-cases t.byte_fallback) [
    | inl fallback ↦
        append_bytes-Fresh t scalar nodes word f (rw (unknown, fallback, append_symbol) at e)
    | inr no_fallback ↦
        elim (Bool-cases (not t.fuse_unk || length nodes == 0 || last_id nodes != 0)) [
          | inl apart ↦
              append_bpe_node-Fresh t.limits.nodes nodes 0 word f
                (rw (unknown, no_fallback, apart, append_symbol) at e)
          | inr fused ↦
              subst (Fresh t.limits.nodes)
                (ok-injective nodes nodes' (rw (unknown, no_fallback, fused, append_symbol) at e)) f
        ]
  ]
]

symbols_from-Fresh :
    (t : Tables) (skip : ℕ) (text : List ℕ) (nodes : List BpeNode) {nodes' : List BpeNode}
    → t.limits.nodes ≤ max_word
    → Fresh t.limits.nodes nodes
    → symbols_from t skip text nodes ≡ ok nodes'
    → Fresh t.limits.nodes nodes'
unfolding symbols_from
symbols_from-Fresh t zero [] nodes {nodes'} word f e =
    subst (Fresh t.limits.nodes) (ok-injective nodes nodes' e) f
symbols_from-Fresh t (suc skip) [] nodes {nodes'} word f e =
    subst (Fresh t.limits.nodes) (ok-injective nodes nodes' e) f
symbols_from-Fresh t (suc skip) (c ∷ rest) nodes word f e =
    symbols_from-Fresh t skip rest nodes word f e
symbols_from-Fresh t zero (c ∷ rest) nodes word f e =
    let (n, size, more) = >>=-eq-ok (encode_utf8_scalar_length (c ∷ rest) 0) _ e in
    let (m, first, others) = >>=-eq-ok (append_symbol t (take n (c ∷ rest)) nodes) _ more in
    symbols_from-Fresh t (n - 1) rest m word
      (append_symbol-Fresh t (take n (c ∷ rest)) nodes word f first) others

pub append_encode_initial_symbols-Fresh :
    (t : Tables) (normalized : List ℕ) {nodes : List BpeNode}
    → t.limits.nodes ≤ max_word
    → append_encode_initial_symbols t normalized ≡ ok nodes
    → Fresh t.limits.nodes nodes
unfolding append_encode_initial_symbols
append_encode_initial_symbols-Fresh t normalized word e =
    let (u, room, more) =
      >>=-eq-ok (require (leb (length normalized) t.limits.nodes) overflow_error) _ e in
    symbols_from-Fresh t zero normalized [] word (Fresh-nil t.limits.nodes) more

encode_checked_push-eq :
    (limit : ℕ) (result : List ℕ) (id : ℕ) {r : List ℕ}
    → encode_checked_push limit result id ≡ ok r
    → r ≡ result ++ (id ∷ [])
unfolding encode_checked_push
encode_checked_push-eq limit result id {r} e = elim (Bool-cases (leb limit (length result))) [
  | inl full ↦ absurd (refused (rw (full, encode_checked_push) at e))
  | inr room ↦ sym (ok-injective _ r (rw (room, encode_checked_push) at e))
]
  where
    refused : {x : Exception} → throws x ≡ ok r → ⊥
    refused e = cc

pub collect_ids-Links :
    (limit rounds : ℕ) (nodes : List BpeNode) (p : ℕ) (chain result : List ℕ) {r : List ℕ}
    → length nodes < max_word
    → Links nodes p chain
    → collect_ids limit rounds nodes (first_of chain) result ≡ ok r
    → r ≡ result ++ ids nodes chain
unfolding collect_ids
collect_ids-Links limit zero nodes p [] result {r} small links e =
    sym (ok-injective result r e) ∙ sym (append-nil result)
collect_ids-Links limit (suc rounds) nodes p [] result {r} small links e =
    sym (ok-injective result r e) ∙ sym (append-nil result)
collect_ids-Links limit zero nodes p (m ∷ chain) result {r} small links e =
    absurd (refused (rw (inner m (length nodes) links.0.inside small, collect_ids) at e))
  where
    refused : {x : Exception} → throws x ≡ ok r → ⊥
    refused e = cc

    inner : (m n : ℕ) → m < n → n < max_word → (m == no_index) ≡ false
    inner m n h k = ground arith
collect_ids-Links limit (suc rounds) nodes p (m ∷ chain) result {r} small links e =
    let (u, sound, more) =
      >>=-eq-ok (require (ltb m (length nodes) && (node_at nodes m).alive) logic_error) _
        (rw (inner m (length nodes) links.0.inside small, collect_ids) at e) in
    let (result', pushed, rest) =
      >>=-eq-ok (encode_checked_push limit result (node_at nodes m).id) _ more in
    let here = encode_checked_push-eq limit result (node_at nodes m).id pushed in
    let rest' =
      subst (λ (n : ℕ). collect_ids limit rounds nodes n result' ≡ ok r) links.0.next rest in
    collect_ids-Links limit rounds nodes m chain result' small links.1 rest'
    ∙ ap (λ (xs : List ℕ). xs ++ ids nodes chain) here
    ∙ append_assoc result ((node_at nodes m).id ∷ []) (ids nodes chain)
  where
    inner : (m n : ℕ) → m < n → n < max_word → (m == no_index) ≡ false
    inner m n h k = ground arith
