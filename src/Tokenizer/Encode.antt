-- ===== src/Tokenizer/Encode.antt =====
-- src/tokenizer.cpp: `Tokenizer::encode` and `encode_pair`: templates, added tokens, and the plain
-- text between them. The rounds of merging are enough (`Bpe.Rounds`), so that the case in which
-- they run out is not met.
pub mod Normalize
pub mod Grows
pub mod Pair
pub mod Special
pub mod Symbols
pub mod Merged
use iom.Base.{
  ltb, leb, ◌==◌, ◌!=◌, if◌then◌else◌, ltb→lt, lt→ltb, ltb→le, le→ltb, ==→eq, eq→==, Bool-cases,
  Option-cases, length, get_elem?, get_or, set, take, drop, replicate, length-append, length-set,
  length-replicate, get_or-set_self, get_or-set_ne, sum, product, All, word_mod, max_word, add_word,
  sub_word, mul_word, Exception, invalid_argument, overflow_error, out_of_range, bad_alloc,
  runtime_error, logic_error, Result, ok, throws, ◌>>=◌, ◌>>◌, require, >>=-eq-ok, require-eq-ok,
  ok-injective, ℕ, zero, suc, ◌+◌, ◌-◌, ◌*◌, ◌/◌, ◌%◌, ◌^◌, ◌≤◌, ◌<◌, bit_and, ◌≡◌, refl, sym, ap,
  subst, ◌∙◌, ◌≢◌, ◌↔◌, ◌⊎◌, inl, inr, Bool, true, false, not, ◌&&◌, ◌||◌, Option, none, some, List,
  [], ◌∷◌, ◌++◌, map, arith, dec_lt, ℕ_discrete,
}
use iom.Tokenizer.Utf8.{validate_encode_utf8, encode_utf8_scalar_length}
use iom.Tokenizer.Pieces.{starts_with}
use iom.Tokenizer.Bpe.{BpeNode, Merges, append_bpe_node, apply_encode_bpe, node_at, no_index}

pub record NormalizerState : Type 0 where
  pub prepend : List ℕ
  pub replace_pattern : List ℕ
  pub replace_content : List ℕ

pub record AddedTokenState : Type 0 where
  pub id : ℕ
  pub content : List ℕ

-- An item of a template: a special token, or the sequence "A" or "B".
pub record TemplateItemState : Type 0 where
  pub special : Bool
  pub id : List ℕ

-- The greatest sizes of a string and of the vectors of symbols, heap entries and token ids.
pub record Limits : Type 0 where
  pub text : ℕ
  pub nodes : ℕ
  pub heap : ℕ
  pub ids : ℕ

-- The state of a tokenizer that encoding reads. `vocabulary` and `special_tokens` are lookups.
pub record Tables : Type 0 where
  pub vocabulary : List ℕ → Option ℕ
  pub byte_pieces : List (List ℕ)
  pub merges : Merges
  pub normalizer : NormalizerState
  pub fuse_unk : Bool
  pub byte_fallback : Bool
  pub added_tokens : List AddedTokenState
  pub single_template : List TemplateItemState
  pub pair_template : List TemplateItemState
  pub special_tokens : List ℕ → Option (List ℕ)
  pub limits : Limits

unfoldable pub encode_checked_add : ℕ → ℕ → Result ℕ
encode_checked_add left right =
    if ltb (max_word - left) right then throws overflow_error else ok (add_word left right)

unfoldable pub encode_checked_append : ℕ → List ℕ → List ℕ → Result (List ℕ)
encode_checked_append limit target value =
    if ltb (limit - length target) (length value)
    then throws overflow_error
    else ok (target ++ value)

unfoldable pub encode_checked_push : ℕ → List ℕ → ℕ → Result (List ℕ)
encode_checked_push limit result id =
    if leb limit (length result) then throws overflow_error else ok (result ++ (id ∷ []))

-- The loop of `normalize_encode_span`; `skip` bytes of a match are still to be passed.
unfoldable pub normalize_from : ℕ → NormalizerState → ℕ → List ℕ → List ℕ → Result (List ℕ)
normalize_from limit n skip [] normalized = ok normalized
normalize_from limit n (suc skip) (c ∷ plain) normalized =
    normalize_from limit n skip plain normalized
normalize_from limit n zero (c ∷ plain) normalized =
    elim (length n.replace_pattern != 0 && starts_with n.replace_pattern (c ∷ plain)) [
      | true ↦ encode_checked_append limit normalized n.replace_content >>= λ normalized'.
          normalize_from limit n (length n.replace_pattern - 1) plain normalized'
      | false ↦ encode_checked_append limit normalized (c ∷ []) >>= λ normalized'.
          normalize_from limit n zero plain normalized'
    ]

unfoldable pub normalize_encode_span : ℕ → List ℕ → NormalizerState → Result (List ℕ)
normalize_encode_span limit plain n = do
  initial_size ← encode_checked_add (length plain) (length n.prepend)
  require (leb initial_size limit) overflow_error
  normalized ← encode_checked_append limit [] n.prepend
  normalize_from limit n zero plain normalized

-- The bytes of a scalar that is in no vocabulary piece.
unfoldable pub append_bytes : Tables → List ℕ → List BpeNode → Result (List BpeNode)
append_bytes t [] nodes = ok nodes
append_bytes t (byte ∷ scalar) nodes = elim (get_elem? t.byte_pieces byte) [
  | none ↦ throws logic_error
  | some piece ↦ elim (t.vocabulary piece) [
    | none ↦ throws logic_error
    | some id ↦ append_bpe_node t.limits.nodes nodes id >>= λ nodes'. append_bytes t scalar nodes'
  ]
]

-- `nodes.back().id`
abbrev pub last_id : List BpeNode → ℕ
last_id nodes = (node_at nodes (length nodes - 1)).id

unfoldable pub append_symbol : Tables → List ℕ → List BpeNode → Result (List BpeNode)
append_symbol t scalar nodes = elim (t.vocabulary scalar) [
  | some id ↦ append_bpe_node t.limits.nodes nodes id
  | none ↦ elim t.byte_fallback [
    | true ↦ append_bytes t scalar nodes
    | false ↦
        if not t.fuse_unk || length nodes == 0 || last_id nodes != 0
        then append_bpe_node t.limits.nodes nodes 0
        else ok nodes
  ]
]

-- The loop of `append_encode_initial_symbols`; `skip` bytes of a scalar are still to be passed.
unfoldable pub symbols_from : Tables → ℕ → List ℕ → List BpeNode → Result (List BpeNode)
symbols_from t skip [] nodes = ok nodes
symbols_from t (suc skip) (c ∷ rest) nodes = symbols_from t skip rest nodes
symbols_from t zero (c ∷ rest) nodes = encode_utf8_scalar_length (c ∷ rest) 0 >>= λ n.
    append_symbol t (take n (c ∷ rest)) nodes >>= λ nodes'. symbols_from t (n - 1) rest nodes'

unfoldable pub append_encode_initial_symbols : Tables → List ℕ → Result (List BpeNode)
append_encode_initial_symbols t normalized = do
  require (leb (length normalized) t.limits.nodes) overflow_error
  symbols_from t zero normalized []

-- The traversal of the linked symbols, with as many rounds left as nodes are not visited.
unfoldable pub collect_ids : ℕ → ℕ → List BpeNode → ℕ → List ℕ → Result (List ℕ)
collect_ids limit zero nodes index result =
    if index == no_index then ok result else throws logic_error
collect_ids limit (suc rounds) nodes index result = elim (index == no_index) [
  | true ↦ ok result
  | false ↦ require (ltb index (length nodes) && (node_at nodes index).alive) logic_error >>= λ _.
      encode_checked_push limit result (node_at nodes index).id >>= λ result'.
      collect_ids limit rounds nodes (node_at nodes index).next result'
]

-- A run of merging that did not end.
abbrev pub ended {ℓ} : {A : Type ℓ} → Option (Result A) → Result A
ended none = throws logic_error
ended (some r) = r

unfoldable pub append_encode_plain_span : Tables → List ℕ → List ℕ → Result (List ℕ)
append_encode_plain_span t plain result = elim (length plain == 0) [
  | true ↦ ok result
  | false ↦ normalize_encode_span t.limits.text plain t.normalizer >>= λ normalized.
      append_encode_initial_symbols t normalized >>= λ symbols.
      ended (apply_encode_bpe t.limits.heap t.merges symbols) >>= λ nodes.
      collect_ids t.limits.ids (length nodes) nodes (if length nodes == 0 then no_index else 0)
        result
]

-- The longest added token that the text begins with, and its length; of equal ones the first.
unfoldable pub longest_match : List AddedTokenState → List ℕ → ℕ × ℕ → ℕ × ℕ
longest_match [] text best = best
longest_match (token ∷ tokens) text best = longest_match tokens text (
    if starts_with token.content text && ltb best.0 (length token.content)
    then (length token.content, token.id)
    else best)

-- The loop of `encode`. `plain` is the text since the last added token; `skip` bytes of an added
-- token are still to be passed. An offset never passes the length of the text, so that its checked
-- sum does not overflow.
unfoldable pub encode_from : Tables → ℕ → List ℕ → List ℕ → List ℕ → Result (List ℕ)
encode_from t skip [] plain result = append_encode_plain_span t plain result
encode_from t (suc skip) (c ∷ text) plain result = encode_from t skip text plain result
encode_from t zero (c ∷ text) plain result =
    let best = longest_match t.added_tokens (c ∷ text) (0, 0) in
    elim (best.0 == 0) [
      | true ↦ encode_from t zero text (plain ++ (c ∷ [])) result
      | false ↦ append_encode_plain_span t plain result >>= λ result'.
          encode_checked_push t.limits.ids result' best.1 >>= λ result''.
          encode_from t (best.0 - 1) text [] result''
    ]

-- The loop that pushes some ids.
unfoldable pub push_ids : ℕ → List ℕ → List ℕ → Result (List ℕ)
push_ids limit [] result = ok result
push_ids limit (id ∷ ids) result =
    encode_checked_push limit result id >>= λ result'. push_ids limit ids result'

abbrev pub is_sequence : ℕ → List ℕ → Bool
is_sequence letter (c ∷ []) = c == letter
is_sequence letter _ = false

-- The special tokens before the sequence of the single template.
unfoldable pub push_prefix : Tables → List TemplateItemState → List ℕ → Result (List ℕ)
push_prefix t [] result = throws logic_error
push_prefix t (item ∷ items) result = elim item.special [
  | false ↦ if is_sequence 65 item.id then ok result else throws logic_error
  | true ↦ elim (t.special_tokens item.id) [
    | none ↦ throws logic_error
    | some ids ↦ push_ids t.limits.ids ids result >>= λ result'. push_prefix t items result'
  ]
]

unfoldable pub encode : Tables → List ℕ → Bool → Result (List ℕ)
encode t text add_special_tokens = do
  validate_encode_utf8 text
  reserve_size ← encode_checked_add (length text) 2
  require (leb reserve_size t.limits.ids) overflow_error
  result ← (if add_special_tokens then push_prefix t t.single_template [] else ok [])
  encode_from t zero text [] result

-- The size of the special tokens in the pair template.
unfoldable pub pair_size : Tables → List TemplateItemState → ℕ → Result ℕ
pair_size t [] size = ok size
pair_size t (item ∷ items) size = elim item.special [
  | false ↦ pair_size t items size
  | true ↦ elim (t.special_tokens item.id) [
    | none ↦ throws logic_error
    | some ids ↦ encode_checked_add size (length ids) >>= λ size'. pair_size t items size'
  ]
]

-- The loop over the pair template.
unfoldable pub push_template :
    Tables → List ℕ → List ℕ → List TemplateItemState → Bool → Bool → List ℕ → Result (List ℕ)
push_template t first second [] first_seen second_seen result =
    if not first_seen || not second_seen then throws logic_error else ok result
push_template t first second (item ∷ items) first_seen second_seen result = elim item.special [
  | true ↦ elim (t.special_tokens item.id) [
    | none ↦ throws logic_error
    | some ids ↦ push_ids t.limits.ids ids result >>= λ result'.
        push_template t first second items first_seen second_seen result'
  ]
  | false ↦ elim (is_sequence 65 item.id) [
    | true ↦ require (not first_seen) logic_error >>= λ _.
        push_ids t.limits.ids first result >>= λ result'.
        push_template t first second items true second_seen result'
    | false ↦ require (is_sequence 66 item.id) logic_error >>= λ _.
        require (not second_seen) logic_error >>= λ _.
        push_ids t.limits.ids second result >>= λ result'.
        push_template t first second items first_seen true result'
  ]
]

unfoldable pub encode_pair : Tables → List ℕ → List ℕ → Bool → Result (List ℕ)
encode_pair t first second add_special_tokens = do
  validate_encode_utf8 first
  validate_encode_utf8 second
  first_ids ← encode t first false
  second_ids ← encode t second false
  plain_size ← encode_checked_add (length first_ids) (length second_ids)
  reserve_size ←
      (if add_special_tokens then pair_size t t.pair_template plain_size else ok plain_size)
  require (leb reserve_size t.limits.ids) overflow_error
  if add_special_tokens
      then push_template t first_ids second_ids t.pair_template false false []
      else (push_ids t.limits.ids first_ids [] >>= λ result.
          push_ids t.limits.ids second_ids result)
