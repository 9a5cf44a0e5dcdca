-- ===== src/Tokenizer/Tests.antt =====
-- A tokenizer of a few pieces.
use iom.Base.{
  ltb, ◌==◌, if◌then◌else◌, length, All, overflow_error, Result, ok, throws, ℕ, ◌≡◌, refl, ◌↔◌,
  true, false, ◌&&◌, Option, none, some, List, [], ◌∷◌, ◌++◌, arith,
}
use iom.Tokenizer.Utf8.{
  validate_encode_utf8, validate_from, check_sequence, continuation_bytes, lead_length, second_min,
  second_max, second_in_range,
}
use iom.Tokenizer.Utf8.Scalars.{IsUtf8, validate_encode_utf8_iff}
use iom.Tokenizer.Pieces.{DecoderState, decode, byte_piece, is_byte_fallback_piece, strip}
use iom.Tokenizer.Pieces.Decode.{decode_lem, decoded_text, IsShort}
use iom.Tokenizer.Pieces.Sizes.{replace}
use iom.Tokenizer.Bpe.{Merges, BpeNode, apply_encode_bpe}
use iom.Tokenizer.Bpe.Rounds.{apply_encode_bpe_ends}
use iom.Tokenizer.Encode.{
  append_encode_plain_span, NormalizerState, AddedTokenState, TemplateItemState, Limits, Tables,
  normalize_encode_span, encode, encode_pair,
}
use iom.Tokenizer.Encode.Normalize.{normalize_encode_span_lem}
use iom.Tokenizer.Encode.Special.{encode_special, prefix_ids}
use iom.Tokenizer.Encode.Merged.{append_encode_plain_span-MergedSpan, MergedSpan}
use iom.Tokenizer.Encode.Pair.{encode_pair_lem, expansion, count_sequence}

-- U+20AC, the euro sign, between two letters.
abbrev text : List ℕ
text = 97 ∷ 226 ∷ 130 ∷ 172 ∷ 98 ∷ []

validate_encode_utf8_iff_example : (validate_encode_utf8 text ≡ ok tt) ↔ IsUtf8 text
validate_encode_utf8_iff_example = validate_encode_utf8_iff text

abbrev piece_id : List ℕ → Option ℕ
piece_id (c ∷ []) = if c == 97 then some 3 else (if c == 98 then some 4 else none)
piece_id piece = none

abbrev merges : Merges
merges = record {
  rank_of = λ left right. if left == 3 && right == 4 then some 0 else none;
  result_of = λ left right. if left == 3 && right == 4 then some 5 else none;
}

abbrev node : ℕ → ℕ → ℕ → BpeNode
node id previous next = record {
  id = id;
  previous = previous;
  next = next;
  generation = 0;
  alive = true;
}

abbrev nodes : List BpeNode
nodes = node 3 18446744073709551615 1 ∷ node 4 0 18446744073709551615 ∷ []

apply_encode_bpe_ends_example :
    (r : Result (List BpeNode)) × (apply_encode_bpe 1000 merges nodes ≡ some r)
apply_encode_bpe_ends_example = apply_encode_bpe_ends 1000 merges nodes

-- A space is replaced by two bytes, and one is put before the text.
abbrev normalizer : NormalizerState
normalizer = record { prepend = 95 ∷ []; replace_pattern = 32 ∷ []; replace_content = 95 ∷ 95 ∷ [] }

normalize_run :
    normalize_encode_span 100 (97 ∷ 32 ∷ 98 ∷ []) normalizer ≡ ok (95 ∷ 97 ∷ 95 ∷ 95 ∷ 98 ∷ [])
unfolding normalize_encode_span iom.Tokenizer.Encode.encode_checked_add
    iom.Tokenizer.Encode.encode_checked_append iom.Tokenizer.Encode.normalize_from
normalize_run = refl

normalize_encode_span_lem_example :
    95 ∷ 97 ∷ 95 ∷ 95 ∷ 98 ∷ []
    ≡ normalizer.prepend
      ++ replace normalizer.replace_pattern normalizer.replace_content 0 (97 ∷ 32 ∷ 98 ∷ [])
normalize_encode_span_lem_example =
    normalize_encode_span_lem 100 (97 ∷ 32 ∷ 98 ∷ []) normalizer (omega arith) normalize_run

abbrev begin_token : TemplateItemState
begin_token = record { special = true; id = 60 ∷ [] }

abbrev first_sequence : TemplateItemState
first_sequence = record { special = false; id = 65 ∷ [] }

abbrev second_sequence : TemplateItemState
second_sequence = record { special = false; id = 66 ∷ [] }

abbrev tables : Tables
tables = record {
  vocabulary = piece_id;
  byte_pieces = [];
  merges = merges;
  normalizer = record { prepend = []; replace_pattern = []; replace_content = [] };
  fuse_unk = true;
  byte_fallback = false;
  added_tokens = record { id = 9; content = 33 ∷ [] } ∷ [];
  single_template = begin_token ∷ first_sequence ∷ [];
  pair_template = begin_token ∷ first_sequence ∷ begin_token ∷ second_sequence ∷ [];
  special_tokens = λ name. if length name == 1 then some (1 ∷ []) else none;
  limits = record { text = 100; nodes = 100; heap = 100; ids = 100 };
}

-- `ab!cc`: one merge, an added token, and two unknown scalars that fuse.
encode_run : encode tables (97 ∷ 98 ∷ 33 ∷ 99 ∷ 99 ∷ []) true ≡ ok (1 ∷ 5 ∷ 9 ∷ 0 ∷ [])
unfolding iom.Tokenizer.Encode.encode iom.Tokenizer.Encode.encode_checked_add
    iom.Tokenizer.Encode.encode_checked_append iom.Tokenizer.Encode.encode_checked_push
    iom.Tokenizer.Encode.normalize_from iom.Tokenizer.Encode.normalize_encode_span
    iom.Tokenizer.Encode.append_bytes iom.Tokenizer.Encode.append_symbol
    iom.Tokenizer.Encode.symbols_from iom.Tokenizer.Encode.append_encode_initial_symbols
    iom.Tokenizer.Encode.collect_ids iom.Tokenizer.Encode.append_encode_plain_span
    iom.Tokenizer.Encode.longest_match iom.Tokenizer.Encode.encode_from
    iom.Tokenizer.Encode.push_ids iom.Tokenizer.Encode.push_prefix iom.Tokenizer.Bpe.lower
    iom.Tokenizer.Bpe.push_heap iom.Tokenizer.Bpe.append_bpe_node iom.Tokenizer.Bpe.queue_pair
    iom.Tokenizer.Bpe.queue_all iom.Tokenizer.Bpe.current iom.Tokenizer.Bpe.relink
    iom.Tokenizer.Bpe.merge_nodes iom.Tokenizer.Bpe.merge_entry iom.Tokenizer.Bpe.merge_all
    iom.Tokenizer.Bpe.encode_checked_mul iom.Tokenizer.Bpe.apply_encode_bpe
    iom.Tokenizer.Utf8.validate_encode_utf8 iom.Tokenizer.Utf8.validate_from
    iom.Tokenizer.Utf8.check_sequence iom.Tokenizer.Utf8.continuation_bytes
    iom.Tokenizer.Utf8.lead_length iom.Tokenizer.Utf8.second_min iom.Tokenizer.Utf8.second_max
    iom.Tokenizer.Utf8.second_in_range iom.Tokenizer.Utf8.encode_utf8_scalar_length
    iom.Tokenizer.Pieces.starts_with
encode_run = refl

encode_special_example :
    (s : List ℕ) × (encode tables (97 ∷ 98 ∷ 33 ∷ 99 ∷ 99 ∷ []) false ≡ ok s)
    × (1 ∷ 5 ∷ 9 ∷ 0 ∷ [] ≡ prefix_ids tables tables.single_template ++ s)
encode_special_example =
    encode_special tables (97 ∷ 98 ∷ 33 ∷ 99 ∷ 99 ∷ []) (1 ∷ 5 ∷ 9 ∷ 0 ∷ []) encode_run

pair_run : encode_pair tables (97 ∷ 98 ∷ []) (98 ∷ []) true ≡ ok (1 ∷ 5 ∷ 1 ∷ 4 ∷ [])
unfolding iom.Tokenizer.Encode.encode iom.Tokenizer.Encode.encode_checked_add
    iom.Tokenizer.Encode.encode_checked_append iom.Tokenizer.Encode.encode_checked_push
    iom.Tokenizer.Encode.normalize_from iom.Tokenizer.Encode.normalize_encode_span
    iom.Tokenizer.Encode.append_bytes iom.Tokenizer.Encode.append_symbol
    iom.Tokenizer.Encode.symbols_from iom.Tokenizer.Encode.append_encode_initial_symbols
    iom.Tokenizer.Encode.collect_ids iom.Tokenizer.Encode.append_encode_plain_span
    iom.Tokenizer.Encode.longest_match iom.Tokenizer.Encode.encode_from
    iom.Tokenizer.Encode.push_ids iom.Tokenizer.Encode.push_prefix iom.Tokenizer.Bpe.lower
    iom.Tokenizer.Bpe.push_heap iom.Tokenizer.Bpe.append_bpe_node iom.Tokenizer.Bpe.queue_pair
    iom.Tokenizer.Bpe.queue_all iom.Tokenizer.Bpe.current iom.Tokenizer.Bpe.relink
    iom.Tokenizer.Bpe.merge_nodes iom.Tokenizer.Bpe.merge_entry iom.Tokenizer.Bpe.merge_all
    iom.Tokenizer.Bpe.encode_checked_mul iom.Tokenizer.Bpe.apply_encode_bpe
    iom.Tokenizer.Utf8.validate_encode_utf8 iom.Tokenizer.Utf8.validate_from
    iom.Tokenizer.Utf8.check_sequence iom.Tokenizer.Utf8.continuation_bytes
    iom.Tokenizer.Utf8.lead_length iom.Tokenizer.Utf8.second_min iom.Tokenizer.Utf8.second_max
    iom.Tokenizer.Utf8.second_in_range iom.Tokenizer.Utf8.encode_utf8_scalar_length
    iom.Tokenizer.Pieces.starts_with iom.Tokenizer.Encode.encode_pair iom.Tokenizer.Encode.pair_size
    iom.Tokenizer.Encode.push_template
pair_run = refl

encode_pair_lem_example :
    (a : List ℕ) × (b : List ℕ) × (encode tables (97 ∷ 98 ∷ []) false ≡ ok a)
    × (encode tables (98 ∷ []) false ≡ ok b)
    × (1 ∷ 5 ∷ 1 ∷ 4 ∷ [] ≡ expansion tables a b tables.pair_template)
    × (count_sequence 65 tables.pair_template ≡ 1)
    × (count_sequence 66 tables.pair_template ≡ 1)
encode_pair_lem_example =
    encode_pair_lem tables (97 ∷ 98 ∷ []) (98 ∷ []) true (1 ∷ 5 ∷ 1 ∷ 4 ∷ []) pair_run

-- `<unk>`, `<s>`, `</s>`, `<0x41>` and `_a`.
abbrev pieces : List (List ℕ)
pieces = (60 ∷ 117 ∷ []) ∷ (60 ∷ 115 ∷ []) ∷ (60 ∷ 47 ∷ []) ∷ byte_piece 65 ∷ (95 ∷ 97 ∷ []) ∷ []

abbrev decoder : DecoderState
decoder = record {
  replace_pattern = 95 ∷ [];
  replace_content = 32 ∷ [];
  strip_content = 32 ∷ [];
  strip_start = 1;
  strip_stop = 0;
}

pieces-IsShort : All IsShort pieces
unfolding byte_piece
pieces-IsShort = (omega arith, (omega arith, (omega arith, (omega arith, (omega arith, tt)))))

decode_lem_example : decode 100 decoder pieces true (1 ∷ 4 ∷ 3 ∷ []) ≡ (
    if ltb 100 (length (decoded_text decoder pieces true (1 ∷ 4 ∷ 3 ∷ [])))
    then throws overflow_error
    else ok (strip decoder (decoded_text decoder pieces true (1 ∷ 4 ∷ 3 ∷ []))))
decode_lem_example =
    decode_lem 100 decoder pieces true (1 ∷ 4 ∷ 3 ∷ []) (omega arith) pieces-IsShort

-- `aabb`: the merge of the pair in the middle leaves three ids.
span_run :
    append_encode_plain_span tables (97 ∷ 97 ∷ 98 ∷ 98 ∷ []) (7 ∷ []) ≡ ok (7 ∷ 3 ∷ 5 ∷ 4 ∷ [])
unfolding iom.Tokenizer.Encode.encode iom.Tokenizer.Encode.encode_checked_add
    iom.Tokenizer.Encode.encode_checked_append iom.Tokenizer.Encode.encode_checked_push
    iom.Tokenizer.Encode.normalize_from iom.Tokenizer.Encode.normalize_encode_span
    iom.Tokenizer.Encode.append_bytes iom.Tokenizer.Encode.append_symbol
    iom.Tokenizer.Encode.symbols_from iom.Tokenizer.Encode.append_encode_initial_symbols
    iom.Tokenizer.Encode.collect_ids iom.Tokenizer.Encode.append_encode_plain_span
    iom.Tokenizer.Encode.longest_match iom.Tokenizer.Encode.encode_from
    iom.Tokenizer.Encode.push_ids iom.Tokenizer.Encode.push_prefix iom.Tokenizer.Bpe.lower
    iom.Tokenizer.Bpe.push_heap iom.Tokenizer.Bpe.append_bpe_node iom.Tokenizer.Bpe.queue_pair
    iom.Tokenizer.Bpe.queue_all iom.Tokenizer.Bpe.current iom.Tokenizer.Bpe.relink
    iom.Tokenizer.Bpe.merge_nodes iom.Tokenizer.Bpe.merge_entry iom.Tokenizer.Bpe.merge_all
    iom.Tokenizer.Bpe.encode_checked_mul iom.Tokenizer.Bpe.apply_encode_bpe
    iom.Tokenizer.Utf8.validate_encode_utf8 iom.Tokenizer.Utf8.validate_from
    iom.Tokenizer.Utf8.check_sequence iom.Tokenizer.Utf8.continuation_bytes
    iom.Tokenizer.Utf8.lead_length iom.Tokenizer.Utf8.second_min iom.Tokenizer.Utf8.second_max
    iom.Tokenizer.Utf8.second_in_range iom.Tokenizer.Utf8.encode_utf8_scalar_length
    iom.Tokenizer.Pieces.starts_with
span_run = refl

append_encode_plain_span-MergedSpan_example :
    (merged : List ℕ) × (7 ∷ 3 ∷ 5 ∷ 4 ∷ [] ≡ (7 ∷ []) ++ merged)
    × MergedSpan tables (97 ∷ 97 ∷ 98 ∷ 98 ∷ []) merged
    × ((other : List ℕ) → MergedSpan tables (97 ∷ 97 ∷ 98 ∷ 98 ∷ []) other → other ≡ merged)
append_encode_plain_span-MergedSpan_example =
    append_encode_plain_span-MergedSpan tables (97 ∷ 97 ∷ 98 ∷ 98 ∷ []) (7 ∷ []) (omega arith)
      (λ e. omega (arith, e)) span_run
