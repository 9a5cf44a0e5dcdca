-- ===== src/Tokenizer/Pieces/Decode.antt =====
-- `Tokenizer::decode`: its result on every input.
use mathlib.Core.List.{append_assoc, append-nil}
use iom.Base.{
  ltb, ◌==◌, if◌then◌else◌, Bool-cases, Option-cases, length, get_or, length-append, All, max_word,
  invalid_argument, overflow_error, ok, throws, ℕ, zero, suc, ◌+◌, ◌≤◌, ◌≡◌, refl, sym, ap, ◌∙◌,
  inl, inr, Bool, true, false, ◌&&◌, none, some, List, [], ◌∷◌, ◌++◌, arith,
}
use iom.Tokenizer.Pieces.{
  DecoderState, decoded_piece_size, append_decoded_piece, is_byte_fallback_piece,
  is_skipped_special_id, check_ids, output_size, append_pieces, strip, decode,
}
use iom.Tokenizer.Pieces.Sizes.{
  replace, sized, sized_bind, add_sized, size_from_lem, append_from_lem,
}

-- What a piece stands for.
unfoldable pub piece_text : DecoderState → List ℕ → List ℕ
piece_text d piece = elim (is_byte_fallback_piece piece) [
  | some byte ↦ byte ∷ []
  | none ↦
      if length d.replace_pattern == 0
      then piece
      else replace d.replace_pattern d.replace_content 0 piece
]

decoded_piece_size_lem :
    (d : DecoderState) (piece : List ℕ)
    → length piece ≤ max_word
    → decoded_piece_size piece d ≡ sized (length (piece_text d piece))
unfolding decoded_piece_size piece_text
decoded_piece_size_lem d piece w = elim (Option-cases (is_byte_fallback_piece piece)) [
  | inl e ↦ elim (Bool-cases (length d.replace_pattern == 0)) [
    | inl empty ↦
        let fits : ltb max_word (length piece) ≡ false = ground arith in
        rw (e, empty, fits, decoded_piece_size, piece_text) refl
    | inr pattern ↦
        rw (e, pattern, decoded_piece_size, piece_text)
          (size_from_lem (suc (length piece)) d piece 0 (ground arith) (omega arith) (omega arith)
            ∙ ap sized (omega arith))
  ]
  | inr (byte, e) ↦ rw (e, decoded_piece_size, piece_text) refl
]

append_decoded_piece_lem :
    (d : DecoderState) (piece output : List ℕ)
    → append_decoded_piece output piece d ≡ ok (output ++ piece_text d piece)
unfolding append_decoded_piece piece_text
append_decoded_piece_lem d piece output = elim (Option-cases (is_byte_fallback_piece piece)) [
  | inl e ↦ elim (Bool-cases (length d.replace_pattern == 0)) [
    | inl empty ↦ rw (e, empty, append_decoded_piece, piece_text) refl
    | inr pattern ↦
        rw (e, pattern, append_decoded_piece, piece_text)
          (append_from_lem (suc (length piece)) d piece output (ground arith) (omega arith))
  ]
  | inr (byte, e) ↦ rw (e, append_decoded_piece, piece_text) refl
]

abbrev pub IsShort : List ℕ → Type 0
IsShort piece = length piece ≤ max_word

get_or-IsShort :
    (vocabulary : List (List ℕ)) (id : ℕ)
    → All IsShort vocabulary
    → IsShort (get_or vocabulary id [])
get_or-IsShort [] id h = omega arith
get_or-IsShort (piece ∷ vocabulary) zero h = h.0
get_or-IsShort (piece ∷ vocabulary) (suc id) h = get_or-IsShort vocabulary id h.1

-- The texts of the tokens in a row, special ones left out if they are to be skipped.
module _ (d : DecoderState) (vocabulary : List (List ℕ)) (skip : Bool) where
  unfoldable pub decoded_text : List ℕ → List ℕ
  decoded_text [] = []
  decoded_text (id ∷ ids) = elim (skip && is_skipped_special_id id) [
    | true ↦ decoded_text ids
    | false ↦ piece_text d (get_or vocabulary id []) ++ decoded_text ids
  ]

  output_size_lem :
      (ids : List ℕ) (total : ℕ)
      → All IsShort vocabulary
      → total ≤ max_word
      → output_size d vocabulary skip ids total ≡ sized (total + length (decoded_text ids))
  unfolding output_size decoded_text
  output_size_lem [] total h w = ground arith
  output_size_lem (id ∷ ids) total h w = elim (Bool-cases (skip && is_skipped_special_id id)) [
    | inl skipped ↦ rw (skipped, output_size, decoded_text) (output_size_lem ids total h w)
    | inr kept ↦
        let piece = get_or vocabulary id [] in
        let n = length (piece_text d piece) in
        let whole : total + length (piece_text d piece ++ decoded_text ids)
            ≡ total + n + length (decoded_text ids) =
          omega (arith, length-append (piece_text d piece) (decoded_text ids)) in
        rw
          (
            kept,
            output_size,
            decoded_text,
            whole,
            decoded_piece_size_lem d piece (get_or-IsShort vocabulary id h),
          )
          (sized_bind n _ _ (omega arith) λ fits. rw (add_sized total n w) (
            sized_bind (total + n) _ _ (omega arith)
              λ fits'. output_size_lem ids (total + n) h fits'))
  ]

  append_pieces_lem :
      (ids output : List ℕ)
      → append_pieces d vocabulary skip ids output ≡ ok (output ++ decoded_text ids)
  unfolding append_pieces decoded_text
  append_pieces_lem [] output = ap ok (sym (append-nil output))
  append_pieces_lem (id ∷ ids) output = elim (Bool-cases (skip && is_skipped_special_id id)) [
    | inl skipped ↦ rw (skipped, append_pieces, decoded_text) (append_pieces_lem ids output)
    | inr kept ↦
        let piece = get_or vocabulary id [] in
        rw (kept, append_pieces, decoded_text, append_decoded_piece_lem d piece output)
          (append_pieces_lem ids (output ++ piece_text d piece)
            ∙ ap ok (append_assoc output (piece_text d piece) (decoded_text ids)))
  ]

abbrev pub all_below : ℕ → List ℕ → Bool
all_below n [] = true
all_below n (id ∷ ids) = ltb id n && all_below n ids

check_ids_lem :
    (n : ℕ) (ids : List ℕ)
    → check_ids n ids ≡ (if all_below n ids then ok tt else throws invalid_argument)
unfolding check_ids
check_ids_lem n [] = refl
check_ids_lem n (id ∷ ids) = ground (arith, check_ids_lem n ids)

-- For a vocabulary whose pieces have word lengths and a string limit that is a word, `decode`
-- throws `invalid_argument` if some id is not in the vocabulary; else it throws `overflow_error`
-- if the text of the pieces is longer than the limit; else it yields that text, less one leading
-- space where the decoder strips it. The text of a piece is the byte that it stands for, or the
-- piece with every match of the pattern replaced; special ids have none where they are skipped.
pub decode_lem :
    (limit : ℕ) (d : DecoderState) (vocabulary : List (List ℕ)) (skip : Bool) (ids : List ℕ)
    → limit ≤ max_word
    → All IsShort vocabulary
    → decode limit d vocabulary skip ids ≡ (
        if all_below (length vocabulary) ids
        then (if ltb limit (length (decoded_text d vocabulary skip ids))
            then throws overflow_error
            else ok (strip d (decoded_text d vocabulary skip ids)))
        else throws invalid_argument)
unfolding decode
decode_lem limit d vocabulary skip ids w h =
    rw
      (
        check_ids_lem (length vocabulary) ids,
        output_size_lem d vocabulary skip ids 0 h (omega arith),
        append_pieces_lem d vocabulary skip ids [],
      )
      (ground arith)
