-- ===== src/Tokenizer/Encode/Pair.antt =====
-- `encode_pair`: the template of a pair.
use mathlib.Core.List.{append_assoc, append-nil}
use iom.Base.{
  leb, if◌then◌else◌, Bool-cases, Option-cases, length, overflow_error, logic_error, ok, ◌>>=◌,
  ◌>>◌, require, >>=-eq-ok, require-eq-ok, ok-injective, ℕ, suc, ◌≡◌, refl, sym, ap, ◌∙◌, inl, inr,
  Bool, true, false, not, ◌&&◌, List, [], ◌∷◌, ◌++◌, arith,
}
use iom.Tokenizer.Utf8.{validate_encode_utf8}
use iom.Tokenizer.Encode.{
  TemplateItemState, Tables, encode_checked_add, is_sequence, push_ids, push_template, pair_size,
  encode, encode_pair,
}
use iom.Tokenizer.Encode.Special.{push_ids_lem, special_ids, special_ids-some}

-- The template with the ids of its special tokens and of the two sequences.
unfoldable pub expansion : Tables → List ℕ → List ℕ → List TemplateItemState → List ℕ
expansion t first second [] = []
expansion t first second (item ∷ items) =
    (if item.special
      then special_ids t item
      else (if is_sequence 65 item.id then first else second))
    ++ expansion t first second items

-- How many items of the template are the sequence with that letter.
unfoldable pub count_sequence : ℕ → List TemplateItemState → ℕ
count_sequence letter [] = 0
count_sequence letter (item ∷ items) =
    if not item.special && is_sequence letter item.id
    then suc (count_sequence letter items)
    else count_sequence letter items

not_b : (id : List ℕ) → is_sequence 65 id ≡ true → is_sequence 66 id ≡ false
not_b [] e = refl
not_b (c ∷ []) e = ground arith
not_b (c ∷ d ∷ id) e = refl

module _ (t : Tables) (first second : List ℕ) where
  -- The first item is expanded to `ids`.
  pushed-step :
      (items : List TemplateItemState) (ids out out' r head : List ℕ)
      → push_ids t.limits.ids ids out ≡ ok out'
      → ids ≡ head
      → r ≡ out' ++ expansion t first second items
      → r ≡ out ++ (head ++ expansion t first second items)
  pushed-step items ids out out' r head pushed same e =
      e
      ∙ ap (λ (u : List ℕ). u ++ expansion t first second items)
          (push_ids_lem t.limits.ids ids out out' pushed)
      ∙ append_assoc out ids (expansion t first second items)
      ∙ ap (λ (q : List ℕ). out ++ (q ++ expansion t first second items)) same

  -- What is pushed is the expansion, and each sequence is there once in all.
  push_template_lem :
      (items : List TemplateItemState) (a b : Bool) (out r : List ℕ)
      → push_template t first second items a b out ≡ ok r
      → (r ≡ out ++ expansion t first second items)
        × (count_sequence 65 items ≡ (if a then 0 else 1))
        × (count_sequence 66 items ≡ (if b then 0 else 1))
  unfolding push_template expansion count_sequence special_ids
  push_template_lem [] true true out r e =
      (sym (ok-injective _ _ e) ∙ sym (append-nil out), refl, refl)
  push_template_lem [] true false out r e = cc
  push_template_lem [] false b out r e = cc
  push_template_lem (item ∷ items) a b out r e = elim (Bool-cases item.special) [
    | inl special ↦ elim (Option-cases (t.special_tokens item.id)) [
      | inl missing ↦ ground arith
      | inr (ids, found) ↦
          let e' = rw (special, found, push_template) at e in
          let (out', pushed, rest) = >>=-eq-ok (push_ids t.limits.ids ids out) _ e' in
          let (same, one, other) = push_template_lem items a b out' r rest in
          let step =
            pushed-step items ids out out' r (special_ids t item) pushed
              (sym (special_ids-some t item ids found)) same in
          rw special (step, one, other)
    ]
    | inr sequence ↦ elim (Bool-cases (is_sequence 65 item.id)) [
      | inl is_a ↦
          let e' = rw (sequence, is_a, push_template) at e in
          let (u, fresh, e1) = >>=-eq-ok (require (not a) logic_error) _ e' in
          let (out', pushed, rest) = >>=-eq-ok (push_ids t.limits.ids first out) _ e1 in
          let (same, one, other) = push_template_lem items true b out' r rest in
          let step = pushed-step items first out out' r first pushed refl same in
          let no_a : a ≡ false = ground arith in
          rw (sequence, is_a, no_a, not_b item.id is_a) (step, ap suc one, other)
      | inr not_a ↦
          let e' = rw (sequence, not_a, push_template) at e in
          let (u, is_b, e1) = >>=-eq-ok (require (is_sequence 66 item.id) logic_error) _ e' in
          let (v, fresh, e2) = >>=-eq-ok (require (not b) logic_error) _ e1 in
          let (out', pushed, rest) = >>=-eq-ok (push_ids t.limits.ids second out) _ e2 in
          let (same, one, other) = push_template_lem items a true out' r rest in
          let step = pushed-step items second out out' r second pushed refl same in
          let no_b : b ≡ false = ground arith in
          let letter : is_sequence 66 item.id ≡ true =
            require-eq-ok (is_sequence 66 item.id) logic_error is_b in
          rw (sequence, not_a, no_b, letter) (step, one, ap suc other)
    ]
  ]

-- The last step of `encode_pair`, from the ids of both texts.
templated :
    (t : Tables) (a b : List ℕ) (special : Bool) (plain_size : ℕ) (r : List ℕ)
    → (do
      reserve_size ← (if special then pair_size t t.pair_template plain_size else ok plain_size)
      require (leb reserve_size t.limits.ids) overflow_error
      if special
          then push_template t a b t.pair_template false false []
          else (push_ids t.limits.ids a [] >>= λ result. push_ids t.limits.ids b result))
      ≡ ok r
    → (r ≡ (if special then expansion t a b t.pair_template else a ++ b))
      × ((if special then count_sequence 65 t.pair_template else 1) ≡ 1)
      × ((if special then count_sequence 66 t.pair_template else 1) ≡ 1)
templated t a b true plain_size r e =
    let (size, sized, e1) = >>=-eq-ok (pair_size t t.pair_template plain_size) _ e in
    let (u, fits, e2) = >>=-eq-ok (require (leb size t.limits.ids) overflow_error) _ e1 in
    let (same, one, other) = push_template_lem t a b t.pair_template false false [] r e2 in
    (same, one, other)
templated t a b false plain_size r e =
    let (u, fits, e1) = >>=-eq-ok (require (leb plain_size t.limits.ids) overflow_error) _ e in
    let (out, pushed, e2) = >>=-eq-ok (push_ids t.limits.ids a []) _ e1 in
    (
      push_ids_lem t.limits.ids b out r e2
          ∙ ap (λ (q : List ℕ). q ++ b) (push_ids_lem t.limits.ids a [] out pushed),
      refl,
      refl,
    )

-- Where `encode_pair` succeeds, both texts encode without special tokens, and the ids are the
-- ids of both in a row, or, with special tokens, those of the items of the pair template in a
-- row, which then has each of the sequences A and B exactly once.
pub encode_pair_lem :
    (t : Tables) (first second : List ℕ) (special : Bool) (r : List ℕ)
    → encode_pair t first second special ≡ ok r
    → (a : List ℕ) × (b : List ℕ) × (encode t first false ≡ ok a)
      × (encode t second false ≡ ok b)
      × (r ≡ (if special then expansion t a b t.pair_template else a ++ b))
      × ((if special then count_sequence 65 t.pair_template else 1) ≡ 1)
      × ((if special then count_sequence 66 t.pair_template else 1) ≡ 1)
unfolding encode_pair
encode_pair_lem t first second special r e =
    let (u, valid, e1) = >>=-eq-ok (validate_encode_utf8 first) _ e in
    let (u', valid', e2) = >>=-eq-ok (validate_encode_utf8 second) _ e1 in
    let (a, encoded, e3) = >>=-eq-ok (encode t first false) _ e2 in
    let (b, encoded', e4) = >>=-eq-ok (encode t second false) _ e3 in
    let (size, sized, e5) = >>=-eq-ok (encode_checked_add (length a) (length b)) _ e4 in
    let (same, once, once') = templated t a b special size r e5 in
    (a, b, encoded, encoded', same, once, once')
