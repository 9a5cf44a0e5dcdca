-- ===== src/Tokenizer/Encode/Special.antt =====
-- The special tokens of the single template.
use mathlib.Core.List.{append_assoc, append-nil}
use iom.Base.{
  leb, if◌then◌else◌, Bool-cases, Option-cases, length, overflow_error, ok, require, >>=-eq-ok,
  ok-injective, ℕ, ◌≡◌, refl, sym, ap, subst, ◌∙◌, inl, inr, Bool, true, false, none, some, List,
  [], ◌∷◌, ◌++◌, arith,
}
use iom.Tokenizer.Utf8.{validate_encode_utf8}
use iom.Tokenizer.Encode.{
  TemplateItemState, Tables, encode_checked_add, encode_checked_push, encode_from, push_ids,
  push_prefix, encode,
}
use iom.Tokenizer.Encode.Grows.{Grows-encode_from}

pub push_ids_lem : (limit : ℕ) (ids out r : List ℕ) → push_ids limit ids out ≡ ok r → r ≡ out ++ ids
unfolding push_ids encode_checked_push
push_ids_lem limit [] out r e = sym (ok-injective _ _ e) ∙ sym (append-nil out)
push_ids_lem limit (id ∷ ids) out r e =
    let (out', pushed, rest) = >>=-eq-ok (encode_checked_push limit out id) _ e in
    let longer : out' ≡ out ++ (id ∷ []) = ground arith in
    push_ids_lem limit ids out' r rest
    ∙ ap (λ (t : List ℕ). t ++ ids) longer
    ∙ append_assoc out (id ∷ []) ids

-- The ids of a special token; none for an unknown one.
unfoldable pub special_ids : Tables → TemplateItemState → List ℕ
special_ids t item = elim (t.special_tokens item.id) [ none ↦ [] | some ids ↦ ids ]

-- The ids of the special tokens at the head of a template.
unfoldable pub prefix_ids : Tables → List TemplateItemState → List ℕ
prefix_ids t [] = []
prefix_ids t (item ∷ items) = if item.special then special_ids t item ++ prefix_ids t items else []

pub special_ids-some :
    (t : Tables) (item : TemplateItemState) (ids : List ℕ)
    → t.special_tokens item.id ≡ some ids
    → special_ids t item ≡ ids
unfolding special_ids
special_ids-some t item ids found = rw (found, special_ids) refl

prefix-special :
    (t : Tables) (item : TemplateItemState) (items : List TemplateItemState) (ids : List ℕ)
    → item.special ≡ true
    → t.special_tokens item.id ≡ some ids
    → prefix_ids t (item ∷ items) ≡ ids ++ prefix_ids t items
unfolding prefix_ids
prefix-special t item items ids special found =
    ap (λ (b : Bool). if b then special_ids t item ++ prefix_ids t items else []) special
    ∙ ap (λ (q : List ℕ). q ++ prefix_ids t items) (special_ids-some t item ids found)

pub push_prefix_lem :
    (t : Tables) (items : List TemplateItemState) (out r : List ℕ)
    → push_prefix t items out ≡ ok r
    → r ≡ out ++ prefix_ids t items
unfolding push_prefix prefix_ids special_ids
push_prefix_lem t [] out r e = cc
push_prefix_lem t (item ∷ items) out r e = elim (Bool-cases item.special) [
  | inr sequence ↦ let done : r ≡ out = ground arith in rw sequence (done ∙ sym (append-nil out))
  | inl special ↦ elim (Option-cases (t.special_tokens item.id)) [
    | inl missing ↦ ground arith
    | inr (ids, found) ↦
        let e' = rw (special, found, push_prefix) at e in
        let (out', pushed, rest) = >>=-eq-ok (push_ids t.limits.ids ids out) _ e' in
        push_prefix_lem t items out' r rest
        ∙ ap (λ (u : List ℕ). u ++ prefix_ids t items)
            (push_ids_lem t.limits.ids ids out out' pushed)
        ∙ append_assoc out ids (prefix_ids t items)
        ∙ ap (λ (q : List ℕ). out ++ q) (sym (prefix-special t item items ids special found))
  ]
]

plain-encode :
    (t : Tables) (text : List ℕ) (u v : Unit {0}) (size : ℕ)
    → validate_encode_utf8 text ≡ ok u
    → encode_checked_add (length text) 2 ≡ ok size
    → require (leb size t.limits.ids) overflow_error ≡ ok v
    → encode t text false ≡ encode_from t 0 text [] []
unfolding encode
plain-encode t text u v size valid sized fits = rw (valid, sized, fits) refl

-- Where `encode` with special tokens succeeds, it succeeds without them as well, and the ids
-- with them are the ids of the special tokens at the head of the single template followed by the
-- ids without them.
pub encode_special :
    (t : Tables) (text r : List ℕ)
    → encode t text true ≡ ok r
    → (s : List ℕ) × (encode t text false ≡ ok s) × (r ≡ prefix_ids t t.single_template ++ s)
unfolding encode
encode_special t text r e =
    let (u, valid, e1) = >>=-eq-ok (validate_encode_utf8 text) _ e in
    let (size, sized, e2) = >>=-eq-ok (encode_checked_add (length text) 2) _ e1 in
    let (v, fits, e3) = >>=-eq-ok (require (leb size t.limits.ids) overflow_error) _ e2 in
    let (p, prefixed, e4) = >>=-eq-ok (push_prefix t t.single_template []) _ e3 in
    let p_same : p ≡ prefix_ids t t.single_template =
      push_prefix_lem t t.single_template [] p prefixed in
    let (s, plain, same) =
      Grows-encode_from t 0 text [] p [] r
        (subst (λ (q : List ℕ). encode_from t 0 text [] q ≡ ok r) (sym (append-nil p)) e4) in
    (
      s,
      plain-encode t text u v size valid sized fits ∙ plain,
      same ∙ ap (λ (q : List ℕ). q ++ s) p_same,
    )
