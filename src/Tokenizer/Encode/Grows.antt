-- ===== src/Tokenizer/Encode/Grows.antt =====
-- The loops of encoding only append: what they append does not depend on what is there.
use mathlib.Core.List.{append_assoc, append-nil}
use iom.Base.{
  ltb, ◌==◌, if◌then◌else◌, length, length-append, Exception, logic_error, Result, ok, throws,
  ◌>>=◌, require, >>=-eq-ok, ok-injective, ℕ, zero, suc, ◌-◌, ◌≡◌, refl, sym, ap, subst, ◌∙◌, Bool,
  true, false, ◌&&◌, List, [], ◌∷◌, ◌++◌, arith,
}
use iom.Tokenizer.Bpe.{BpeNode, node_at, no_index, apply_encode_bpe}
use iom.Tokenizer.Encode.{
  Tables, encode_checked_push, collect_ids, append_encode_plain_span, normalize_encode_span,
  append_encode_initial_symbols, ended, longest_match, encode_from, push_ids,
}

-- Before some output, a call that succeeds succeeds without it, and appends the same.
abbrev pub Grows : (List ℕ → Result (List ℕ)) → Type 0
Grows f =
    (before middle : List ℕ) (r : List ℕ)
    → f (before ++ middle) ≡ ok r
    → (s : List ℕ) × (f middle ≡ ok (middle ++ s)) × (r ≡ before ++ (middle ++ s))

Grows-nothing : Grows ok
Grows-nothing before middle r e = (
  [],
  ap ok (sym (append-nil middle)),
  sym (ok-injective _ r e) ∙ ap (λ (t : List ℕ). before ++ t) (sym (append-nil middle)),
)

Grows-bind : (f g : List ℕ → Result (List ℕ)) → Grows f → Grows g → Grows (λ out. f out >>= g)
Grows-bind f g grows_f grows_g before middle r e =
    let (m, e1, r1) = >>=-eq-ok (f (before ++ middle)) g e in
    let (s, e2, same) = grows_f before middle m e1 in
    let (s', e3, same') =
      grows_g before (middle ++ s) r (subst (λ (t : List ℕ). g t ≡ ok r) same r1) in
    (
      s ++ s',
      rw (e2, e3, append_assoc middle s s') refl,
      same' ∙ ap (λ (t : List ℕ). before ++ t) (append_assoc middle s s'),
    )

Grows-require :
    (b : Bool) (x : Exception) (f : List ℕ → Result (List ℕ))
    → Grows f
    → Grows (λ out. require b x >>= λ _. f out)
Grows-require true x f grows before middle r e = grows before middle r e
Grows-require false x f grows before middle r e = cc

Grows-throws : (x : Exception) → Grows (λ out. throws x)
Grows-throws x before middle r e = cc

Grows-choice :
    (b : Bool) (f g : List ℕ → Result (List ℕ))
    → Grows f
    → Grows g
    → Grows (λ out. elim b [ true ↦ f out | false ↦ g out ])
Grows-choice true f g grows_f grows_g = grows_f
Grows-choice false f g grows_f grows_g = grows_g

Grows-if :
    (b : Bool) (f g : List ℕ → Result (List ℕ))
    → Grows f
    → Grows g
    → Grows (λ out. if b then f out else g out)
Grows-if true f g grows_f grows_g = grows_f
Grows-if false f g grows_f grows_g = grows_g

pub Grows-push : (limit id : ℕ) → Grows (λ out. encode_checked_push limit out id)
unfolding encode_checked_push
Grows-push limit id before middle r e = (
  id ∷ [],
  ground (arith, length-append before middle),
  ground (arith, length-append before middle, append_assoc before middle (id ∷ [])),
)

pub Grows-push_ids : (limit : ℕ) (ids : List ℕ) → Grows (push_ids limit ids)
unfolding push_ids
Grows-push_ids limit [] = Grows-nothing
Grows-push_ids limit (id ∷ ids) =
    Grows-bind (λ out. encode_checked_push limit out id) (push_ids limit ids) (Grows-push limit id)
      (Grows-push_ids limit ids)

Grows-collect_ids :
    (limit rounds : ℕ) (nodes : List BpeNode) (index : ℕ)
    → Grows (collect_ids limit rounds nodes index)
unfolding collect_ids
Grows-collect_ids limit zero nodes index before middle r e =
    Grows-if (index == no_index) ok (λ out. throws logic_error) Grows-nothing
      (Grows-throws logic_error) before middle r e
Grows-collect_ids limit (suc rounds) nodes index before middle r e =
    Grows-choice (index == no_index) ok
      (λ out. require (ltb index (length nodes) && (node_at nodes index).alive) logic_error >>= λ _.
        encode_checked_push limit out (node_at nodes index).id >>= λ out'.
        collect_ids limit rounds nodes (node_at nodes index).next out')
      Grows-nothing
      (Grows-require (ltb index (length nodes) && (node_at nodes index).alive) logic_error _ (
        Grows-bind (λ out. encode_checked_push limit out (node_at nodes index).id)
          (collect_ids limit rounds nodes (node_at nodes index).next)
          (Grows-push limit (node_at nodes index).id)
          (Grows-collect_ids limit rounds nodes (node_at nodes index).next)))
      before middle r e

Grows-after {ℓ} :
    {A : Type ℓ} (m : Result A) (f : A → List ℕ → Result (List ℕ))
    → ((a : A) → Grows (f a))
    → Grows (λ out. m >>= λ a. f a out)
Grows-after (ok a) f grows = grows a
Grows-after (throws x) f grows = Grows-throws x

pub Grows-plain_span : (t : Tables) (plain : List ℕ) → Grows (append_encode_plain_span t plain)
unfolding append_encode_plain_span
Grows-plain_span t plain before middle r e =
    Grows-choice (length plain == 0) ok
      (λ out. normalize_encode_span t.limits.text plain t.normalizer >>= λ normalized.
        append_encode_initial_symbols t normalized >>= λ symbols.
        ended (apply_encode_bpe t.limits.heap t.merges symbols) >>= λ nodes.
        collect_ids t.limits.ids (length nodes) nodes (if length nodes == 0 then no_index else 0)
          out)
      Grows-nothing
      (Grows-after (normalize_encode_span t.limits.text plain t.normalizer) _ λ normalized.
        Grows-after (append_encode_initial_symbols t normalized) _ λ symbols.
          Grows-after (ended (apply_encode_bpe t.limits.heap t.merges symbols)) _ λ nodes.
            Grows-collect_ids t.limits.ids (length nodes) nodes
              (if length nodes == 0 then no_index else 0))
      before middle r e

pub Grows-encode_from :
    (t : Tables) (skip : ℕ) (text plain : List ℕ) → Grows (encode_from t skip text plain)
unfolding encode_from
Grows-encode_from t skip [] plain before middle r e = Grows-plain_span t plain before middle r e
Grows-encode_from t (suc skip) (c ∷ text) plain before middle r e =
    Grows-encode_from t skip text plain before middle r e
Grows-encode_from t zero (c ∷ text) plain before middle r e =
    let best = longest_match t.added_tokens (c ∷ text) (0, 0) in
    Grows-choice (best.0 == 0) (encode_from t zero text (plain ++ (c ∷ [])))
      (λ out. append_encode_plain_span t plain out >>= λ out'.
        encode_checked_push t.limits.ids out' best.1 >>= λ out''.
        encode_from t (best.0 - 1) text [] out'')
      (Grows-encode_from t zero text (plain ++ (c ∷ [])))
      (Grows-bind (append_encode_plain_span t plain)
        (λ out. encode_checked_push t.limits.ids out best.1 >>= encode_from t (best.0 - 1) text [])
        (Grows-plain_span t plain)
        (Grows-bind (λ out. encode_checked_push t.limits.ids out best.1)
          (encode_from t (best.0 - 1) text []) (Grows-push t.limits.ids best.1)
          (Grows-encode_from t (best.0 - 1) text [])))
      before middle r e
