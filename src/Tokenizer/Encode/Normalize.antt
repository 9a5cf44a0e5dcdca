-- ===== src/Tokenizer/Encode/Normalize.antt =====
-- `normalize_encode_span`: the text that it yields.
use mathlib.Core.List.{append_assoc, append-nil}
use iom.Base.{
  leb, ◌!=◌, Bool-cases, length, overflow_error, ok, require, >>=-eq-ok, ok-injective, ℕ, zero, suc,
  ◌-◌, ◌<◌, ◌≡◌, sym, ap, ◌∙◌, inl, inr, true, List, [], ◌∷◌, ◌++◌, arith,
}
use iom.Tokenizer.Pieces.{starts_with}
use iom.Tokenizer.Pieces.Sizes.{replace}
use iom.Tokenizer.Encode.{
  NormalizerState, encode_checked_append, encode_checked_add, normalize_from, normalize_encode_span,
}

append-ok :
    (limit : ℕ) (target value : List ℕ) {r : List ℕ}
    → encode_checked_append limit target value ≡ ok r
    → r ≡ target ++ value
unfolding encode_checked_append
append-ok limit target value e = ground arith

normalize_from_lem :
    (limit : ℕ) (n : NormalizerState) (skip : ℕ) (plain normalized : List ℕ) {r : List ℕ}
    → 0 < length n.replace_pattern
    → normalize_from limit n skip plain normalized ≡ ok r
    → r ≡ normalized ++ replace n.replace_pattern n.replace_content skip plain
unfolding normalize_from replace
normalize_from_lem limit n skip [] normalized {r} pos e =
    sym (ok-injective normalized r (unfold normalize_from in e)) ∙ sym (append-nil normalized)
normalize_from_lem limit n (suc skip) (c ∷ plain) normalized pos e =
    normalize_from_lem limit n skip plain normalized pos e
normalize_from_lem limit n zero (c ∷ plain) normalized {r} pos e =
    let some_pattern : (length n.replace_pattern != 0) ≡ true = ground arith in
    elim (Bool-cases (starts_with n.replace_pattern (c ∷ plain))) [
      | inl match ↦
          let (normalized', e1, r1) =
            >>=-eq-ok (encode_checked_append limit normalized n.replace_content) _
              (rw (some_pattern, match, normalize_from) at e) in
          rw (match, replace)
            (normalize_from_lem limit n (length n.replace_pattern - 1) plain normalized' pos r1
              ∙ ap
                  (λ (t : List ℕ).
                    t
                    ++ replace n.replace_pattern n.replace_content (length n.replace_pattern - 1)
                        plain)
                  (append-ok limit normalized n.replace_content e1)
              ∙ append_assoc normalized n.replace_content _)
      | inr no_match ↦
          let (normalized', e1, r1) =
            >>=-eq-ok (encode_checked_append limit normalized (c ∷ [])) _
              (rw (some_pattern, no_match, normalize_from) at e) in
          rw (no_match, replace)
            (normalize_from_lem limit n zero plain normalized' pos r1
              ∙ ap (λ (t : List ℕ). t ++ replace n.replace_pattern n.replace_content zero plain)
                  (append-ok limit normalized (c ∷ []) e1)
              ∙ append_assoc normalized (c ∷ []) _)
    ]

-- Where the pattern is not empty and `normalize_encode_span` succeeds, the result is the
-- prepended text followed by the given text with every match of the pattern replaced, from the
-- left.
pub normalize_encode_span_lem :
    (limit : ℕ) (plain : List ℕ) (n : NormalizerState) {r : List ℕ}
    → 0 < length n.replace_pattern
    → normalize_encode_span limit plain n ≡ ok r
    → r ≡ n.prepend ++ replace n.replace_pattern n.replace_content 0 plain
unfolding normalize_encode_span
normalize_encode_span_lem limit plain n pos e =
    let (size, e1, r1) = >>=-eq-ok (encode_checked_add (length plain) (length n.prepend)) _ e in
    let (_, e2, r2) = >>=-eq-ok (require (leb size limit) overflow_error) _ r1 in
    let (start, e3, r3) = >>=-eq-ok (encode_checked_append limit [] n.prepend) _ r2 in
    normalize_from_lem limit n zero plain start pos r3
    ∙ ap (λ (t : List ℕ). t ++ replace n.replace_pattern n.replace_content zero plain)
        (append-ok limit [] n.prepend e3)
