-- ===== src/Tokenizer/Pieces/Sizes.antt =====
-- Decoding: the loops over a piece against a scan that replaces the pattern byte by byte.
use mathlib.Core.List.{append_assoc}
use iom.Base.{
  ltb, ◌==◌, if◌then◌else◌, Bool-cases, length, take, drop, length-append, max_word, overflow_error,
  Result, ok, throws, ◌>>=◌, ℕ, zero, suc, ◌+◌, ◌-◌, ◌≤◌, ◌<◌, ◌≡◌, refl, sym, ap, ◌∙◌, inl, inr,
  true, false, none, some, List, [], ◌∷◌, ◌++◌, arith, dec_lt,
}
use iom.Tokenizer.Pieces.{
  DecoderState, starts_with, find, checked_decode_size_add, size_from, append_from,
}

-- The text with the pattern replaced from the left; `skip` bytes of a match are still to be
-- passed.
unfoldable pub replace : List ℕ → List ℕ → ℕ → List ℕ → List ℕ
replace pattern content skip [] = []
replace pattern content (suc skip) (c ∷ text) = replace pattern content skip text
replace pattern content zero (c ∷ text) = elim (starts_with pattern (c ∷ text)) [
  | true ↦ content ++ replace pattern content (length pattern - 1) text
  | false ↦ c ∷ replace pattern content zero text
]

replace_skip :
    (pattern content text : List ℕ) (k : ℕ)
    → replace pattern content k text ≡ replace pattern content 0 (drop k text)
unfolding replace
replace_skip pattern content [] zero = refl
replace_skip pattern content [] (suc k) = refl
replace_skip pattern content (c ∷ text) zero = refl
replace_skip pattern content (c ∷ text) (suc k) = replace_skip pattern content text k

length-starts_with :
    (pattern text : List ℕ) → starts_with pattern text ≡ true → length pattern ≤ length text
length-starts_with [] text e = omega arith
length-starts_with (p ∷ pattern) [] e = cc
length-starts_with (p ∷ pattern) (c ∷ text) e =
    let rest : starts_with pattern text ≡ true = ground arith in
    omega (arith, length-starts_with pattern text rest)

-- No match, or the first one.
data Search (pattern content text : List ℕ) : Type 0 where
  absent :
      find pattern text ≡ none → replace pattern content 0 text ≡ text → Search pattern content text
  present :
      (ahead : ℕ)
      → find pattern text ≡ some ahead
      → length pattern + ahead ≤ length text
      → replace pattern content 0 text
        ≡ take ahead text
          ++ (content ++ replace pattern content 0 (drop (length pattern + ahead) text))
      → Search pattern content text

further :
    (pattern content text : List ℕ) (c : ℕ)
    → starts_with pattern (c ∷ text) ≡ false
    → Search pattern content text
    → Search pattern content (c ∷ text)
unfolding find replace
further pattern content text c no_match (absent e same) =
    absent (rw (no_match, find, e) refl) (rw (no_match, replace, same) refl)
further pattern content text c no_match (present ahead e within same) =
    let onward : length pattern + suc ahead ≡ suc (length pattern + ahead) = omega arith in
    present (suc ahead) (rw (no_match, find, e) refl) (omega arith)
      (rw (onward, no_match, replace, same) refl)

search_lem : (pattern content text : List ℕ) → 0 < length pattern → Search pattern content text
unfolding find replace
search_lem pattern content [] pos =
    absent (let some_length : (length pattern == 0) ≡ false = ground arith in rw some_length refl)
      refl
search_lem pattern content (c ∷ text) pos = elim (Bool-cases (starts_with pattern (c ∷ text))) [
  | inl match ↦
      let one : length pattern + 0 ≡ suc (length pattern - 1) = omega arith in
      present 0 (rw match refl) (omega (arith, length-starts_with pattern (c ∷ text) match)) (
        rw (one, match, replace)
          (ap (λ (t : List ℕ). content ++ t)
            (replace_skip pattern content text (length pattern - 1))))
  | inr no_match ↦ further pattern content text c no_match (search_lem pattern content text pos)
]

-- A size, or an overflow.
abbrev pub sized : ℕ → Result ℕ
sized n = if ltb max_word n then throws overflow_error else ok n

pub add_sized : (a b : ℕ) → a ≤ max_word → checked_decode_size_add a b ≡ sized (a + b)
unfolding checked_decode_size_add
add_sized a b h = ground arith

length-drop : (k : ℕ) (xs : List ℕ) → length (drop k xs) ≡ length xs - k
length-drop zero xs = omega arith
length-drop (suc k) [] = omega arith
length-drop (suc k) (x ∷ xs) = omega (arith, length-drop k xs)

length-take : (k : ℕ) (xs : List ℕ) → k ≤ length xs → length (take k xs) ≡ k
length-take zero xs h = refl
length-take (suc k) [] h = absurd (omega arith)
length-take (suc k) (x ∷ xs) h = omega (arith, length-take k xs (omega arith))

pub sized_bind :
    (n m : ℕ) (f : ℕ → Result ℕ)
    → n ≤ m
    → (n ≤ max_word → f n ≡ sized m)
    → (sized n >>= f) ≡ sized m
sized_bind n m f h k = elim (dec_lt max_word n) [
  | yes over ↦ ground arith
  | no fits ↦ let small : ltb max_word n ≡ false = ground arith in rw small (k (omega arith))
]

pub size_from_lem :
    (rounds : ℕ) (d : DecoderState) (text : List ℕ) (total : ℕ)
    → 0 < length d.replace_pattern
    → length text < rounds
    → total ≤ max_word
    → size_from rounds d text total
      ≡ sized (total + length (replace d.replace_pattern d.replace_content 0 text))
unfolding size_from
size_from_lem zero d text total pos enough w = absurd (omega arith)
size_from_lem (suc rounds) d text total pos enough w =
    elim (search_lem d.replace_pattern d.replace_content text pos) [
      | absent e same ↦ rw (e, same, size_from) (add_sized total (length text) w)
      | present ahead e within same ↦
          let tail = drop (length d.replace_pattern + ahead) text in
          let behind = replace d.replace_pattern d.replace_content 0 tail in
          let whole : total + length (replace d.replace_pattern d.replace_content 0 text)
              ≡ total + ahead + length d.replace_content + length behind =
            omega (
              arith,
              ap length same,
              length-append (take ahead text) (d.replace_content ++ behind),
              length-append d.replace_content behind,
              length-take ahead text (omega arith),
            ) in
          rw (e, whole, add_sized total ahead w, size_from)
            (sized_bind (total + ahead) _ _ (omega arith) λ fits.
              rw (add_sized (total + ahead) (length d.replace_content) fits) (
                sized_bind (total + ahead + length d.replace_content) _ _ (omega arith) λ fits'.
                  size_from_lem rounds d tail (total + ahead + length d.replace_content) pos
                    (omega (arith, length-drop (length d.replace_pattern + ahead) text)) fits'))
    ]

pub append_from_lem :
    (rounds : ℕ) (d : DecoderState) (text output : List ℕ)
    → 0 < length d.replace_pattern
    → length text < rounds
    → append_from rounds d text output
      ≡ ok (output ++ replace d.replace_pattern d.replace_content 0 text)
unfolding append_from
append_from_lem zero d text output pos enough = absurd (omega arith)
append_from_lem (suc rounds) d text output pos enough =
    elim (search_lem d.replace_pattern d.replace_content text pos) [
      | absent e same ↦ rw (e, same, append_from) refl
      | present ahead e within same ↦
          let tail = drop (length d.replace_pattern + ahead) text in
          let behind = replace d.replace_pattern d.replace_content 0 tail in
          rw (e, append_from)
            (append_from_lem rounds d tail ((output ++ take ahead text) ++ d.replace_content) pos
                (omega (arith, length-drop (length d.replace_pattern + ahead) text))
              ∙ ap ok (
                  append_assoc (output ++ take ahead text) d.replace_content behind
                  ∙ append_assoc output (take ahead text) (d.replace_content ++ behind)
                  ∙ ap (λ (t : List ℕ). output ++ t) (sym same)))
    ]
