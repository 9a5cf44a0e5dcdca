-- ===== src/Selection/Scan.antt =====
-- `scan_logits`: the token it selects.
use iom.Base.{
  Bool-cases, max_word, add_word, runtime_error, Result, ok, throws, ℕ, zero, suc, ◌+◌, ◌-◌, ◌≤◌,
  ◌<◌, ◌≡◌, refl, ◌⊎◌, inl, inr, true, false, List, arith, dec_lt,
}
use iom.Selection.{Float, load_bf16, decode_bf16, greater, nonfinite, scan_from, scan_logits}
use iom.Selection.Order.{greater_irreflexive, greater_transitive, greater_above, greater_asymmetric}

abbrev pub logit : List ℕ → ℕ → Float
logit bytes i = decode_bf16 (load_bf16 bytes i)

-- `w` is the least of the first `n` tokens with the greatest logit, all of them finite.
pub record IsSelected (bytes : List ℕ) (n w : ℕ) : Type 0 where
  pub below : w < n
  pub finite : (i : ℕ) → i < n → nonfinite (load_bf16 bytes i) ≡ false
  pub greatest : (i : ℕ) → i < n → greater (logit bytes i) (logit bytes w) ≡ false
  pub first : (i : ℕ) → i < w → greater (logit bytes w) (logit bytes i) ≡ true

module _ (bytes : List ℕ) (n w : ℕ) (s : IsSelected bytes n w)
    (finite : nonfinite (load_bf16 bytes n) ≡ false) where
  last : (i : ℕ) → i < n + 1 → (i < n) ⊎ (i ≡ n)
  last i h = elim (dec_lt i n) [ yes less ↦ inl less | no not_less ↦ inr (omega arith) ]

  more_finite : (i : ℕ) → i < n + 1 → nonfinite (load_bf16 bytes i) ≡ false
  more_finite i h = elim (last i h) [ inl less ↦ s.finite i less | inr e ↦ rw e finite ]

  -- The next logit is greater than all before...
  pub replaced : greater (logit bytes n) (logit bytes w) ≡ true → IsSelected bytes (n + 1) n
  replaced more = record {
    below = omega arith;
    finite = more_finite;
    greatest = λ i h. elim (last i h) [
      | inl less ↦
          greater_transitive (logit bytes i) (logit bytes w) (logit bytes n) (s.greatest i less)
            (greater_asymmetric (logit bytes n) (logit bytes w) more)
      | inr e ↦ rw e (greater_irreflexive (logit bytes n))
    ];
    first =
        λ i h. greater_above (logit bytes n) (logit bytes w) (logit bytes i) more (s.greatest i h);
  }

  -- ...or not.
  pub retained : greater (logit bytes n) (logit bytes w) ≡ false → IsSelected bytes (n + 1) w
  retained less = record {
    below = omega (arith, s.below);
    finite = more_finite;
    greatest = λ i h. elim (last i h) [ inl l ↦ s.greatest i l | inr e ↦ rw e less ];
    first = s.first;
  }

abbrev pub Outcome : List ℕ → ℕ → Result ℕ → Type 0
Outcome bytes n r =
    ((w : ℕ) × (r ≡ ok w) × IsSelected bytes n w)
    ⊎ ((r ≡ throws runtime_error) × ((i : ℕ) × (i < n) × (nonfinite (load_bf16 bytes i) ≡ true)))

scan_from_lem :
    (rounds : ℕ) (bytes : List ℕ) (id w : ℕ)
    → id + rounds ≤ max_word
    → IsSelected bytes id w
    → Outcome bytes (id + rounds) (scan_from bytes rounds id (logit bytes w) w)
unfolding scan_from
scan_from_lem zero bytes id w h s =
    let none_left : id + 0 ≡ id = omega arith in inl (w, refl, rw none_left s)
scan_from_lem (suc rounds) bytes id w h s = elim (Bool-cases (nonfinite (load_bf16 bytes id))) [
  | inl bad ↦ inr (rw bad refl, (id, omega arith, bad))
  | inr good ↦ elim (Bool-cases (greater (logit bytes id) (logit bytes w))) [
    | inl more ↦
        rw (good, more, next, sum)
          (scan_from_lem rounds bytes (id + 1) id (omega arith) (replaced bytes id w s good more))
    | inr less ↦
        rw (good, less, next, sum)
          (scan_from_lem rounds bytes (id + 1) w (omega arith) (retained bytes id w s good less))
  ]
]
  where
    next : add_word id 1 ≡ id + 1
    next = omega arith

    sum : id + suc rounds ≡ id + 1 + rounds
    sum = omega arith

-- For a nonzero vocabulary whose size is a word, `scan_logits` yields the least token whose
-- logit no other exceeds, and all logits are finite; or it throws `runtime_error`, and some
-- logit is not finite.
pub scan_logits_lem :
    (bytes : List ℕ) (vocabulary : ℕ)
    → 0 < vocabulary
    → vocabulary ≤ max_word
    → Outcome bytes vocabulary (scan_logits bytes vocabulary)
unfolding scan_logits
scan_logits_lem bytes vocabulary pos w = elim (Bool-cases (nonfinite (load_bf16 bytes 0))) [
  | inl bad ↦ inr (rw bad refl, (0, pos, bad))
  | inr good ↦
      let sum : 1 + (vocabulary - 1) ≡ vocabulary = omega arith in
      rw good (
        rw sum at (
          scan_from_lem (vocabulary - 1) bytes 1 0 (omega arith) (record {
            below = omega arith;
            finite = λ i h. let zeroth : i ≡ 0 = omega arith in rw zeroth good;
            greatest = λ i h.
                let zeroth : i ≡ 0 = omega arith in rw zeroth (greater_irreflexive (logit bytes 0));
            first = λ i h. absurd (omega arith);
          })))
]
