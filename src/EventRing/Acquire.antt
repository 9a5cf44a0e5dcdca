-- ===== src/EventRing/Acquire.antt =====
-- The construction of an event ring, and the acquisition of an event.
use iom.Base.{
  length, get_or, set, length-append, length-set, get_or-set_self, get_or-set_ne,
  get_or-append_left, get_or-append_last, ok, ℕ, zero, suc, ◌<◌, ◌≡◌, refl, sym, ap, subst, ◌∙◌,
  ◌≢◌, ◌⊎◌, inl, inr, true, false, none, some, List, [], ◌∷◌, ◌++◌, map, arith, dec_lt, ℕ_discrete,
}
use iom.Pool.{first_free}
use iom.Pool.Inv.{first_free_lem}
use iom.EventRing.{
  EventRing, Submission, Slot, new_slot, new_submission, slot_at, submission_at, pending,
  retire_unknown, try_acquire,
}
use iom.EventRing.Change.{IsValid, KeptFor, count_set}

length-map : (slots : List Slot) → length (map (λ x. x.in_use) slots) ≡ length slots
length-map [] = refl
length-map (x ∷ slots) = ap suc (length-map slots)

get_or-map :
    (slots : List Slot) (i : ℕ)
    → i < length slots
    → get_or (map (λ x. x.in_use) slots) i false ≡ (get_or slots i (new_slot 0)).in_use
get_or-map [] i h = absurd (omega (arith, h))
get_or-map (x ∷ slots) zero h = refl
get_or-map (x ∷ slots) (suc i) h = get_or-map slots i (omega (arith, h))

-- The ring after an acquisition of slot `index`.
abbrev pub acquired : EventRing → ℕ → EventRing
acquired r index = record r {
  event_slots =
      set r.event_slots index
        (record (slot_at r index) { in_use = true; owner = some (length r.submissions) });
  submissions = r.submissions ++ (new_submission index ∷ []);
}

-- An acquisition gets a slot that is not in use, or none and changes nothing.
pub try_acquire-cases :
    (r : EventRing)
    → ((index : ℕ) × (index < length r.event_slots)
        × ((slot_at r index).in_use ≡ false)
        × (try_acquire (ok tt) r ≡ ok (some (length r.submissions), acquired r index)))
      ⊎ (try_acquire (ok tt) r ≡ ok (none, r))
unfolding try_acquire
try_acquire-cases r = elim (first_free_lem 0 (map (λ x. x.in_use) r.event_slots)) [
  | inr (e, all) ↦ inr (rw (e, try_acquire) refl)
  | inl (k, e, h, free) ↦
      let found : first_free 0 (map (λ x. x.in_use) r.event_slots) ≡ some k =
        e ∙ ap some (omega arith) in
      let inside : k < length r.event_slots = omega (arith, h, length-map r.event_slots) in
      inl (k, inside, sym (get_or-map r.event_slots k inside) ∙ free, rw (found, try_acquire) refl)
]

module _ (r : EventRing) (index : ℕ) (v : IsValid r) (inside : index < length r.event_slots)
    (free : (slot_at r index).in_use ≡ false) where
  abbrev r' : EventRing
  r' = acquired r index

  abbrev n : ℕ
  n = length r.submissions

  more : length r'.submissions ≡ suc n
  more = omega (arith, length-append r.submissions (new_submission index ∷ []))

  submission_old : (t : ℕ) → t < n → submission_at r' t ≡ submission_at r t
  submission_old t h = get_or-append_left r.submissions _ t _ h

  pub submission_new : submission_at r' n ≡ new_submission index
  submission_new = get_or-append_last r.submissions _ _

  slot_other : (j : ℕ) → index ≢ j → slot_at r' j ≡ slot_at r j
  slot_other j ne = get_or-set_ne r.event_slots index j _ _ ne

  -- The slot of a submission that retired unknown is another one.
  pub unknown-apart :
      (t : ℕ)
      → t < n
      → (submission_at r t).disposition ≡ retire_unknown
      → index ≢ (submission_at r t).pool_index
  unknown-apart t h unknown e =
      false_true (sym free ∙ ap (λ (k : ℕ). (slot_at r k).in_use) e ∙ (v.held t h unknown).1)
    where
      false_true : false ≡ true → ⊥
      false_true e = cc

  pub acquired-IsValid : IsValid r'
  acquired-IsValid = record {
    size = length-set r.event_slots index _ ∙ v.size;
    word = v.word;
    inside = λ t ht. elim (dec_lt t n) [
      | yes lt ↦
          subst (λ (x : Submission). x.pool_index < r.event_count) (sym (submission_old t lt))
            (v.inside t lt)
      | no ge ↦
          subst (λ (k : ℕ). (submission_at r' k).pool_index < r.event_count) (newest t ht ge)
            (subst (λ (x : Submission). x.pool_index < r.event_count) (sym submission_new)
              (omega (arith, inside, v.size)))
    ];
    held = λ t ht unknown. elim (dec_lt t n) [
      | yes lt ↦
          let same = submission_old t lt in
          let unknown' = sym (ap (λ (x : Submission). x.disposition) same) ∙ unknown in
          subst (λ (x : Submission). KeptFor (slot_at r' x.pool_index) t) (sym same)
            (subst (λ (x : Slot). KeptFor x t)
              (sym (slot_other (submission_at r t).pool_index (unknown-apart t lt unknown')))
              (v.held t lt unknown'))
      | no ge ↦ absurd (
          not_both (
            ap (λ (x : Submission). x.disposition)
              (sym submission_new ∙ ap (submission_at r') (newest t ht ge))
            ∙ unknown))
    ];
    kept = λ j hj quarantined. elim (ℕ_discrete index j) [
      | yes e ↦ absurd (
          taken
            (sym (quarantined_same) ∙ ap (λ (k : ℕ). (slot_at r' k).quarantined) e ∙ quarantined))
      | no ne ↦
          let same = slot_other j ne in
          let (t, kept, (ht, place, unknown)) =
            v.kept j (omega (arith, hj, length-set r.event_slots index taken_slot))
              (sym (ap (λ (x : Slot). x.quarantined) same) ∙ quarantined) in
          let same_t = submission_old t ht in
          (
            t,
            subst (λ (x : Slot). KeptFor x t) (sym same) kept,
            (
              omega (arith, ht, more),
              ap (λ (x : Submission). x.pool_index) same_t ∙ place,
              ap (λ (x : Submission). x.disposition) same_t ∙ unknown,
            ),
          )
    ];
    counted = omega (arith, v.counted, count_set r.event_slots index taken_slot inside);
  }
    where
      taken_slot : Slot
      taken_slot = record (slot_at r index) { in_use = true; owner = some n }

      quarantined_same : (slot_at r' index).quarantined ≡ (slot_at r index).quarantined
      quarantined_same =
          ap (λ (x : Slot). x.quarantined)
            (get_or-set_self r.event_slots index taken_slot (new_slot 0) inside)

      newest : (t : ℕ) → t < length r'.submissions → ¬ (t < n) → n ≡ t
      newest t ht ge = omega (arith, ht, ge, more)

      not_both : pending ≡ retire_unknown → ⊥
      not_both e = cc

      true_false : true ≡ false → ⊥
      true_false e = cc

      taken : (slot_at r index).quarantined ≡ true → ⊥
      taken q = let (t, kept, rest) = v.kept index inside q in true_false (sym kept.1 ∙ free)
