-- ===== src/EventRing/Change.antt =====
-- The invariant of the event ring, and what keeps it when one submission and its slot change.
use iom.Base.{
  if◌then◌else◌, length, get_or, set, length-set, get_or-set_self, get_or-set_ne, max_word, ℕ, zero,
  suc, ◌+◌, ◌≤◌, ◌<◌, ◌≡◌, refl, sym, ap, subst, ◌∙◌, ◌≢◌, Bool, true, some, List, [], ◌∷◌, map,
  arith, ℕ_discrete,
}
use iom.Pool.{SlotPool, count_true}
use iom.EventRing.{EventRing, Submission, Slot, new_slot, slot_at, submission_at, retire_unknown}

-- The slot is taken by the submission, and kept for it.
abbrev pub KeptFor : Slot → ℕ → Type 0
KeptFor slot s = (slot.quarantined ≡ true) × (slot.in_use ≡ true) × (slot.owner ≡ some s)

-- The submission retired unknown with its slot.
abbrev pub RetiredWith : EventRing → ℕ → ℕ → Type 0
RetiredWith r s i =
    (s < length r.submissions)
    × ((submission_at r s).pool_index ≡ i)
    × ((submission_at r s).disposition ≡ retire_unknown)

-- A slot is quarantined exactly while the submission that has it retired unknown, and the count of
-- these is right.
pub record IsValid (r : EventRing) : Type 0 where
  pub size : length r.event_slots ≡ r.event_count
  pub word : r.event_count ≤ max_word
  pub inside : (s : ℕ) → s < length r.submissions → (submission_at r s).pool_index < r.event_count
  pub held :
      (s : ℕ)
      → s < length r.submissions
      → (submission_at r s).disposition ≡ retire_unknown
      → KeptFor (slot_at r (submission_at r s).pool_index) s
  pub kept :
      (i : ℕ)
      → i < length r.event_slots
      → (slot_at r i).quarantined ≡ true
      → (s : ℕ) × KeptFor (slot_at r i) s × RetiredWith r s i
  pub counted : r.unproved_unknowns ≡ count_true (map (λ slot. slot.quarantined) r.event_slots)

-- The submission has its slot.
pub record Owns (r : EventRing) (s : ℕ) : Type 0 where
  pub created : s < length r.submissions
  pub in_use : (slot_at r (submission_at r s).pool_index).in_use ≡ true
  pub owner : (slot_at r (submission_at r s).pool_index).owner ≡ some s

abbrev pub bit : Bool → ℕ
bit b = if b then 1 else 0

pub count_set :
    (slots : List Slot) (i : ℕ) (slot : Slot)
    → i < length slots
    → count_true (map (λ x. x.quarantined) (set slots i slot))
        + bit (get_or slots i (new_slot 0)).quarantined
      ≡ count_true (map (λ x. x.quarantined) slots) + bit slot.quarantined
count_set [] i slot h = absurd (omega (arith, h))
count_set (x ∷ slots) zero slot h = omega arith
count_set (x ∷ slots) (suc i) slot h = omega (arith, count_set slots i slot (omega (arith, h)))

-- A submission and its slot after a change agree on whether the completion is unknown.
pub record Agree (s i : ℕ) (submission : Submission) (slot : Slot) : Type 0 where
  pub place : submission.pool_index ≡ i
  pub unknown : submission.disposition ≡ retire_unknown → KeptFor slot s
  pub quarantined :
      slot.quarantined ≡ true → (submission.disposition ≡ retire_unknown) × KeptFor slot s

-- The ring with submission `s`, its slot `i` and the count changed.
abbrev pub changed : EventRing → ℕ → ℕ → Submission → Slot → ℕ → SlotPool → EventRing
changed r s i submission slot count pool = record r {
  event_slots = set r.event_slots i slot;
  submissions = set r.submissions s submission;
  unproved_unknowns = count;
  metadata_pool = pool;
}

module _ (r : EventRing) (s : ℕ) (submission : Submission) (slot : Slot) (count : ℕ)
    (pool : SlotPool) (v : IsValid r) (o : Owns r s) where
  abbrev i : ℕ
  i = (submission_at r s).pool_index

  abbrev r' : EventRing
  r' = changed r s i submission slot count pool

  submission_self : submission_at r' s ≡ submission
  submission_self = get_or-set_self r.submissions s submission _ o.created

  submission_other : (t : ℕ) → s ≢ t → submission_at r' t ≡ submission_at r t
  submission_other t ne = get_or-set_ne r.submissions s t submission _ ne

  slot_self : slot_at r' i ≡ slot
  slot_self = get_or-set_self r.event_slots i slot _ (omega (arith, v.inside s o.created, v.size))

  slot_other : (j : ℕ) → i ≢ j → slot_at r' j ≡ slot_at r j
  slot_other j ne = get_or-set_ne r.event_slots i j slot _ ne

  -- Another submission whose completion is unknown has another slot.
  apart :
      (t : ℕ)
      → t < length r.submissions
      → s ≢ t
      → (submission_at r t).disposition ≡ retire_unknown
      → i ≢ (submission_at r t).pool_index
  apart t ht ne unknown e =
      let (q, used, owner) = v.held t ht unknown in
      ne (same_some (sym o.owner ∙ ap (λ (k : ℕ). (slot_at r k).owner) e ∙ owner))
    where
      same_some : {x y : ℕ} → some x ≡ some y → x ≡ y
      same_some e = cc

  pub changed-IsValid :
      Agree s i submission slot
      → count + bit (slot_at r i).quarantined ≡ r.unproved_unknowns + bit slot.quarantined
      → IsValid r'
  changed-IsValid a c = record {
    size = length-set r.event_slots i slot ∙ v.size;
    word = v.word;
    inside = λ t ht. elim (ℕ_discrete s t) [
      | yes e ↦
          subst (λ (k : ℕ). (submission_at r' k).pool_index < r.event_count) e
            (subst (λ (x : Submission). x.pool_index < r.event_count) (sym submission_self)
              (omega (arith, a.place, v.inside s o.created)))
      | no ne ↦
          subst (λ (x : Submission). x.pool_index < r.event_count) (sym (submission_other t ne))
            (v.inside t (omega (arith, ht, size')))
    ];
    held = λ t ht unknown. elim (ℕ_discrete s t) [
      | yes e ↦
          subst (λ (k : ℕ). KeptFor (slot_at r' (submission_at r' k).pool_index) k) e
            (subst (λ (j : ℕ). KeptFor (slot_at r' j) s)
              (sym (ap (λ (x : Submission). x.pool_index) submission_self ∙ a.place))
              (subst (λ (x : Slot). KeptFor x s) (sym slot_self)
                (a.unknown (
                  ap (λ (x : Submission). x.disposition)
                    (sym submission_self ∙ ap (submission_at r') e)
                  ∙ unknown))))
      | no ne ↦
          let same = submission_other t ne in
          let ht' : t < length r.submissions = omega (arith, ht, size') in
          let unknown' = sym (ap (λ (x : Submission). x.disposition) same) ∙ unknown in
          subst (λ (x : Submission). KeptFor (slot_at r' x.pool_index) t) (sym same)
            (subst (λ (x : Slot). KeptFor x t)
              (sym (slot_other (submission_at r t).pool_index (apart t ht' ne unknown')))
              (v.held t ht' unknown'))
    ];
    kept = λ j hj quarantined. elim (ℕ_discrete i j) [
      | yes e ↦
          let (unknown, kept) = a.quarantined (
            sym (ap (λ (x : Slot). x.quarantined) slot_self)
            ∙ ap (λ (k : ℕ). (slot_at r' k).quarantined) e
            ∙ quarantined) in
          (
            s,
            subst (λ (k : ℕ). KeptFor (slot_at r' k) s) e
                (subst (λ (x : Slot). KeptFor x s) (sym slot_self) kept),
            (
              omega (arith, o.created, size'),
              ap (λ (x : Submission). x.pool_index) submission_self ∙ a.place ∙ e,
              ap (λ (x : Submission). x.disposition) submission_self ∙ unknown,
            ),
          )
      | no ne ↦
          let same = slot_other j ne in
          let (t, kept, (ht, place, unknown)) =
            v.kept j (omega (arith, hj, length-set r.event_slots i slot))
              (sym (ap (λ (x : Slot). x.quarantined) same) ∙ quarantined) in
          let st : s ≢ t = λ e. ne (ap (λ (k : ℕ). (submission_at r k).pool_index) e ∙ place) in
          let same_t = submission_other t st in
          (
            t,
            subst (λ (x : Slot). KeptFor x t) (sym same) kept,
            (
              omega (arith, ht, size'),
              ap (λ (x : Submission). x.pool_index) same_t ∙ place,
              ap (λ (x : Submission). x.disposition) same_t ∙ unknown,
            ),
          )
    ];
    counted = omega (
      arith,
      c,
      v.counted,
      count_set r.event_slots i slot (omega (arith, v.inside s o.created, v.size)),
    );
  }
    where
      size' : length r'.submissions ≡ length r.submissions
      size' = length-set r.submissions s submission

pub changed-Owns :
    (r : EventRing) (s : ℕ) (submission : Submission) (slot : Slot) (count : ℕ) (pool : SlotPool)
    → IsValid r
    → Owns r s
    → submission.pool_index ≡ (submission_at r s).pool_index
    → slot.in_use ≡ true
    → slot.owner ≡ some s
    → Owns (changed r s (submission_at r s).pool_index submission slot count pool) s
changed-Owns r s submission slot count pool v o place used owner = record {
  created = omega (arith, o.created, length-set r.submissions s submission);
  in_use = ap (λ (x : Slot). x.in_use) here ∙ used;
  owner = ap (λ (x : Slot). x.owner) here ∙ owner;
}
  where
    r' : EventRing
    r' = changed r s (submission_at r s).pool_index submission slot count pool

    here : slot_at r' (submission_at r' s).pool_index ≡ slot
    here =
        ap (λ (x : Submission). slot_at r' x.pool_index)
          (submission_self r s submission slot count pool v o)
        ∙ ap (slot_at r') place
        ∙ slot_self r s submission slot count pool v o

-- A submission that has its slot agrees with it.
pub Owns-Agree :
    (r : EventRing) (s : ℕ)
    → IsValid r
    → Owns r s
    → Agree s
        (submission_at r s).pool_index
        (submission_at r s)
        (slot_at r (submission_at r s).pool_index)
Owns-Agree r s v o = record {
  place = refl;
  unknown = λ unknown. v.held s o.created unknown;
  quarantined = λ quarantined.
      let i = (submission_at r s).pool_index in
      let (t, kept, (ht, place, unknown)) =
        v.kept i (omega (arith, v.inside s o.created, v.size)) quarantined in
      let same : t ≡ s = same_some (sym kept.2 ∙ o.owner) in
      (
        subst (λ (k : ℕ). (submission_at r k).disposition ≡ retire_unknown) same unknown,
        subst (KeptFor (slot_at r i)) same kept,
      );
}
  where
    same_some : {x y : ℕ} → some x ≡ some y → x ≡ y
    same_some e = cc
