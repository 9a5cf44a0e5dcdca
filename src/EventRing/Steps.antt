-- ===== src/EventRing/Steps.antt =====
-- Each operation on one submission keeps the invariant of the event ring.
use iom.Base.{
  ◌==◌, lt→ltb, Bool-cases, Result-cases, length, get_or, set, length-set, max_word, add_word,
  Exception, runtime_error, ℕ, zero, suc, ◌+◌, ◌≤◌, ◌≡◌, refl, sym, ap, subst, ◌∙◌, ◌≢◌, inl, inr,
  Bool, true, false, ◌||◌, List, [], ◌∷◌, map, arith,
}
use iom.Pool.{SlotPool, count_true}
use iom.EventRing.{
  EventRing, Policy, failed, fail_proof, success, snapshot_status_locked, on_worker_complete,
  wait_event, Submission, Slot, new_slot, slot_at, submission_at, set_submission,
  CompletionDisposition, pending, complete, retire_unknown, is_retire_unknown,
  set_retire_unknown_locked,
}
use iom.EventRing.Change.{
  IsValid, Owns, Agree, bit, changed-IsValid, changed-Owns, Owns-Agree, count_set,
}

pub set_self {ℓ} : {A : Type ℓ} (xs : List A) (i : ℕ) (d : A) → set xs i (get_or xs i d) ≡ xs
set_self [] i d = refl
set_self (x ∷ xs) zero d = refl
set_self (x ∷ xs) (suc i) d = ap (λ l. x ∷ l) (set_self xs i d)

-- What a change of the submission alone keeps.
pub record Kept (r' : EventRing) (s : ℕ) : Type 0 where
  pub valid : IsValid r'
  pub owns : Owns r' s

-- The submission and the pool of metadata slots change.
abbrev only : EventRing → ℕ → Submission → SlotPool → EventRing
only r s submission pool = record r {
  submissions = set r.submissions s submission;
  metadata_pool = pool;
}

pub submission-Kept :
    (r : EventRing) (s : ℕ) (submission : Submission) (pool : SlotPool)
    → IsValid r
    → Owns r s
    → Agree s (submission_at r s).pool_index submission (slot_at r (submission_at r s).pool_index)
    → Kept (only r s submission pool) s
submission-Kept r s submission pool v o a =
    let i = (submission_at r s).pool_index in
    let slot = slot_at r i in
    subst
      (λ (l : List Slot).
        Kept
          (record r {
            event_slots = l;
            submissions = set r.submissions s submission;
            metadata_pool = pool;
          })
          s)
      (set_self r.event_slots i (new_slot 0))
      (record {
        valid = changed-IsValid r s submission slot r.unproved_unknowns pool v o a refl;
        owns =
            changed-Owns r s submission slot r.unproved_unknowns pool v o a.place o.in_use o.owner;
      })

-- The disposition stays.
same_Agree :
    (s i : ℕ) (submission submission' : Submission) (slot : Slot)
    → submission'.pool_index ≡ submission.pool_index
    → submission'.disposition ≡ submission.disposition
    → Agree s i submission slot
    → Agree s i submission' slot
same_Agree s i submission submission' slot place disposition a = record {
  place = place ∙ a.place;
  unknown = λ unknown. a.unknown (sym disposition ∙ unknown);
  quarantined = λ q. (disposition ∙ (a.quarantined q).0, (a.quarantined q).1);
}

pub same-Kept :
    (r : EventRing) (s : ℕ) (submission : Submission) (pool : SlotPool)
    → IsValid r
    → Owns r s
    → submission.pool_index ≡ (submission_at r s).pool_index
    → submission.disposition ≡ (submission_at r s).disposition
    → Kept (only r s submission pool) s
same-Kept r s submission pool v o place disposition = submission-Kept r s submission pool v o (
    same_Agree s (submission_at r s).pool_index (submission_at r s) submission
      (slot_at r (submission_at r s).pool_index) place disposition (Owns-Agree r s v o))

-- A submission that is not retired unknown completes.
pub complete-Kept :
    (r : EventRing) (s : ℕ) (submission : Submission)
    → IsValid r
    → Owns r s
    → (submission_at r s).disposition ≢ retire_unknown
    → submission.pool_index ≡ (submission_at r s).pool_index
    → submission.disposition ≡ complete
    → Kept (set_submission r s submission) s
complete-Kept r s submission v o known place done =
    submission-Kept r s submission r.metadata_pool v o (record {
      place = place;
      unknown = λ unknown. absurd (not_both (sym done ∙ unknown));
      quarantined = λ q. absurd (known ((Owns-Agree r s v o).quarantined q).0);
    })
  where
    not_both : complete ≡ retire_unknown → ⊥
    not_both e = cc

pub count-length : (slots : List Slot) → count_true (map (λ x. x.quarantined) slots) ≤ length slots
count-length [] = omega arith
count-length (x ∷ slots) = ground (arith, count-length slots)

pub is_retire_unknown_lem :
    (d : CompletionDisposition) → is_retire_unknown d ≡ false → d ≢ retire_unknown
is_retire_unknown_lem pending e f = cc
is_retire_unknown_lem complete e f = cc
is_retire_unknown_lem retire_unknown e f = cc

pub set_retire_unknown_locked-Kept :
    (r : EventRing) (s : ℕ) → IsValid r → Owns r s → Kept (set_retire_unknown_locked r s) s
unfolding set_retire_unknown_locked
set_retire_unknown_locked-Kept r s v o =
    elim (Bool-cases (is_retire_unknown (submission_at r s).disposition)) [
      | inl already ↦ rw (already, set_retire_unknown_locked) (record { valid = v; owns = o })
      | inr first ↦
          let i = (submission_at r s).pool_index in
          let inside = lt→ltb i r.event_count (v.inside s o.created) in
          let slot : Slot = record (slot_at r i) { quarantined = true } in
          let submission : Submission = record (submission_at r s) {
            disposition = retire_unknown;
          } in
          let fresh = not_quarantined (is_retire_unknown_lem _ first) in
          rw (first, inside, set_retire_unknown_locked)
            (record {
              valid =
                  changed-IsValid r s submission slot (add_word r.unproved_unknowns 1)
                    r.metadata_pool v o
                    (record {
                      place = refl;
                      unknown = λ e. (refl, o.in_use, o.owner);
                      quarantined = λ e. (refl, (refl, o.in_use, o.owner));
                    })
                    (one_more fresh);
              owns =
                  changed-Owns r s submission slot (add_word r.unproved_unknowns 1) r.metadata_pool
                    v o refl o.in_use o.owner;
            })
    ]
  where
    not_quarantined :
        (submission_at r s).disposition ≢ retire_unknown
        → (slot_at r (submission_at r s).pool_index).quarantined ≡ false
    not_quarantined known =
        elim (Bool-cases (slot_at r (submission_at r s).pool_index).quarantined) [
          | inl q ↦ absurd (known ((Owns-Agree r s v o).quarantined q).0)
          | inr free ↦ free
        ]

    one_more :
        (slot_at r (submission_at r s).pool_index).quarantined ≡ false
        → add_word r.unproved_unknowns 1
            + bit (slot_at r (submission_at r s).pool_index).quarantined
          ≡ r.unproved_unknowns + 1
    one_more free =
        let i = (submission_at r s).pool_index in
        let slot : Slot = record (slot_at r i) { quarantined = true } in
        let more = count_set r.event_slots i slot (omega (arith, v.inside s o.created, v.size)) in
        let most = count-length (set r.event_slots i slot) in
        let long = length-set r.event_slots i slot in
        let none_old : bit (slot_at r i).quarantined ≡ 0 = ap bit free in
        let room : r.unproved_unknowns + 1 ≤ max_word =
          omega (arith, more, most, long, none_old, v.counted, v.size, v.word) in
        omega (arith, none_old, room)

pub fail_proof-Kept :
    (r : EventRing) (s : ℕ) (error : Exception)
    → IsValid r
    → Owns r s
    → Kept (fail_proof r s error) s
unfolding fail_proof
fail_proof-Kept r s error v o =
    let r' = set_retire_unknown_locked r s in
    let k = set_retire_unknown_locked-Kept r s v o in
    same-Kept r' s (record (submission_at r' s) { result = failed error }) r'.metadata_pool k.valid
      k.owns refl refl

pub snapshot-fields :
    (policy : Policy) (x : Submission)
    → ((snapshot_status_locked policy x).pool_index ≡ x.pool_index)
      × ((snapshot_status_locked policy x).disposition ≡ x.disposition)
      × ((snapshot_status_locked policy x).metadata_slot ≡ x.metadata_slot)
unfolding snapshot_status_locked
snapshot-fields policy x = elim (Bool-cases (x.status_cell == 0)) [
  | inl none_here ↦ rw (none_here, snapshot_status_locked) (refl, refl, refl)
  | inr some_cell ↦ rw (some_cell, snapshot_status_locked) (refl, refl, refl)
]

pub on_worker_complete-Kept :
    (policy : Policy) (r : EventRing) (s : ℕ)
    → IsValid r
    → Owns r s
    → ((submission_at r s).stream_drained || (submission_at r s).event_recorded ≡ true
        → (submission_at r s).disposition ≢ retire_unknown)
    → Kept (on_worker_complete policy r s).0 s
unfolding on_worker_complete
on_worker_complete-Kept policy r s v o known =
    let submission = submission_at r s in
    elim (Bool-cases submission.stream_drained) [
      | inl drained ↦ rw (drained, on_worker_complete) (proven (known (either_left _ drained)))
      | inr undrained ↦ elim (Bool-cases submission.event_recorded) [
        | inr unrecorded ↦
            rw (undrained, unrecorded, on_worker_complete) (fail_proof-Kept r s runtime_error v o)
        | inl recorded ↦ elim (Result-cases (wait_event policy r submission)) [
          | inl (u, waited) ↦
              rw (undrained, recorded, waited, on_worker_complete)
                (proven (known (either_right _ recorded)))
          | inr (x, broken) ↦
              rw (undrained, recorded, broken, on_worker_complete) (fail_proof-Kept r s x v o)
        ]
      ]
    ]
  where
    proven :
        (submission_at r s).disposition ≢ retire_unknown
        → Kept
            (set_submission r s (record (snapshot_status_locked policy (submission_at r s)) {
              synchronized_on_complete = true;
              disposition = complete;
              result = success;
            }))
            s
    proven free = complete-Kept r s _ v o free (snapshot-fields policy (submission_at r s)).0 refl

    either_left : {a : Bool} (b : Bool) → a ≡ true → a || b ≡ true
    either_left b e = ground arith

    either_right : (a : Bool) {b : Bool} → b ≡ true → a || b ≡ true
    either_right a e = ground arith
