-- ===== src/EventRing/Events.antt =====
-- The events in the slots of a ring, through each of its operations and any history of them.
use iom.Base.{
  ltb, ◌==◌, Bool-cases, Result-cases, length, get_or, set, Exception, runtime_error, ok-injective,
  ℕ, zero, suc, ◌≡◌, refl, sym, ap, ◌∙◌, inl, inr, not, ◌&&◌, Option, none, some, List, [], ◌∷◌,
  map,
}
use iom.EventRing.{
  EventRing, Slot, new_slot, slot_at, submission_at, Policy, no_attached_slot, is_retire_unknown,
  is_complete, owned_by, wait_event, attach_metadata_slot, attach_status_cell, mark_event_recorded,
  mark_stream_drained, set_retire_unknown_locked, fail_proof, on_worker_complete, prove_late,
  settle_metadata, on_worker_destroy, release_resource_locked,
}
use iom.EventRing.Acquire.{try_acquire-cases, acquired}
use iom.EventRing.History.{
  Step, Run, stay, go, acquires, attaches, reports, records, drains, retires, completes, destroys,
  drops,
}

abbrev pub events : EventRing → List ℕ
events r = map (λ slot. slot.event) r.event_slots

set-events :
    (slots : List Slot) (i : ℕ) (slot : Slot)
    → slot.event ≡ (get_or slots i (new_slot 0)).event
    → map (λ x. x.event) (set slots i slot) ≡ map (λ x. x.event) slots
set-events [] i slot e = refl
set-events (x ∷ slots) zero slot e = ap (λ k. k ∷ map (λ x. x.event) slots) e
set-events (x ∷ slots) (suc i) slot e = ap (λ l. x.event ∷ l) (set-events slots i slot e)

set_retire_unknown_locked-events :
    (r : EventRing) (s : ℕ) → events (set_retire_unknown_locked r s) ≡ events r
unfolding set_retire_unknown_locked
set_retire_unknown_locked-events r s =
    elim (Bool-cases (is_retire_unknown (submission_at r s).disposition)) [
      | inl already ↦ rw (already, set_retire_unknown_locked) refl
      | inr first ↦ elim (Bool-cases (ltb (submission_at r s).pool_index r.event_count)) [
        | inl inside ↦
            rw (first, inside, set_retire_unknown_locked)
              (set-events r.event_slots (submission_at r s).pool_index _ refl)
        | inr outside ↦ rw (first, outside, set_retire_unknown_locked) refl
      ]
    ]

fail_proof-events : (r : EventRing) (s : ℕ) (x : Exception) → events (fail_proof r s x) ≡ events r
unfolding fail_proof
fail_proof-events r s x = set_retire_unknown_locked-events r s

on_worker_complete-events :
    (policy : Policy) (r : EventRing) (s : ℕ) → events (on_worker_complete policy r s).0 ≡ events r
unfolding on_worker_complete
on_worker_complete-events policy r s =
    let submission = submission_at r s in
    elim (Bool-cases submission.stream_drained) [
      | inl drained ↦ rw (drained, on_worker_complete) refl
      | inr undrained ↦ elim (Bool-cases submission.event_recorded) [
        | inr unrecorded ↦
            rw (undrained, unrecorded, on_worker_complete) (fail_proof-events r s runtime_error)
        | inl recorded ↦ elim (Result-cases (wait_event policy r submission)) [
          | inl (u, waited) ↦ rw (undrained, recorded, waited, on_worker_complete) refl
          | inr (x, broken) ↦
              rw (undrained, recorded, broken, on_worker_complete) (fail_proof-events r s x)
        ]
      ]
    ]

prove_late-events :
    (policy : Policy) (r : EventRing) (s : ℕ) → events (prove_late policy r s) ≡ events r
unfolding prove_late
prove_late-events policy r s =
    let submission = submission_at r s in
    let late = not submission.synchronized_on_complete in
    elim (Bool-cases (late && submission.stream_drained)) [
      | inl drained ↦ rw (drained, prove_late) refl
      | inr undrained ↦ elim (Bool-cases (late && submission.event_recorded)) [
        | inr unrecorded ↦ rw (undrained, unrecorded, prove_late) refl
        | inl recorded ↦ elim (Result-cases (wait_event policy r submission)) [
          | inr (x, broken) ↦ rw (undrained, recorded, broken, prove_late) (fail_proof-events r s x)
          | inl (u, waited) ↦ elim (Bool-cases (is_retire_unknown submission.disposition)) [
            | inl unknown ↦
                rw (undrained, recorded, waited, unknown, prove_late)
                  (set-events r.event_slots submission.pool_index _ refl)
            | inr free ↦ rw (undrained, recorded, waited, free, prove_late) refl
          ]
        ]
      ]
    ]

settle_metadata-events : (r : EventRing) (s : ℕ) → events (settle_metadata r s) ≡ events r
unfolding settle_metadata
settle_metadata-events r s =
    elim (Bool-cases ((submission_at r s).metadata_slot == no_attached_slot)) [
      | inl detached ↦ rw (detached, settle_metadata) refl
      | inr attached ↦ rw (attached, settle_metadata) refl
    ]

release_resource_locked-events :
    (r : EventRing) (s : ℕ) → events (release_resource_locked r s) ≡ events r
unfolding release_resource_locked
release_resource_locked-events r s =
    let i = (submission_at r s).pool_index in
    let slot = slot_at r i in
    elim (Bool-cases
      (ltb i r.event_count && slot.in_use && owned_by s slot.owner && not slot.quarantined)) [
        | inr keeps ↦ rw (keeps, release_resource_locked) refl
        | inl frees ↦ rw (frees, release_resource_locked) (set-events r.event_slots i _ refl)
      ]

on_worker_destroy-events :
    (policy : Policy) (r : EventRing) (s : ℕ) → events (on_worker_destroy policy r s) ≡ events r
unfolding on_worker_destroy
on_worker_destroy-events policy r s =
    let proved = prove_late policy r s in
    elim (Bool-cases (is_complete (submission_at proved s).disposition)) [
      | inr unproven ↦
          rw (unproven, on_worker_destroy)
            (settle_metadata-events proved s ∙ prove_late-events policy r s)
      | inl proven ↦
          rw (proven, on_worker_destroy)
            (release_resource_locked-events _ s
              ∙ settle_metadata-events _ s
              ∙ prove_late-events policy r s)
    ]

pub acquired-events : (r : EventRing) (index : ℕ) → events (acquired r index) ≡ events r
acquired-events r index = set-events r.event_slots index _ refl

Step-events : {r r' : EventRing} → Step r r' → events r' ≡ events r
unfolding attach_metadata_slot attach_status_cell mark_event_recorded mark_stream_drained
Step-events (acquires {r} {r'} {taken} e) = elim (try_acquire-cases r) [
  | inl (index, inside, free, got) ↦
      sym (
        ap (λ (p : Option ℕ × EventRing). events p.1)
          (ok-injective (some (length r.submissions), acquired r index) result (sym got ∙ e)))
      ∙ acquired-events r index
  | inr nothing ↦ sym (
      ap (λ (p : Option ℕ × EventRing). events p.1)
        (ok-injective (none, r) result (sym nothing ∙ e)))
]
  where
    result : Option ℕ × EventRing
    result = (taken, r')
Step-events (attaches s slot o) = refl
Step-events (reports s cell o) = refl
Step-events (records s o) = refl
Step-events (drains s o) = refl
Step-events (retires {r} s o) = set_retire_unknown_locked-events r s
Step-events (completes {r} policy s o known) = on_worker_complete-events policy r s
Step-events (destroys {r} policy s o known) = on_worker_destroy-events policy r s
Step-events (drops {r} s) = release_resource_locked-events r s

-- No step changes the event of a slot.
pub Run-events : {r r' : EventRing} → Run r r' → events r' ≡ events r
Run-events stay = refl
Run-events (go run step) = Step-events step ∙ Run-events run
