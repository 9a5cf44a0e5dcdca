-- ===== src/EventRing/Settle.antt =====
-- What the end of a worker's task does with the metadata slot of its submission.
use iom.Base.{
  ltb, ◌==◌, lt→ltb, Bool-cases, Result-cases, length, get_or, set, get_or-set_self, max_word,
  Exception, ℕ, ◌≤◌, ◌<◌, ◌≡◌, refl, sym, ap, subst, ◌∙◌, ◌≢◌, ◌⊎◌, inl, inr, Bool, true, false,
  not, ◌&&◌, arith,
}
use iom.Pool.{SlotPool, protect, release_locked}
use iom.Pool.Inv.{used, guarded, IsValid as PoolIsValid}
use iom.EventRing.{
  EventRing, Submission, new_submission, no_attached_slot, slot_at, submission_at, retire_unknown,
  is_retire_unknown, is_complete, set_retire_unknown_locked, Policy, fail_proof,
  snapshot_status_locked, on_worker_destroy, prove_late, settle_metadata, release_resource_locked,
  owned_by, wait_event,
}
use iom.EventRing.Change.{IsValid, Owns}
use iom.EventRing.Steps.{
  set_retire_unknown_locked-Kept, is_retire_unknown_lem, snapshot-fields, same-Kept,
}
use iom.EventRing.Destroy.{is_retire_unknown-eq, prove_late-Kept}

-- The slot is let go: kept from others if the completion is unknown, free if not.
abbrev pub Settled : EventRing → ℕ → ℕ → Type 0
Settled r s m =
    ((submission_at r s).metadata_slot ≡ no_attached_slot)
    × ((((submission_at r s).disposition ≡ retire_unknown) × (guarded r.metadata_pool m ≡ true))
        ⊎ (((submission_at r s).disposition ≢ retire_unknown) × (used r.metadata_pool m ≡ false)))

-- The pool and the metadata slot of the submission are as before.
abbrev Untouched : EventRing → EventRing → ℕ → Type 0
Untouched r r' s =
    (r'.metadata_pool ≡ r.metadata_pool)
    × ((submission_at r' s).metadata_slot ≡ (submission_at r s).metadata_slot)

set-Untouched :
    (r : EventRing) (s : ℕ) (submission : Submission)
    → s < length r.submissions
    → submission.metadata_slot ≡ (submission_at r s).metadata_slot
    → (get_or (set r.submissions s submission) s (new_submission no_attached_slot)).metadata_slot
      ≡ (submission_at r s).metadata_slot
set-Untouched r s submission h same =
    ap (λ (x : Submission). x.metadata_slot) (get_or-set_self r.submissions s submission _ h) ∙ same

set_retire_unknown_locked-Untouched :
    (r : EventRing) (s : ℕ) → Owns r s → Untouched r (set_retire_unknown_locked r s) s
unfolding set_retire_unknown_locked
set_retire_unknown_locked-Untouched r s o =
    elim (Bool-cases (is_retire_unknown (submission_at r s).disposition)) [
      | inl already ↦ rw (already, set_retire_unknown_locked) (refl, refl)
      | inr first ↦ rw (first, set_retire_unknown_locked) (refl, set-Untouched r s _ o.created refl)
    ]

fail_proof-Untouched :
    (r : EventRing) (s : ℕ) (error : Exception)
    → IsValid r
    → Owns r s
    → Untouched r (fail_proof r s error) s
unfolding fail_proof
fail_proof-Untouched r s error v o =
    let r' = set_retire_unknown_locked r s in
    let (pool, slot) = set_retire_unknown_locked-Untouched r s o in
    let k = set_retire_unknown_locked-Kept r s v o in
    (pool, set-Untouched r' s _ k.owns.created refl ∙ slot)

prove_late-Untouched :
    (policy : Policy) (r : EventRing) (s : ℕ)
    → IsValid r
    → Owns r s
    → Untouched r (prove_late policy r s) s
unfolding prove_late
prove_late-Untouched policy r s v o =
    let submission = submission_at r s in
    let late = not submission.synchronized_on_complete in
    elim (Bool-cases (late && submission.stream_drained)) [
      | inl drained ↦ rw (drained, prove_late) (refl, set-Untouched r s _ o.created refl)
      | inr undrained ↦ elim (Bool-cases (late && submission.event_recorded)) [
        | inr unrecorded ↦ rw (undrained, unrecorded, prove_late) (refl, refl)
        | inl recorded ↦ elim (Result-cases (wait_event policy r submission)) [
          | inr (x, broken) ↦
              rw (undrained, recorded, broken, prove_late) (fail_proof-Untouched r s x v o)
          | inl (u, waited) ↦ elim (Bool-cases (is_retire_unknown submission.disposition)) [
            | inl unknown ↦
                rw (undrained, recorded, waited, unknown, prove_late)
                  (refl, set-Untouched r s _ o.created refl)
            | inr free ↦
                rw (undrained, recorded, waited, free, prove_late)
                  (refl, set-Untouched r s _ o.created refl)
          ]
        ]
      ]
    ]

settle_metadata-Settled :
    (r : EventRing) (s m : ℕ)
    → s < length r.submissions
    → (submission_at r s).metadata_slot ≡ m
    → r.metadata_pool.slot_count ≤ max_word
    → m < r.metadata_pool.slot_count
    → PoolIsValid r.metadata_pool
    → used r.metadata_pool m ≡ true
    → Settled (settle_metadata r s) s m
unfolding settle_metadata protect release_locked
settle_metadata-Settled r s m created same word inside v taken =
    let submission = submission_at r s in
    let detached = record submission { metadata_slot = no_attached_slot } in
    let here = get_or-set_self r.submissions s detached (new_submission no_attached_slot) created in
    let within = lt→ltb m r.metadata_pool.slot_count inside in
    let attached : (submission.metadata_slot == no_attached_slot) ≡ false =
      inner submission.metadata_slot same in
    elim (Bool-cases (is_retire_unknown submission.disposition)) [
      | inl unknown ↦
          rw (attached, unknown, same, within, settle_metadata)
            (
              ap (λ (x : Submission). x.metadata_slot) here,
              inl (
                ap (λ (x : Submission). x.disposition) here ∙ is_retire_unknown-eq _ unknown,
                get_or-set_self r.metadata_pool.protected m true false
                    (omega (arith, inside, v.guards)),
              ),
            )
      | inr known ↦
          rw (attached, known, same, both within taken, settle_metadata)
            (
              ap (λ (x : Submission). x.metadata_slot) here,
              inr (
                (λ e.
                    is_retire_unknown_lem _ known
                      (sym (ap (λ (x : Submission). x.disposition) here) ∙ e)),
                get_or-set_self r.metadata_pool.in_use m false false
                    (omega (arith, inside, v.slots)),
              ),
            )
    ]
  where
    inner : (n : ℕ) → n ≡ m → (n == no_attached_slot) ≡ false
    inner n e = ground (arith, e, inside, word)

    both : {a b : Bool} → a ≡ true → b ≡ true → (a && b) ≡ true
    both x y = cc

-- The release of the event touches neither.
release-Settled :
    (r : EventRing) (s m : ℕ) → Settled r s m → Settled (release_resource_locked r s) s m
unfolding release_resource_locked
release-Settled r s m settled =
    let slot = slot_at r (submission_at r s).pool_index in
    elim (Bool-cases (
      ltb (submission_at r s).pool_index r.event_count
      && slot.in_use
      && owned_by s slot.owner
      && not slot.quarantined)) [
        | inl frees ↦ rw (frees, release_resource_locked) settled
        | inr keeps ↦ rw (keeps, release_resource_locked) settled
      ]

-- For a submission that has its slot in a valid event ring, that did not retire unknown if its
-- stream was drained, and whose metadata slot is in use in a valid pool with as many slots as a
-- word can count, the end of the worker task takes the metadata slot from the submission and
-- protects it if the completion is unknown then, and else releases it.
pub on_worker_destroy-Settled :
    (policy : Policy) (r : EventRing) (s : ℕ)
    → IsValid r
    → PoolIsValid r.metadata_pool
    → Owns r s
    → ((submission_at r s).stream_drained ≡ true → (submission_at r s).disposition ≢ retire_unknown)
    → r.metadata_pool.slot_count ≤ max_word
    → (submission_at r s).metadata_slot < r.metadata_pool.slot_count
    → used r.metadata_pool (submission_at r s).metadata_slot ≡ true
    → Settled (on_worker_destroy policy r s) s (submission_at r s).metadata_slot
unfolding on_worker_destroy
on_worker_destroy-Settled policy r s v pool o known word inside taken =
    let m = (submission_at r s).metadata_slot in
    let proved = prove_late policy r s in
    let k = prove_late-Kept policy r s v o known in
    let (same_pool, same_slot) = prove_late-Untouched policy r s v o in
    let word' = subst (λ (p : SlotPool). p.slot_count ≤ max_word) (sym same_pool) word in
    let inside' = subst (λ (p : SlotPool). m < p.slot_count) (sym same_pool) inside in
    let pool' = subst PoolIsValid (sym same_pool) pool in
    let taken' = subst (λ (p : SlotPool). used p m ≡ true) (sym same_pool) taken in
    elim (Bool-cases (is_complete (submission_at proved s).disposition)) [
      | inr unproven ↦
          rw (unproven, on_worker_destroy)
            (settle_metadata-Settled proved s m k.owns.created same_slot word' inside' pool' taken')
      | inl proven ↦
          let (place, disposition, slot) = snapshot-fields policy (submission_at proved s) in
          let captured =
            same-Kept proved s (snapshot_status_locked policy (submission_at proved s))
              proved.metadata_pool k.valid k.owns place disposition in
          rw (proven, on_worker_destroy)
            (release-Settled _ s m (
              settle_metadata-Settled _ s m captured.owns.created
                (set-Untouched proved s _ k.owns.created slot ∙ same_slot) word' inside' pool'
                taken'))
    ]
