-- ===== src/EventRing/Destroy.antt =====
-- The end of a worker's task keeps the invariant of the event ring, and so does the release of an
-- event.
use iom.Base.{
  ltb, ◌==◌, ◌!=◌, if◌then◌else◌, ltb→lt, ==→eq, Bool-cases, Result-cases, length, get_or, set,
  max_word, sub_word, ℕ, zero, suc, ◌+◌, ◌≤◌, ◌<◌, ◌≡◌, refl, sym, ap, subst, ◌∙◌, ◌≢◌, inl, inr,
  Bool, true, false, not, ◌&&◌, Option, none, some, List, [], ◌∷◌, arith, dec_lt,
}
use iom.EventRing.{
  EventRing, Submission, Slot, new_submission, no_attached_slot, slot_at, submission_at,
  CompletionDisposition, pending, complete, retire_unknown, is_retire_unknown, is_complete, Policy,
  snapshot_status_locked, on_worker_destroy, prove_late, settle_metadata, release_resource_locked,
  owned_by, wait_event,
}
use iom.EventRing.Change.{IsValid, Owns, bit, changed-IsValid, changed-Owns, count_set}
use iom.EventRing.Steps.{
  Kept, set_self, same-Kept, complete-Kept, fail_proof-Kept, is_retire_unknown_lem, snapshot-fields,
  count-length,
}

pub is_retire_unknown-eq :
    (d : CompletionDisposition) → is_retire_unknown d ≡ true → d ≡ retire_unknown
is_retire_unknown-eq pending e = cc
is_retire_unknown-eq complete e = cc
is_retire_unknown-eq retire_unknown e = refl

-- A late proof of a completion that was unknown.
late-Kept :
    (r : EventRing) (s : ℕ) (submission : Submission)
    → IsValid r
    → Owns r s
    → (submission_at r s).disposition ≡ retire_unknown
    → submission.pool_index ≡ (submission_at r s).pool_index
    → submission.disposition ≡ complete
    → Kept
        (record r {
          submissions = set r.submissions s submission;
          unproved_unknowns =
              if r.unproved_unknowns != 0
              then sub_word r.unproved_unknowns 1
              else r.unproved_unknowns;
          event_slots =
              set r.event_slots
                (submission_at r s).pool_index
                (record (slot_at r (submission_at r s).pool_index) { quarantined = false });
        })
        s
late-Kept r s submission v o unknown place done =
    let i = (submission_at r s).pool_index in
    let slot : Slot = record (slot_at r i) { quarantined = false } in
    let count =
      if r.unproved_unknowns != 0 then sub_word r.unproved_unknowns 1 else r.unproved_unknowns in
    record {
      valid =
          changed-IsValid r s submission slot count r.metadata_pool v o
            (record {
              place = place;
              unknown = λ e. absurd (not_both (sym done ∙ e));
              quarantined = λ e. absurd (false_true e);
            })
            one_less;
      owns = changed-Owns r s submission slot count r.metadata_pool v o place o.in_use o.owner;
    }
  where
    not_both : complete ≡ retire_unknown → ⊥
    not_both e = cc

    false_true : false ≡ true → ⊥
    false_true e = cc

    less : (u : ℕ) → 0 < u → u ≤ max_word → (if u != 0 then sub_word u 1 else u) + 1 ≡ u
    less u some_left word = ground arith

    one_less :
        (if r.unproved_unknowns != 0 then sub_word r.unproved_unknowns 1 else r.unproved_unknowns)
          + bit (slot_at r (submission_at r s).pool_index).quarantined
        ≡ r.unproved_unknowns + 0
    one_less =
        let i = (submission_at r s).pool_index in
        let slot : Slot = record (slot_at r i) { quarantined = false } in
        let fewer = count_set r.event_slots i slot (omega (arith, v.inside s o.created, v.size)) in
        let old : bit (slot_at r i).quarantined ≡ 1 = ap bit (v.held s o.created unknown).0 in
        let most = count-length r.event_slots in
        let u = r.unproved_unknowns in
        let some_left : 0 < u = omega (arith, fewer, old, v.counted) in
        let word : u ≤ max_word = omega (arith, most, v.counted, v.size, v.word) in
        omega (arith, old, less u some_left word)

pub prove_late-Kept :
    (policy : Policy) (r : EventRing) (s : ℕ)
    → IsValid r
    → Owns r s
    → ((submission_at r s).stream_drained ≡ true → (submission_at r s).disposition ≢ retire_unknown)
    → Kept (prove_late policy r s) s
unfolding prove_late
prove_late-Kept policy r s v o known =
    let submission = submission_at r s in
    let late = not submission.synchronized_on_complete in
    elim (Bool-cases (late && submission.stream_drained)) [
      | inl drained ↦
          rw (drained, prove_late)
            (complete-Kept r s _ v o (known (second late submission.stream_drained drained)) refl
              refl)
      | inr undrained ↦ elim (Bool-cases (late && submission.event_recorded)) [
        | inr unrecorded ↦ rw (undrained, unrecorded, prove_late) (record { valid = v; owns = o })
        | inl recorded ↦ elim (Result-cases (wait_event policy r submission)) [
          | inr (x, broken) ↦
              rw (undrained, recorded, broken, prove_late) (fail_proof-Kept r s x v o)
          | inl (u, waited) ↦ elim (Bool-cases (is_retire_unknown submission.disposition)) [
            | inl unknown ↦
                rw (undrained, recorded, waited, unknown, prove_late)
                  (late-Kept r s _ v o (is_retire_unknown-eq _ unknown) refl refl)
            | inr free ↦
                rw (undrained, recorded, waited, free, prove_late)
                  (complete-Kept r s _ v o (is_retire_unknown_lem _ free) refl refl)
          ]
        ]
      ]
    ]
  where
    second : (a b : Bool) → (a && b) ≡ true → b ≡ true
    second a b e = ground arith

pub settle_metadata-Kept :
    (r : EventRing) (s : ℕ) → IsValid r → Owns r s → Kept (settle_metadata r s) s
unfolding settle_metadata
settle_metadata-Kept r s v o =
    elim (Bool-cases ((submission_at r s).metadata_slot == no_attached_slot)) [
      | inl detached ↦ rw (detached, settle_metadata) (record { valid = v; owns = o })
      | inr attached ↦ rw (attached, settle_metadata) (same-Kept r s _ _ v o refl refl)
    ]

-- Past the end there is no submission.
beyond :
    (submissions : List Submission) (s : ℕ) (d : Submission)
    → length submissions ≤ s
    → get_or submissions s d ≡ d
beyond [] s d h = refl
beyond (x ∷ submissions) zero d h = absurd (omega (arith, h))
beyond (x ∷ submissions) (suc s) d h = beyond submissions s d (omega (arith, h))

-- A submission with a slot inside the ring exists.
created :
    (r : EventRing) (s : ℕ)
    → IsValid r
    → (submission_at r s).pool_index < r.event_count
    → s < length r.submissions
created r s v inside = elim (dec_lt s (length r.submissions)) [
  | yes lt ↦ lt
  | no ge ↦
      let last = beyond r.submissions s (new_submission no_attached_slot) (omega (arith, ge)) in
      absurd (outside (ap (λ (x : Submission). x.pool_index) last))
]
  where
    outside : (submission_at r s).pool_index ≡ no_attached_slot → ⊥
    outside e = omega (arith, e, inside, v.word)

pub release_resource_locked-IsValid :
    (r : EventRing) (s : ℕ) → IsValid r → IsValid (release_resource_locked r s)
unfolding release_resource_locked
release_resource_locked-IsValid r s v =
    let i = (submission_at r s).pool_index in
    let slot = slot_at r i in
    elim (Bool-cases
      (ltb i r.event_count && slot.in_use && owned_by s slot.owner && not slot.quarantined)) [
        | inr keeps ↦ rw (keeps, release_resource_locked) v
        | inl frees ↦
            let (inside, used, owned, free) = four _ _ _ _ frees in
            let here = created r s v (ltb→lt i r.event_count inside) in
            let o : Owns r s = record {
              created = here;
              in_use = used;
              owner = owned_by-eq slot.owner owned;
            } in
            rw (frees, release_resource_locked)
              (subst
                (λ (l : List Submission). IsValid (record r {
                  event_slots = set r.event_slots i (record slot { in_use = false; owner = none });
                  submissions = l;
                }))
                (set_self r.submissions s (new_submission no_attached_slot))
                (changed-IsValid r s (submission_at r s)
                  (record slot { in_use = false; owner = none }) r.unproved_unknowns r.metadata_pool
                  v o
                  (record {
                    place = refl;
                    unknown = λ e. absurd (both (v.held s here e).0 free);
                    quarantined = λ e. absurd (both e free);
                  })
                  refl))
      ]
  where
    four :
        (a b c d : Bool)
        → (a && b && c && not d) ≡ true
        → (a ≡ true) × (b ≡ true) × (c ≡ true) × (d ≡ false)
    four a b c d e = (ground arith, ground arith, ground arith, ground arith)

    both : {b : Bool} → b ≡ true → b ≡ false → ⊥
    both e f = cc

    owned_by-eq : (owner : Option ℕ) → owned_by s owner ≡ true → owner ≡ some s
    owned_by-eq none e = cc
    owned_by-eq (some t) e = ap some (==→eq t s e)

pub on_worker_destroy-IsValid :
    (policy : Policy) (r : EventRing) (s : ℕ)
    → IsValid r
    → Owns r s
    → ((submission_at r s).stream_drained ≡ true → (submission_at r s).disposition ≢ retire_unknown)
    → IsValid (on_worker_destroy policy r s)
unfolding on_worker_destroy
on_worker_destroy-IsValid policy r s v o known =
    let proved = prove_late policy r s in
    let k = prove_late-Kept policy r s v o known in
    elim (Bool-cases (is_complete (submission_at proved s).disposition)) [
      | inr unproven ↦
          rw (unproven, on_worker_destroy) (settle_metadata-Kept proved s k.valid k.owns).valid
      | inl proven ↦
          let (place, disposition, slot) = snapshot-fields policy (submission_at proved s) in
          let captured =
            same-Kept proved s (snapshot_status_locked policy (submission_at proved s))
              proved.metadata_pool k.valid k.owns place disposition in
          rw (proven, on_worker_destroy)
            (release_resource_locked-IsValid _ s
              (settle_metadata-Kept _ s captured.valid captured.owns).valid)
    ]
