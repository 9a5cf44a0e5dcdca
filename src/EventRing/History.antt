-- ===== src/EventRing/History.antt =====
-- Any history of an event ring up to its drain: what the dispatch, the worker and the destructors of
-- the submissions of a queue do, in any order. The conditions are those under which they do it.
use iom.Base.{
  ◌!=◌, length, get_or, max_word, invalid_argument, Result, ok, require, >>=-eq-ok, ok-injective, ℕ,
  zero, suc, ◌≤◌, ◌≡◌, refl, sym, ap, subst, ◌∙◌, ◌≢◌, inl, inr, Bool, true, false, ◌||◌, Option,
  none, some, List, [], ◌∷◌, map, arith,
}
use iom.Pool.{SlotPool, count_true}
use iom.EventRing.{
  EventRing, Slot, new_slot, submission_at, retire_unknown, Policy, new_ring, create_events,
  try_acquire, attach_metadata_slot, attach_status_cell, mark_event_recorded, mark_stream_drained,
  set_retire_unknown_locked, on_worker_complete, on_worker_destroy, release_resource_locked,
}
use iom.EventRing.Change.{IsValid, Owns}
use iom.EventRing.Acquire.{try_acquire-cases, acquired-IsValid, acquired}
use iom.EventRing.Steps.{same-Kept, set_retire_unknown_locked-Kept, on_worker_complete-Kept}
use iom.EventRing.Destroy.{on_worker_destroy-IsValid, release_resource_locked-IsValid}

pub data Step : EventRing → EventRing → Type 0 where
  acquires :
      {r r' : EventRing} {taken : Option ℕ} → try_acquire (ok tt) r ≡ ok (taken, r') → Step r r'
  attaches : {r : EventRing} (s slot : ℕ) → Owns r s → Step r (attach_metadata_slot r s slot)
  reports : {r : EventRing} (s cell : ℕ) → Owns r s → Step r (attach_status_cell r s cell)
  records : {r : EventRing} (s : ℕ) → Owns r s → Step r (mark_event_recorded r s)
  drains : {r : EventRing} (s : ℕ) → Owns r s → Step r (mark_stream_drained r s)
  retires : {r : EventRing} (s : ℕ) → Owns r s → Step r (set_retire_unknown_locked r s)
  -- No proof is at hand for a submission that retired unknown before its completion.
  completes :
      {r : EventRing} (policy : Policy) (s : ℕ)
      → Owns r s
      → ((submission_at r s).stream_drained || (submission_at r s).event_recorded ≡ true
          → (submission_at r s).disposition ≢ retire_unknown)
      → Step r (on_worker_complete policy r s).0
  -- A submission whose stream was drained does not retire unknown.
  destroys :
      {r : EventRing} (policy : Policy) (s : ℕ)
      → Owns r s
      → ((submission_at r s).stream_drained ≡ true
          → (submission_at r s).disposition ≢ retire_unknown)
      → Step r (on_worker_destroy policy r s)
  drops : {r : EventRing} (s : ℕ) → Step r (release_resource_locked r s)

pub data Run : EventRing → EventRing → Type 0 where
  stay : {r : EventRing} → Run r r
  go : {r r' r'' : EventRing} → Run r r' → Step r' r'' → Run r r''

Step-IsValid : {r r' : EventRing} → Step r r' → IsValid r → IsValid r'
unfolding attach_metadata_slot attach_status_cell mark_event_recorded mark_stream_drained
Step-IsValid (acquires {r} {r'} {taken} e) v = elim (try_acquire-cases r) [
  | inl (index, inside, free, got) ↦
      subst IsValid
        (ap (λ (p : Option ℕ × EventRing). p.1)
          (ok-injective (some (length r.submissions), acquired r index) result (sym got ∙ e)))
        (acquired-IsValid r index v inside free)
  | inr nothing ↦
      subst IsValid
        (ap (λ (p : Option ℕ × EventRing). p.1) (ok-injective (none, r) result (sym nothing ∙ e))) v
]
  where
    result : Option ℕ × EventRing
    result = (taken, r')
Step-IsValid (attaches {r} s slot o) v = (same-Kept r s _ r.metadata_pool v o refl refl).valid
Step-IsValid (reports {r} s cell o) v = (same-Kept r s _ r.metadata_pool v o refl refl).valid
Step-IsValid (records {r} s o) v = (same-Kept r s _ r.metadata_pool v o refl refl).valid
Step-IsValid (drains {r} s o) v = (same-Kept r s _ r.metadata_pool v o refl refl).valid
Step-IsValid (retires {r} s o) v = (set_retire_unknown_locked-Kept r s v o).valid
Step-IsValid (completes {r} policy s o known) v =
    (on_worker_complete-Kept policy r s v o known).valid
Step-IsValid (destroys {r} policy s o known) v = on_worker_destroy-IsValid policy r s v o known
Step-IsValid (drops {r} s) v = release_resource_locked-IsValid r s v

new_slots :
    (create : ℕ → Result ℕ) (rounds index : ℕ) {slots : List Slot}
    → create_events create rounds index ≡ ok slots
    → (length slots ≡ rounds)
      × (count_true (map (λ slot. slot.quarantined) slots) ≡ 0)
      × ((i : ℕ) → (get_or slots i (new_slot 0)).quarantined ≡ false)
unfolding create_events
new_slots create zero index {slots} e =
    subst
      (λ (l : List Slot).
        (length l ≡ 0)
        × (count_true (map (λ slot. slot.quarantined) l) ≡ 0)
        × ((i : ℕ) → (get_or l i (new_slot 0)).quarantined ≡ false))
      (ok-injective [] slots e) (refl, refl, λ i. refl)
new_slots create (suc rounds) index {slots} e =
    let (event, created, e1) = >>=-eq-ok (create index) _ e in
    let (rest, others, e2) = >>=-eq-ok (create_events create rounds (suc index)) _ e1 in
    let (long, count, free) = new_slots create rounds (suc index) others in
    subst
      (λ (l : List Slot).
        (length l ≡ suc rounds)
        × (count_true (map (λ slot. slot.quarantined) l) ≡ 0)
        × ((i : ℕ) → (get_or l i (new_slot 0)).quarantined ≡ false))
      (ok-injective (new_slot event ∷ rest) slots e2)
      (ap suc long, omega (arith, count), at event rest free)
  where
    at :
        (event : ℕ) (rest : List Slot)
        → ((i : ℕ) → (get_or rest i (new_slot 0)).quarantined ≡ false)
        → (i : ℕ) → (get_or (new_slot event ∷ rest) i (new_slot 0)).quarantined ≡ false
    at event rest free zero = refl
    at event rest free (suc i) = free i

pub new_ring-IsValid :
    (event_count : ℕ) (pool : SlotPool) (create : ℕ → Result ℕ) {r : EventRing}
    → event_count ≤ max_word
    → new_ring event_count pool (ok tt) create ≡ ok r
    → IsValid r
unfolding new_ring
new_ring-IsValid event_count pool create {r} word e =
    let (u, some_event, e1) = >>=-eq-ok (require (event_count != 0) invalid_argument) _ e in
    let (slots, created, e2) = >>=-eq-ok (create_events create event_count 0) _ e1 in
    let (long, count, free) = new_slots create event_count 0 created in
    subst IsValid (ok-injective _ r e2) (record {
      size = long;
      word = word;
      inside = λ s h. absurd (omega (arith, h));
      held = λ s h. absurd (omega (arith, h));
      kept = λ i h q. absurd (both q (free i));
      counted = sym count;
    })
  where
    both : {b : Bool} → b ≡ true → b ≡ false → ⊥
    both e f = cc

pub Run-IsValid : {r r' : EventRing} → Run r r' → IsValid r → IsValid r'
Run-IsValid stay v = v
Run-IsValid (go run step) v = Step-IsValid step (Run-IsValid run v)

-- From a new event ring whose event count is a word, after any sequence of acquisitions, marks,
-- completions, ends of worker tasks and destructions before the drain of the queue, in which the
-- marks and worker calls are for submissions that have their slot, no completion is run for a
-- submission that retired unknown and has a recorded event or a drained stream, and no worker
-- task ends for one that retired unknown and whose stream was drained: the quarantined slots are
-- exactly those of the submissions that retired unknown, each in use and owned by its
-- submission, and the unproved completions are as many as these slots.
pub new_ring-Run :
    (event_count : ℕ) (pool : SlotPool) (create : ℕ → Result ℕ) {r r' : EventRing}
    → event_count ≤ max_word
    → new_ring event_count pool (ok tt) create ≡ ok r
    → Run r r'
    → IsValid r'
new_ring-Run event_count pool create word made run =
    Run-IsValid run (new_ring-IsValid event_count pool create word made)
