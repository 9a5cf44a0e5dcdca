-- ===== src/EventRing.antt =====
-- src/shared/event_ring.hpp, class EventRingState: the completion events of a queue, which are used
-- again once the submission that had one is proven complete. Each operation runs under the ring's
-- mutex. What the backend's policy returns is an argument; a submission is named by its number in
-- the order of creation, and the records stay after their destructor has run.
pub mod Change
pub mod Steps
pub mod Destroy
pub mod Acquire
pub mod History
pub mod Events
pub mod Reuse
pub mod Drain
pub mod Settle
pub mod Tests
use iom.Base.{
  ltb, leb, ◌==◌, ◌!=◌, if◌then◌else◌, ltb→lt, lt→ltb, ltb→le, le→ltb, ==→eq, eq→==, Bool-cases,
  Option-cases, length, get_elem?, get_or, set, take, drop, replicate, length-append, length-set,
  length-replicate, get_or-set_self, get_or-set_ne, Among, All-Among, sum, product, All, word_mod,
  max_word, add_word, sub_word, mul_word, Exception, invalid_argument, overflow_error, out_of_range,
  bad_alloc, runtime_error, logic_error, Result, ok, throws, ◌>>=◌, ◌>>◌, require, >>=-eq-ok,
  require-eq-ok, ok-injective, ℕ, zero, suc, ◌+◌, ◌-◌, ◌*◌, ◌/◌, ◌%◌, ◌^◌, ◌≤◌, ◌<◌, bit_and, ◌≡◌,
  refl, sym, ap, subst, ◌∙◌, ◌≢◌, ◌↔◌, ◌⊎◌, inl, inr, Bool, true, false, not, ◌&&◌, ◌||◌, Option,
  none, some, List, [], ◌∷◌, ◌++◌, map, arith, dec_lt, ℕ_discrete,
}
use iom.Pool.{SlotPool, first_free, protect, release_locked, release_all_protected}

pub data CompletionDisposition : Type 0 where
  pending complete retire_unknown : CompletionDisposition

pub record FenceResult : Type 0 where
  pub succeeded : Bool
  pub failure : Option Exception

abbrev pub success : FenceResult
success = record { succeeded = true; failure = none }

abbrev pub pending_result : FenceResult
pending_result = record { succeeded = false; failure = none }

abbrev pub failed : Exception → FenceResult
failed error = record { succeeded = false; failure = some error }

pub record Slot : Type 0 where
  pub event : ℕ
  pub owner : Option ℕ
  pub in_use : Bool
  pub quarantined : Bool

pub record Submission : Type 0 where
  pub pool_index : ℕ
  pub result : FenceResult
  pub metadata_slot : ℕ
  pub status_cell : ℕ
  pub status_word : Option ℕ
  pub event_recorded : Bool
  pub stream_drained : Bool
  pub synchronized_on_complete : Bool
  pub disposition : CompletionDisposition

pub record EventRing : Type 0 where
  pub event_count : ℕ
  pub event_slots : List Slot
  pub unproved_unknowns : ℕ
  pub metadata_pool : SlotPool
  pub submissions : List Submission

-- What the backend yields: activating its context, waiting for an event, and the status words.
pub record Policy : Type 0 where
  pub activate : Result (Unit {0})
  pub synchronize_event : ℕ → Result (Unit {0})
  pub status_at : ℕ → ℕ

-- `kNoAttachedSlot`
abbrev pub no_attached_slot : ℕ
no_attached_slot = max_word

abbrev pub new_submission : ℕ → Submission
new_submission index = record {
  pool_index = index;
  result = pending_result;
  metadata_slot = no_attached_slot;
  status_cell = 0;
  status_word = none;
  event_recorded = false;
  stream_drained = false;
  synchronized_on_complete = false;
  disposition = pending;
}

abbrev pub new_slot : ℕ → Slot
new_slot event = record { event = event; owner = none; in_use = false; quarantined = false }

abbrev pub slot_at : EventRing → ℕ → Slot
slot_at r i = get_or r.event_slots i (new_slot 0)

abbrev pub submission_at : EventRing → ℕ → Submission
submission_at r s = get_or r.submissions s (new_submission no_attached_slot)

abbrev pub set_submission : EventRing → ℕ → Submission → EventRing
set_submission r s submission = record r { submissions = set r.submissions s submission }

-- The loop of the constructor: each event is created, unless a fault is injected or it fails.
unfoldable pub create_events : (ℕ → Result ℕ) → ℕ → ℕ → Result (List Slot)
create_events create zero index = ok []
create_events create (suc rounds) index = create index >>= λ event.
    create_events create rounds (suc index) >>= λ slots. ok (new_slot event ∷ slots)

unfoldable pub new_ring : ℕ → SlotPool → Result (Unit {0}) → (ℕ → Result ℕ) → Result EventRing
new_ring event_count metadata_pool activate create = do
  require (event_count != 0) invalid_argument
  activate
  event_slots ← create_events create event_count 0
  ok (record {
    event_count = event_count;
    event_slots = event_slots;
    unproved_unknowns = 0;
    metadata_pool = metadata_pool;
    submissions = [];
  })

-- `fault` is what the injected fault throws. The number of the new submission is the result.
unfoldable pub try_acquire : Result (Unit {0}) → EventRing → Result (Option ℕ × EventRing)
try_acquire fault r = fault >>= λ _. elim (first_free 0 (map (λ slot. slot.in_use) r.event_slots)) [
  | none ↦ ok (none, r)
  | some index ↦ ok (
    some (length r.submissions),
    record r {
      event_slots =
          set r.event_slots index
            (record (slot_at r index) { in_use = true; owner = some (length r.submissions) });
      submissions = r.submissions ++ (new_submission index ∷ []);
    },
  )
]

-- What `acquire` does once its wait is over.
unfoldable pub acquire : Result (Unit {0}) → EventRing → Result (ℕ × EventRing)
acquire fault r = try_acquire fault r >>= λ taken. elim taken.0 [
  | some submission ↦ ok (submission, taken.1)
  | none ↦ throws logic_error
]

unfoldable pub attach_metadata_slot : EventRing → ℕ → ℕ → EventRing
attach_metadata_slot r s slot =
    set_submission r s (record (submission_at r s) { metadata_slot = slot })

unfoldable pub attach_status_cell : EventRing → ℕ → ℕ → EventRing
attach_status_cell r s cell = set_submission r s (record (submission_at r s) { status_cell = cell })

unfoldable pub mark_event_recorded : EventRing → ℕ → EventRing
mark_event_recorded r s = set_submission r s (record (submission_at r s) { event_recorded = true })

unfoldable pub mark_stream_drained : EventRing → ℕ → EventRing
mark_stream_drained r s = set_submission r s (record (submission_at r s) { stream_drained = true })

abbrev pub is_complete : CompletionDisposition → Bool
is_complete complete = true
is_complete _ = false

abbrev pub is_retire_unknown : CompletionDisposition → Bool
is_retire_unknown retire_unknown = true
is_retire_unknown _ = false

-- Also `mark_retire_unknown`.
unfoldable pub set_retire_unknown_locked : EventRing → ℕ → EventRing
set_retire_unknown_locked r s =
    let submission = submission_at r s in
    let index = submission.pool_index in
    if is_retire_unknown submission.disposition then r else record r {
      submissions = set r.submissions s (record submission { disposition = retire_unknown });
      event_slots =
          if ltb index r.event_count
          then set r.event_slots index (record (slot_at r index) { quarantined = true })
          else r.event_slots;
      unproved_unknowns = add_word r.unproved_unknowns 1;
    }

unfoldable pub snapshot_status_locked : Policy → Submission → Submission
snapshot_status_locked policy submission =
    if submission.status_cell == 0 then submission else record submission {
      status_word = some (policy.status_at submission.status_cell);
      status_cell = 0;
    }

-- An event that a proof waits for.
abbrev pub wait_event : Policy → EventRing → Submission → Result (Unit {0})
wait_event policy r submission =
    policy.activate >>= λ _. policy.synchronize_event (slot_at r submission.pool_index).event

-- A proof that failed.
unfoldable pub fail_proof : EventRing → ℕ → Exception → EventRing
fail_proof r s error =
    let r' = set_retire_unknown_locked r s in
    set_submission r' s (record (submission_at r' s) { result = failed error })

-- The failure is also thrown.
unfoldable pub on_worker_complete : Policy → EventRing → ℕ → EventRing × Result (Unit {0})
on_worker_complete policy r s =
    let submission = submission_at r s in
    let proof : Result (Unit {0}) =
      if submission.stream_drained
      then ok tt
      else if submission.event_recorded
      then wait_event policy r submission
      else throws runtime_error in
    elim proof [
      | ok _ ↦ (
        set_submission r s (record (snapshot_status_locked policy submission) {
          synchronized_on_complete = true;
          disposition = complete;
          result = success;
        }),
        ok tt,
      )
      | throws error ↦ (fail_proof r s error, throws error)
    ]

abbrev pub owned_by : ℕ → Option ℕ → Bool
owned_by s none = false
owned_by s (some owner) = owner == s

unfoldable pub release_resource_locked : EventRing → ℕ → EventRing
release_resource_locked r s =
    let index = (submission_at r s).pool_index in
    let slot = slot_at r index in
    if ltb index r.event_count && slot.in_use && owned_by s slot.owner && not slot.quarantined
    then record r {
      event_slots = set r.event_slots index (record slot { in_use = false; owner = none });
    }
    else r

-- The first part of `on_worker_destroy`: a proof that comes late, at the end of the worker's task.
unfoldable pub prove_late : Policy → EventRing → ℕ → EventRing
prove_late policy r s =
    let submission = submission_at r s in
    let index = submission.pool_index in
    let late = not submission.synchronized_on_complete in
    elim (late && submission.stream_drained) [
      | true ↦ set_submission r s (record submission {
        result = success;
        synchronized_on_complete = true;
        disposition = complete;
      })
      | false ↦ elim (late && submission.event_recorded) [
        | false ↦ r
        | true ↦ elim (wait_event policy r submission) [
          | throws error ↦ fail_proof r s error
          | ok _ ↦
              let proven = record submission {
                result = elim submission.result.failure [
                  | none ↦ success
                  | some _ ↦ submission.result
                ];
                synchronized_on_complete = true;
                disposition = complete;
              } in
              if is_retire_unknown submission.disposition
              then record r {
                submissions = set r.submissions s proven;
                unproved_unknowns =
                    if r.unproved_unknowns != 0
                    then sub_word r.unproved_unknowns 1
                    else r.unproved_unknowns;
                event_slots =
                    set r.event_slots index (record (slot_at r index) { quarantined = false });
              }
              else set_submission r s proven
        ]
      ]
    ]

-- Its second part: the metadata slot is released after a proof, and protected without one.
unfoldable pub settle_metadata : EventRing → ℕ → EventRing
settle_metadata r s =
    let submission = submission_at r s in
    let slot = submission.metadata_slot in
    if slot == no_attached_slot then r else record r {
      metadata_pool =
          if is_retire_unknown submission.disposition
          then protect r.metadata_pool slot
          else release_locked r.metadata_pool slot;
      submissions = set r.submissions s (record submission { metadata_slot = no_attached_slot });
    }

unfoldable pub on_worker_destroy : Policy → EventRing → ℕ → EventRing
on_worker_destroy policy r s =
    let proved = prove_late policy r s in
    let done = is_complete (submission_at proved s).disposition in
    let captured =
      if done
      then set_submission proved s (snapshot_status_locked policy (submission_at proved s))
      else proved in
    let settled = settle_metadata captured s in
    if done then release_resource_locked settled s else settled

-- The loop of `on_queue_drain`.
unfoldable pub free_quarantined : List Slot → List Slot
free_quarantined [] = []
free_quarantined (slot ∷ slots) =
    (if slot.quarantined
      then record slot { quarantined = false; in_use = false; owner = none }
      else slot)
    ∷ free_quarantined slots

unfoldable pub on_queue_drain : Bool → EventRing → EventRing
on_queue_drain successful r = if not successful then r else record r {
  unproved_unknowns = 0;
  event_slots = free_quarantined r.event_slots;
  metadata_pool = release_all_protected r.metadata_pool;
}

abbrev pub has_unproven_completion : EventRing → Bool
has_unproven_completion r = r.unproved_unknowns != 0
