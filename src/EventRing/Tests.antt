-- ===== src/EventRing/Tests.antt =====
-- A ring of two events.
use iom.Base.{
  max_word, Result, ok, ok-injective, ℕ, zero, suc, ◌+◌, ◌≤◌, ◌<◌, ◌≡◌, refl, sym, subst, Bool,
  true, false, not, ◌&&◌, some, [], ◌∷◌, arith,
}
use iom.Pool.{SlotPool, first_free}
use iom.Pool.Inv.{used, guarded, IsValid as PoolIsValid}
use iom.EventRing.{
  EventRing, new_slot, slot_at, submission_at, Policy, new_ring, create_events, try_acquire,
  attach_metadata_slot, set_retire_unknown_locked, fail_proof, on_worker_complete,
  on_worker_destroy, on_queue_drain, has_unproven_completion,
}
use iom.EventRing.Change.{IsValid, Owns}
use iom.EventRing.Acquire.{acquired}
use iom.EventRing.History.{
  Run, stay, go, acquires, attaches, retires, completes, Run-IsValid, new_ring-IsValid,
  new_ring-Run,
}
use iom.EventRing.Reuse.{try_acquire-Apart, Apart, Distinct}
use iom.EventRing.Drain.{on_queue_drain-lem}
use iom.EventRing.Settle.{on_worker_destroy-Settled, Settled}

abbrev create : ℕ → Result ℕ
create index = ok (100 + index)

abbrev pool : SlotPool
pool = record { slot_count = 2; in_use = true ∷ false ∷ []; protected = false ∷ false ∷ [] }

abbrev ring : EventRing
ring = record {
  event_count = 2;
  event_slots = new_slot 100 ∷ new_slot 101 ∷ [];
  unproved_unknowns = 0;
  metadata_pool = pool;
  submissions = [];
}

new_ring_run : new_ring 2 pool (ok tt) create ≡ ok ring
unfolding new_ring create_events
new_ring_run = refl

-- The first submission retires unknown with the first event.
abbrev taken : EventRing
taken = acquired ring 0

abbrev retired : EventRing
retired = set_retire_unknown_locked taken 0

taken_run : try_acquire (ok tt) ring ≡ ok (some 0, taken)
unfolding try_acquire first_free
taken_run = refl

taken-Owns : Owns taken 0
taken-Owns = record { created = omega arith; in_use = refl; owner = refl }

retired_run : Run ring retired
retired_run = go (go stay (acquires taken_run)) (retires 0 taken-Owns)

new_ring-Run_example : IsValid retired
new_ring-Run_example = new_ring-Run 2 pool create (omega arith) new_ring_run retired_run

acquired_run : try_acquire (ok tt) retired ≡ ok (some 1, acquired retired 1)
unfolding try_acquire first_free set_retire_unknown_locked
acquired_run = refl

create-Distinct : Distinct create 2
create-Distinct i j event hi hj e f =
    omega (arith, ok-injective (100 + i) event e, ok-injective (100 + j) event f)

try_acquire-Apart_example : Apart retired (acquired retired 1) 1
try_acquire-Apart_example =
    try_acquire-Apart 2 pool create (omega arith) create-Distinct new_ring_run retired_run
      acquired_run

pool-IsValid : PoolIsValid pool
pool-IsValid = record { slots = refl; guards = refl; reserved = λ i g. absurd (free i g) }
  where
    free : (i : ℕ) → guarded pool i ≡ true → ⊥
    free zero e = cc
    free (suc zero) e = cc
    free (suc (suc i)) e = cc

on_queue_drain-lem_example :
    (has_unproven_completion (on_queue_drain true retired) ≡ false)
    × ((i : ℕ)
        → ((slot_at (on_queue_drain true retired) i).quarantined ≡ false)
          × ((slot_at (on_queue_drain true retired) i).in_use
              ≡ ((slot_at retired i).in_use && not (slot_at retired i).quarantined)))
    × ((m : ℕ)
        → (guarded (on_queue_drain true retired).metadata_pool m ≡ false)
          × (used (on_queue_drain true retired).metadata_pool m
              ≡ (used retired.metadata_pool m && not (guarded retired.metadata_pool m))))
on_queue_drain-lem_example = on_queue_drain-lem retired pool_retired
  where
    pool_retired : PoolIsValid retired.metadata_pool
    pool_retired = unfold set_retire_unknown_locked in pool-IsValid

-- A submission with a metadata slot whose event is never recorded.
abbrev attached : EventRing
attached = attach_metadata_slot taken 0 0

attached_run : Run ring attached
attached_run = go (go stay (acquires taken_run)) (attaches 0 0 taken-Owns)

abbrev backend : Policy
backend = record { activate = ok tt; synchronize_event = λ event. ok tt; status_at = λ cell. 0 }

abbrev broken : EventRing
broken = (on_worker_complete backend attached 0).0

broken_run : Run ring broken
unfolding attach_metadata_slot
broken_run = go attached_run (
    completes backend 0 (record { created = omega arith; in_use = refl; owner = refl })
      (λ marked known. false_true marked))
  where
    false_true : false ≡ true → ⊥
    false_true e = cc

broken-Owns : Owns broken 0
unfolding on_worker_complete attach_metadata_slot fail_proof set_retire_unknown_locked
broken-Owns = record { created = omega arith; in_use = refl; owner = refl }

undrained : (submission_at broken 0).stream_drained ≡ false
unfolding on_worker_complete attach_metadata_slot fail_proof set_retire_unknown_locked
undrained = refl

broken_pool : broken.metadata_pool ≡ pool
unfolding on_worker_complete attach_metadata_slot fail_proof set_retire_unknown_locked
broken_pool = refl

broken_slot : (submission_at broken 0).metadata_slot ≡ 0
unfolding on_worker_complete attach_metadata_slot fail_proof set_retire_unknown_locked
broken_slot = refl

broken_inside : (submission_at broken 0).metadata_slot < broken.metadata_pool.slot_count
unfolding on_worker_complete attach_metadata_slot fail_proof set_retire_unknown_locked
broken_inside = omega arith

broken-used : used broken.metadata_pool (submission_at broken 0).metadata_slot ≡ true
unfolding on_worker_complete attach_metadata_slot fail_proof set_retire_unknown_locked
broken-used = refl

broken-IsValid : IsValid broken
broken-IsValid = Run-IsValid broken_run (new_ring-IsValid 2 pool create (omega arith) new_ring_run)

on_worker_destroy-Settled_example :
    Settled (on_worker_destroy backend broken 0) 0 (submission_at broken 0).metadata_slot
on_worker_destroy-Settled_example =
    on_worker_destroy-Settled backend broken 0 broken-IsValid
      (subst PoolIsValid (sym broken_pool) pool-IsValid) broken-Owns
      (λ drained unknown. not_both undrained drained)
      (subst (λ (p : SlotPool). p.slot_count ≤ max_word) (sym broken_pool) (omega arith))
      broken_inside broken-used
  where
    not_both : {b : Bool} → b ≡ false → b ≡ true → ⊥
    not_both e f = cc
