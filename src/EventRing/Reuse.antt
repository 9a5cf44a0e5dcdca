-- ===== src/EventRing/Reuse.antt =====
-- The events that `try_acquire` of the ring gives out again after a history.
use iom.Base.{
  ◌!=◌, length, get_or, get_or-set_self, max_word, invalid_argument, Result, ok, require, >>=-eq-ok,
  ok-injective, ℕ, zero, suc, ◌+◌, ◌≤◌, ◌<◌, ◌≡◌, refl, sym, ap, subst, ◌∙◌, ◌≢◌, inl, inr, false,
  Option, none, some, List, [], ◌∷◌, map, arith,
}
use iom.Pool.{SlotPool}
use iom.EventRing.{
  EventRing, Submission, Slot, new_slot, slot_at, submission_at, retire_unknown, new_ring,
  create_events, try_acquire,
}
use iom.EventRing.Change.{IsValid}
use iom.EventRing.Acquire.{try_acquire-cases, acquired, submission_new, unknown-apart}
use iom.EventRing.History.{Run, new_ring-Run}
use iom.EventRing.Events.{events, acquired-events, Run-events}

get_or-event :
    (slots : List Slot) (i : ℕ)
    → get_or (map (λ x. x.event) slots) i 0 ≡ (get_or slots i (new_slot 0)).event
get_or-event [] i = refl
get_or-event (x ∷ slots) zero = refl
get_or-event (x ∷ slots) (suc i) = get_or-event slots i

length-event : (slots : List Slot) → length (map (λ x. x.event) slots) ≡ length slots
length-event [] = refl
length-event (x ∷ slots) = ap suc (length-event slots)

-- The event of each slot is one that was created.
create_events-created :
    (create : ℕ → Result ℕ) (rounds index : ℕ) {slots : List Slot}
    → create_events create rounds index ≡ ok slots
    → (length slots ≡ rounds)
      × ((i : ℕ) → i < rounds → create (index + i) ≡ ok (get_or slots i (new_slot 0)).event)
unfolding create_events
create_events-created create zero index {slots} e =
    subst
      (λ (l : List Slot).
        (length l ≡ 0)
        × ((i : ℕ) → i < 0 → create (index + i) ≡ ok (get_or l i (new_slot 0)).event))
      (ok-injective [] slots e) (refl, λ i h. absurd (omega (arith, h)))
create_events-created create (suc rounds) index {slots} e =
    let (event, created, e1) = >>=-eq-ok (create index) _ e in
    let (rest, others, e2) = >>=-eq-ok (create_events create rounds (suc index)) _ e1 in
    let (long, made) = create_events-created create rounds (suc index) others in
    subst
      (λ (l : List Slot).
        (length l ≡ suc rounds)
        × ((i : ℕ) → i < suc rounds → create (index + i) ≡ ok (get_or l i (new_slot 0)).event))
      (ok-injective (new_slot event ∷ rest) slots e2) (ap suc long, at event rest created made)
  where
    at :
        (event : ℕ) (rest : List Slot)
        → create index ≡ ok event
        → ((i : ℕ) → i < rounds → create (suc index + i) ≡ ok (get_or rest i (new_slot 0)).event)
        → (i : ℕ) → i < suc rounds
        → create (index + i) ≡ ok (get_or (new_slot event ∷ rest) i (new_slot 0)).event
    at event rest created made zero h = ap create (omega arith) ∙ created
    at event rest created made (suc i) h = ap create (omega arith) ∙ made i (omega (arith, h))

-- The ring has as many slots as were asked for, each with its created event.
abbrev Created : (ℕ → Result ℕ) → ℕ → EventRing → Type 0
Created create event_count r =
    (length r.event_slots ≡ event_count)
    × ((i : ℕ) → i < event_count → create i ≡ ok (slot_at r i).event)

new_ring-Created :
    (event_count : ℕ) (pool : SlotPool) (create : ℕ → Result ℕ) {r : EventRing}
    → new_ring event_count pool (ok tt) create ≡ ok r
    → Created create event_count r
unfolding new_ring
new_ring-Created event_count pool create {r} e =
    let (u, some_event, e1) = >>=-eq-ok (require (event_count != 0) invalid_argument) _ e in
    let (slots, created, e2) = >>=-eq-ok (create_events create event_count 0) _ e1 in
    let (long, new) = create_events-created create event_count 0 created in
    subst (Created create event_count) (ok-injective _ r e2)
      (long, λ i h. ap create (omega arith) ∙ new i h)

events-Created :
    (create : ℕ → Result ℕ) (event_count : ℕ) (r r' : EventRing)
    → events r' ≡ events r
    → Created create event_count r
    → Created create event_count r'
events-Created create event_count r r' same (long, made) = (
  sym (length-event r'.event_slots)
      ∙ ap (λ (l : List ℕ). length l) same
      ∙ length-event r.event_slots
      ∙ long,
  λ i h.
      made i h
      ∙ ap ok (
          sym (get_or-event r.event_slots i)
          ∙ ap (λ (l : List ℕ). get_or l i 0) (sym same)
          ∙ get_or-event r'.event_slots i),
)

-- A submission with a slot that was not in use, and with an event that no submission retired
-- unknown with.
abbrev pub Apart : EventRing → EventRing → ℕ → Type 0
Apart r r' n =
    ((slot_at r (submission_at r' n).pool_index).in_use ≡ false)
    × ((slot_at r' (submission_at r' n).pool_index).owner ≡ some n)
    × ((t : ℕ)
        → t < length r.submissions
        → (submission_at r t).disposition ≡ retire_unknown
        → ((submission_at r' n).pool_index ≢ (submission_at r t).pool_index)
          × ((slot_at r' (submission_at r' n).pool_index).event
              ≢ (slot_at r (submission_at r t).pool_index).event))

-- No event is created twice.
abbrev pub Distinct : (ℕ → Result ℕ) → ℕ → Type 0
Distinct create event_count =
    (i j event : ℕ)
    → i < event_count
    → j < event_count
    → create i ≡ ok event
    → create j ≡ ok event
    → i ≡ j

acquired-Apart :
    (create : ℕ → Result ℕ) (event_count : ℕ) (r : EventRing) (index : ℕ)
    → Distinct create event_count
    → Created create event_count r
    → IsValid r
    → index < length r.event_slots
    → (slot_at r index).in_use ≡ false
    → Apart r (acquired r index) (length r.submissions)
acquired-Apart create event_count r index distinct made v inside free =
    let newest = submission_new r index v inside free in
    subst
      (λ (x : Submission).
        ((slot_at r x.pool_index).in_use ≡ false)
        × ((slot_at (acquired r index) x.pool_index).owner ≡ some (length r.submissions))
        × ((t : ℕ)
            → t < length r.submissions
            → (submission_at r t).disposition ≡ retire_unknown
            → (x.pool_index ≢ (submission_at r t).pool_index)
              × ((slot_at (acquired r index) x.pool_index).event
                  ≢ (slot_at r (submission_at r t).pool_index).event)))
      (sym newest)
      (
        free,
        ap (λ (x : Slot). x.owner) (get_or-set_self r.event_slots index _ (new_slot 0) inside),
        λ t h unknown.
            let other = unknown-apart r index v inside free t h unknown in
            (other, λ same. other (one (v.inside t h) same)),
      )
  where
    -- Slots with the same event are one.
    one :
        {k : ℕ}
        → k < r.event_count
        → (slot_at (acquired r index) index).event ≡ (slot_at r k).event
        → index ≡ k
    one {k} h same =
        let (long, new) =
          events-Created create event_count r (acquired r index) (acquired-events r index) made in
        distinct index k _ (omega (arith, inside, made.0)) (omega (arith, h, made.0, v.size))
          (new index (omega (arith, inside, made.0)))
          (made.1 k (omega (arith, h, made.0, v.size)) ∙ ap ok (sym same))

-- From a new event ring whose event count is a word, and of whose events none is created twice,
-- after any sequence of acquisitions, marks, completions, ends of worker tasks and destructions
-- before the drain of the queue, in which the marks and worker calls are for submissions that
-- have their slot, no completion is run for a submission that retired unknown and has a recorded
-- event or a drained stream, and no worker task ends for one that retired unknown and whose
-- stream was drained: a submission that `try_acquire` then yields has a slot that was not in
-- use, which it owns now; neither the slot nor its event is one that an earlier submission
-- retired unknown with.
pub try_acquire-Apart :
    (event_count : ℕ) (pool : SlotPool) (create : ℕ → Result ℕ) {r r' r'' : EventRing} {n : ℕ}
    → event_count ≤ max_word
    → Distinct create event_count
    → new_ring event_count pool (ok tt) create ≡ ok r
    → Run r r'
    → try_acquire (ok tt) r' ≡ ok (some n, r'')
    → Apart r' r'' n
try_acquire-Apart event_count pool create {r = r} {r' = r'} {r'' = r''} {n = n} word distinct made
      run e =
    elim (try_acquire-cases r') [
      | inr nothing ↦ absurd (none_some (ok-injective nothing_taken result (sym nothing ∙ e)))
      | inl (index, inside, free, got) ↦
          let v = new_ring-Run event_count pool create word made run in
          let created =
            events-Created create event_count r r' (Run-events run)
              (new_ring-Created event_count pool create made) in
          let taken : Option ℕ × EventRing = (some (length r'.submissions), acquired r' index) in
          let same = ok-injective taken result (sym got ∙ e) in
          let number = same_some (ap (λ (p : Option ℕ × EventRing). p.0) same) in
          subst (λ (p : Option ℕ × EventRing). Apart r' p.1 n) same
            (subst (Apart r' (acquired r' index)) number
              (acquired-Apart create event_count r' index distinct created v inside free))
    ]
  where
    result : Option ℕ × EventRing
    result = (some n, r'')

    nothing_taken : Option ℕ × EventRing
    nothing_taken = (none, r')

    none_some : nothing_taken ≡ result → ⊥
    none_some e = not_some (ap (λ (p : Option ℕ × EventRing). p.0) e)
      where
        not_some : {x : ℕ} → none ≡ some x → ⊥
        not_some e = cc

    same_some : {x y : ℕ} → some x ≡ some y → x ≡ y
    same_some e = cc
