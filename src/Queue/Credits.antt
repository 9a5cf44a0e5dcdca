-- ===== src/Queue/Credits.antt =====
-- The credits of a queue, over any interleaving of the sections of its operations.
use iom.Base.{
  ltb, leb, ◌==◌, Bool-cases, max_word, add_word, Exception, ℕ, ◌≤◌, ◌≡◌, refl, sym, ap, subst, ◌∙◌,
  ◌≢◌, inl, inr, Bool, false, ◌&&◌, ◌||◌, Option, none, some, List, arith,
}
use iom.Queue.Nodes.{find, executing_count, Ascending}
use iom.Queue.{
  DeviceOps, max_sequence, is_skipped, reserve_sequence, abandon_sequence, begin_pump,
  commit_failure, seek_next_sequence, close,
}

-- A queue, and the sequence that the pump dispatches.
abbrev pub State : Type 0
State = DeviceOps × Option ℕ

-- What holds between any two sections.
pub record IsValid (q : DeviceOps) (dispatching : Option ℕ) : Type 0 where
  pub ascending : Ascending q.admission_nodes
  pub counted : q.admission_credits ≡ executing_count q.admission_nodes
  pub bounded : q.admission_credits ≤ q.admission_capacity
  pub word : q.admission_capacity ≤ max_word
  pub running : (s : ℕ) → dispatching ≡ some s → find s q.admission_nodes ≢ some false

-- The parts of a queue that the invariant reads are the same.
abbrev pub Same : DeviceOps → DeviceOps → Type 0
Same q r =
    (r.admission_nodes ≡ q.admission_nodes)
    × (r.admission_credits ≡ q.admission_credits)
    × (r.admission_capacity ≡ q.admission_capacity)

pub Same-IsValid : (q r : DeviceOps) (p : Option ℕ) → Same q r → IsValid q p → IsValid r p
Same-IsValid q r p (nodes, credits, capacity) v = record {
  ascending = subst Ascending (sym nodes) v.ascending;
  counted = credits ∙ v.counted ∙ ap executing_count (sym nodes);
  bounded = omega (arith, v.bounded);
  word = omega (arith, v.word);
  running =
      λ s e. subst (λ (m : List (ℕ × Bool)). find s m ≢ some false) (sym nodes) (v.running s e);
}

-- Nothing is dispatched any more.
pub stopped : (q : DeviceOps) (p : Option ℕ) → IsValid q p → IsValid q none
stopped q p v = record {
  ascending = v.ascending;
  counted = v.counted;
  bounded = v.bounded;
  word = v.word;
  running = λ s (e : none ≡ some s). cc;
}

pub reserve_sequence-Same : (q : DeviceOps) → Same q (reserve_sequence q).1
unfolding reserve_sequence
reserve_sequence-Same q = elim (Bool-cases q.admission_closing) [
  | inl closing ↦ rw (closing, reserve_sequence) (refl, refl, refl)
  | inr going ↦ elim (Bool-cases (ltb max_sequence q.next_sequence)) [
    | inl over ↦ rw (going, over, reserve_sequence) (refl, refl, refl)
    | inr fits ↦ rw (going, fits, reserve_sequence) (refl, refl, refl)
  ]
]

pub abandon_sequence-Same : (q : DeviceOps) (s : ℕ) → Same q (abandon_sequence q s)
unfolding abandon_sequence
abandon_sequence-Same q s =
    elim (Bool-cases (q.next_sequence == add_word s 1 && ltb q.completed s)) [
      | inl last ↦ rw (last, abandon_sequence) (refl, refl, refl)
      | inr before ↦ rw (before, abandon_sequence) (refl, refl, refl)
    ]

pub begin_pump-Same : (q : DeviceOps) → Same q (begin_pump q).1
unfolding begin_pump
begin_pump-Same q = elim (Bool-cases (q.admission_pumping || q.admission_closing)) [
  | inl busy ↦ rw (busy, begin_pump) (refl, refl, refl)
  | inr free ↦ rw (free, begin_pump) (refl, refl, refl)
]

pub commit_failure-Same :
    (q : DeviceOps) (s : ℕ) (x : Option Exception) → Same q (commit_failure q s x).1
unfolding commit_failure
commit_failure-Same q s none = (refl, refl, refl)
commit_failure-Same q s (some x) =
    elim (Bool-cases (s == 0 || leb q.next_sequence s || leb s q.completed || is_skipped q s)) [
      | inl refused ↦ rw (refused, commit_failure) (refl, refl, refl)
      | inr accepted ↦ rw (accepted, commit_failure) (refl, refl, refl)
    ]

pub seek_next_sequence-Same : (q : DeviceOps) (s : ℕ) → Same q (seek_next_sequence q s).1
unfolding seek_next_sequence
seek_next_sequence-Same q s =
    elim (Bool-cases (s == 0 || ltb s q.next_sequence || ltb (add_word max_sequence 1) s)) [
      | inl refused ↦ rw (refused, seek_next_sequence) (refl, refl, refl)
      | inr accepted ↦ rw (accepted, seek_next_sequence) (refl, refl, refl)
    ]

pub close-Same : (q : DeviceOps) → Same q (close q)
unfolding close
close-Same q = (refl, refl, refl)
