-- ===== src/Queue/Complete.antt =====
-- What the completion of a sequence changes, and what it keeps for the others.
use iom.Base.{
  leb, ◌==◌, ==→eq, eq→==, Bool-cases, Option-cases, Exception, runtime_error, ℕ, ◌≤◌, ◌<◌, ◌≡◌,
  refl, sym, ap, subst, ◌∙◌, ◌⊎◌, inl, inr, Bool, true, false, ◌||◌, Option, none, some, [], ◌∷◌,
  arith,
}
use iom.Queue.{DeviceOps, Failures, find_failure, keep_failure, has_failure, complete}
use iom.Queue.Nodes.{find, find-erase_ne}

pub complete-completed :
    (q : DeviceOps) (s : ℕ) (x : Option Exception) → q.completed ≤ (complete q s x).1.completed
unfolding complete
complete-completed q s x = elim (Bool-cases (s == 0 || leb q.next_sequence s)) [
  | inl refused ↦ rw (refused, complete) (omega arith)
  | inr accepted ↦ elim (Option-cases (find s q.admission_nodes)) [
    | inl gone ↦ rw (accepted, gone, complete) (omega arith)
    | inr (b, found) ↦ rw (accepted, found, complete) (ground arith)
  ]
]

pub complete-next_sequence :
    (q : DeviceOps) (s : ℕ) (x : Option Exception)
    → (complete q s x).1.next_sequence ≡ q.next_sequence
unfolding complete
complete-next_sequence q s x = elim (Bool-cases (s == 0 || leb q.next_sequence s)) [
  | inl refused ↦ rw (refused, complete) refl
  | inr accepted ↦ elim (Option-cases (find s q.admission_nodes)) [
    | inl gone ↦ rw (accepted, gone, complete) refl
    | inr (b, found) ↦ rw (accepted, found, complete) refl
  ]
]

pub complete-find :
    (q : DeviceOps) (s t : ℕ) (x : Option Exception)
    → (s == t) ≡ false
    → find t (complete q s x).1.admission_nodes ≡ find t q.admission_nodes
unfolding complete
complete-find q s t x other = elim (Bool-cases (s == 0 || leb q.next_sequence s)) [
  | inl refused ↦ rw (refused, complete) refl
  | inr accepted ↦ elim (Option-cases (find s q.admission_nodes)) [
    | inl gone ↦ rw (accepted, gone, complete) refl
    | inr (b, found) ↦ rw (accepted, found, complete) (find-erase_ne t s q.admission_nodes other)
  ]
]

pub complete_done :
    (q : DeviceOps) (s : ℕ) (b : Bool) (x : Option Exception)
    → find s q.admission_nodes ≡ some b
    → 0 < s
    → s < q.next_sequence
    → s ≤ (complete q s x).1.completed
unfolding complete
complete_done q s b x found pos low =
    let accepted : (s == 0 || leb q.next_sequence s) ≡ false = ground arith in
    rw (accepted, found, complete) (ground arith)

-- The failure that a sequence without a dispatch has after the drain: the one kept for it before, or
-- that of the drain.
abbrev pub drained_failure : Option Exception → Exception
drained_failure none = runtime_error
drained_failure (some x) = x

has_failure-find_failure :
    (s : ℕ) (failures : Failures)
    → ((has_failure failures s ≡ false) × (find_failure s failures ≡ none))
      ⊎ ((x : Exception) × (has_failure failures s ≡ true) × (find_failure s failures ≡ some x))
unfolding has_failure find_failure
has_failure-find_failure s [] = inl (refl, refl)
has_failure-find_failure s ((t, x) ∷ failures) = elim (Bool-cases (t == s)) [
  | inl same ↦ rw (same, has_failure, find_failure) (inr (x, refl, refl))
  | inr other ↦ rw (other, has_failure, find_failure) (has_failure-find_failure s failures)
]

-- What a completion with a failure leaves as the failures.
abbrev keep : ℕ → Failures → Failures
keep s failures = keep_failure s (some runtime_error) failures

keep_self :
    (s : ℕ) (failures : Failures)
    → find_failure s (keep s failures) ≡ some (drained_failure (find_failure s failures))
unfolding find_failure
keep_self s failures = elim (has_failure-find_failure s failures) [
  | inl (fresh, missing) ↦ rw (fresh, missing, eq→== s s refl) refl
  | inr (x, kept, found) ↦ rw (kept, found) refl
]

keep_other :
    (s t : ℕ) (failures : Failures)
    → (t == s) ≡ false
    → find_failure s (keep t failures) ≡ find_failure s failures
unfolding find_failure
keep_other s t failures other = elim (Bool-cases (has_failure failures t)) [
  | inl kept ↦ rw kept refl
  | inr fresh ↦ rw (fresh, other) refl
]

-- A completion of another sequence, and of this one.
pub complete-other :
    (q : DeviceOps) (s t : ℕ)
    → (t == s) ≡ false
    → find_failure s (complete q t (some runtime_error)).1.failures ≡ find_failure s q.failures
unfolding complete
complete-other q s t other = elim (Bool-cases (t == 0 || leb q.next_sequence t)) [
  | inl refused ↦ rw (refused, complete) refl
  | inr accepted ↦ elim (Option-cases (find t q.admission_nodes)) [
    | inl gone ↦ rw (accepted, gone, complete) refl
    | inr (b, found) ↦ rw (accepted, found, complete) (keep_other s t q.failures other)
  ]
]

pub complete-kept :
    (q : DeviceOps) (s t : ℕ) (x : Exception)
    → find_failure s q.failures ≡ some x
    → find_failure s (complete q t (some runtime_error)).1.failures ≡ some x
unfolding complete
complete-kept q s t x kept = elim (Bool-cases (t == s)) [
  | inr other ↦ complete-other q s t other ∙ kept
  | inl same ↦ elim (Bool-cases (t == 0 || leb q.next_sequence t)) [
    | inl refused ↦ rw (refused, complete) kept
    | inr accepted ↦ elim (Option-cases (find t q.admission_nodes)) [
      | inl gone ↦ rw (accepted, gone, complete) kept
      | inr (b, found) ↦
          rw (accepted, found, complete)
            (subst (λ (n : ℕ). find_failure s (keep n q.failures) ≡ some x) (sym (==→eq t s same))
              (keep_self s q.failures
                ∙ ap (λ (y : Option Exception). some (drained_failure y)) kept))
    ]
  ]
]

pub complete_failed :
    (q : DeviceOps) (s : ℕ) (b : Bool)
    → find s q.admission_nodes ≡ some b
    → 0 < s
    → s < q.next_sequence
    → find_failure s (complete q s (some runtime_error)).1.failures
      ≡ some (drained_failure (find_failure s q.failures))
unfolding complete
complete_failed q s b found pos low =
    let accepted : (s == 0 || leb q.next_sequence s) ≡ false = ground arith in
    rw (accepted, found, complete) (keep_self s q.failures)

pub complete-closing :
    (q : DeviceOps) (s : ℕ) (x : Option Exception)
    → (complete q s x).1.admission_closing ≡ q.admission_closing
unfolding complete
complete-closing q s x = elim (Bool-cases (s == 0 || leb q.next_sequence s)) [
  | inl refused ↦ rw (refused, complete) refl
  | inr accepted ↦ elim (Option-cases (find s q.admission_nodes)) [
    | inl gone ↦ rw (accepted, gone, complete) refl
    | inr (b, found) ↦ rw (accepted, found, complete) refl
  ]
]
