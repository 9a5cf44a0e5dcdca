-- ===== src/Queue/History.antt =====
-- Any interleaving of the sections of a queue's operations, by any threads.
use iom.Base.{
  max_word, Exception, ℕ, ◌≤◌, ◌≡◌, sym, ap, subst, ◌∙◌, ◌≢◌, Option, none, some, [], arith,
}
use iom.Queue.{
  DeviceOps, reserve_sequence, admit, abandon_sequence, begin_pump, pick, park, reject, complete,
  commit_failure, seek_next_sequence, close,
}
use iom.Queue.Nodes.{executing_count, Ascending}
use iom.Queue.Credits.{
  State, IsValid, Same-IsValid, stopped, reserve_sequence-Same, abandon_sequence-Same,
  begin_pump-Same, commit_failure-Same, seek_next_sequence-Same, close-Same,
}
use iom.Queue.Sections.{admit-IsValid, pick-IsValid, park-IsValid, reject-IsValid, complete-IsValid}

-- A section: only the pump dispatches, one sequence at a time, and a sequence that is dispatched
-- was admitted before.
pub data Step : State → State → Type 0 where
  reserves : (q : DeviceOps) (p : Option ℕ) → Step (q, p) ((reserve_sequence q).1, p)
  admits : (q : DeviceOps) (p : Option ℕ) (s : ℕ) → p ≢ some s → Step (q, p) ((admit q s).1, p)
  abandons : (q : DeviceOps) (p : Option ℕ) (s : ℕ) → Step (q, p) (abandon_sequence q s, p)
  begins : (q : DeviceOps) (p : Option ℕ) → Step (q, p) ((begin_pump q).1, p)
  picks : (q : DeviceOps) → Step (q, none) ((pick q).1, (pick q).0)
  dispatched : (q : DeviceOps) (s : ℕ) → Step (q, some s) (q, none)
  parks : (q : DeviceOps) (s : ℕ) → Step (q, some s) (park q s, none)
  rejects : (q : DeviceOps) (s : ℕ) → Step (q, some s) ((reject q s).1, none)
  completes :
      (q : DeviceOps) (p : Option ℕ) (s : ℕ) (failure : Option Exception)
      → Step (q, p) ((complete q s failure).1, p)
  commits :
      (q : DeviceOps) (p : Option ℕ) (s : ℕ) (failure : Option Exception)
      → Step (q, p) ((commit_failure q s failure).1, p)
  seeks : (q : DeviceOps) (p : Option ℕ) (s : ℕ) → Step (q, p) ((seek_next_sequence q s).1, p)
  closes : (q : DeviceOps) (p : Option ℕ) → Step (q, p) (close q, p)

pub data Run : State → State → Type 0 where
  stay : {x : State} → Run x x
  go : {x y z : State} → Run x y → Step y z → Run x z

-- A queue as its constructor leaves it.
pub record IsNew (q : DeviceOps) : Type 0 where
  pub no_nodes : q.admission_nodes ≡ []
  pub no_credits : q.admission_credits ≡ 0
  pub word : q.admission_capacity ≤ max_word

-- The invariant of a state.
abbrev pub Holds : State → Type 0
Holds (q, p) = IsValid q p

Step-Holds : {x y : State} → Step x y → Holds x → Holds y
Step-Holds (reserves q p) v = Same-IsValid q _ p (reserve_sequence-Same q) v
Step-Holds (admits q p s other) v = admit-IsValid q p s other v
Step-Holds (abandons q p s) v = Same-IsValid q _ p (abandon_sequence-Same q s) v
Step-Holds (begins q p) v = Same-IsValid q _ p (begin_pump-Same q) v
Step-Holds (picks q) v = pick-IsValid q v
Step-Holds (dispatched q s) v = stopped q (some s) v
Step-Holds (parks q s) v = park-IsValid q s v
Step-Holds (rejects q s) v = stopped _ (some s) (reject-IsValid q (some s) s v)
Step-Holds (completes q p s failure) v = complete-IsValid q p s failure v
Step-Holds (commits q p s failure) v = Same-IsValid q _ p (commit_failure-Same q s failure) v
Step-Holds (seeks q p s) v = Same-IsValid q _ p (seek_next_sequence-Same q s) v
Step-Holds (closes q p) v = Same-IsValid q _ p (close-Same q) v

Run-Holds : {x y : State} → Run x y → Holds x → Holds y
Run-Holds stay v = v
Run-Holds (go run step) v = Step-Holds step (Run-Holds run v)

IsNew-IsValid : (q : DeviceOps) → IsNew q → IsValid q none
unfolding executing_count
IsNew-IsValid q n = record {
  ascending = subst Ascending (sym n.no_nodes) tt;
  counted = n.no_credits ∙ ap executing_count (sym n.no_nodes);
  bounded = omega (arith, n.no_credits);
  word = n.word;
  running = λ s (e : none ≡ some s). cc;
}

-- From a new queue whose capacity is a word, after any interleaving of the sections of its
-- operations in which the pump dispatches one sequence at a time and a sequence being dispatched
-- is not admitted again, the credits in use are exactly the nodes that are executing, and these
-- are at most the capacity.
pub Run-credits :
    (q r : DeviceOps) (p : Option ℕ)
    → IsNew q
    → Run (q, none) (r, p)
    → (r.admission_credits ≡ executing_count r.admission_nodes)
      × (executing_count r.admission_nodes ≤ r.admission_capacity)
Run-credits q r p n run =
    let v = Run-Holds run (IsNew-IsValid q n) in
    (v.counted, subst (λ (c : ℕ). c ≤ r.admission_capacity) v.counted v.bounded)
