-- ===== src/Queue.antt =====
-- src/device_ops.cpp and include/iom/iom.hpp: the admission of operations to a queue. Each
-- function is one critical section under the queue's mutex; what runs between them (`prepare`,
-- `dispatch`, `rollback`) is not part of the state.
pub mod Nodes
pub mod Tokens
pub mod Pick
pub mod Credits
pub mod Sections
pub mod History
pub mod Complete
pub mod Drain
pub mod Tests
use iom.Base.{
  ltb, leb, ◌==◌, ◌!=◌, if◌then◌else◌, ltb→lt, lt→ltb, ltb→le, le→ltb, ==→eq, eq→==, Bool-cases,
  Option-cases, length, get_elem?, get_or, set, take, drop, replicate, length-append, length-set,
  length-replicate, get_or-set_self, get_or-set_ne, sum, product, All, word_mod, max_word, add_word,
  sub_word, mul_word, Exception, invalid_argument, overflow_error, out_of_range, bad_alloc,
  runtime_error, logic_error, Result, ok, throws, ◌>>=◌, ◌>>◌, require, >>=-eq-ok, require-eq-ok,
  ok-injective, ℕ, zero, suc, ◌+◌, ◌-◌, ◌*◌, ◌/◌, ◌%◌, ◌^◌, ◌≤◌, ◌<◌, bit_and, ◌≡◌, refl, sym, ap,
  subst, ◌∙◌, ◌≢◌, ◌↔◌, ◌⊎◌, inl, inr, Bool, true, false, not, ◌&&◌, ◌||◌, Option, none, some, List,
  [], ◌∷◌, ◌++◌, map, arith, dec_lt, ℕ_discrete,
}
use Prim.Native.Nat.{bit_or}
use iom.Queue.Nodes.{find, emplace, mark, erase}

-- An exception that is kept under its sequence number.
abbrev pub Failures : Type 0
Failures = List (ℕ × Exception)

-- `admission_nodes_` has the flag `executing` of each node; the closures of a node are left out.
pub record DeviceOps : Type 0 where
  pub queue_id : ℕ
  pub skipped_sequences : List (ℕ × ℕ)
  pub next_sequence : ℕ
  pub completed : ℕ
  pub failures : Failures
  pub pending_failures : Failures
  pub admission_nodes : List (ℕ × Bool)
  pub admission_fifo : List ℕ
  pub admission_credits : ℕ
  pub admission_capacity : ℕ
  pub admission_pumping : Bool
  pub admission_closing : Bool

abbrev pub sequence_bits : ℕ
sequence_bits = 55

abbrev pub sequence_mask : ℕ
sequence_mask = 2 ^ 55 - 1

abbrev pub max_sequence : ℕ
max_sequence = sequence_mask

-- The lowest queue id that is not live, and the ids that are live then.
unfoldable pub lease_from : ℕ → List Bool → Result ℕ × List Bool
lease_from i [] = (throws runtime_error, [])
lease_from i (false ∷ live) = (ok (add_word i 1), true ∷ live)
lease_from i (true ∷ live) = let (id, live') = lease_from (suc i) live in (id, true ∷ live')

unfoldable pub lease_queue_id : List Bool → Result ℕ × List Bool
lease_queue_id live = lease_from 0 live

unfoldable pub release_queue_id : List Bool → ℕ → List Bool
release_queue_id live queue_id = set live (sub_word queue_id 1) false

unfoldable pub encode_token : DeviceOps → ℕ → ℕ
encode_token q sequence = bit_or (mul_word q.queue_id (2 ^ sequence_bits)) sequence

-- Whether the last skipped range that begins at or below the sequence covers it. The ranges are
-- in the order of their begins.
unfoldable pub covers : List (ℕ × ℕ) → ℕ → Bool → Bool
covers [] sequence best = best
covers ((first, last) ∷ ranges) sequence best =
    if ltb sequence first then best else covers ranges sequence (ltb sequence last)

abbrev pub is_skipped : DeviceOps → ℕ → Bool
is_skipped q sequence = covers q.skipped_sequences sequence false

-- The checks of `wait`, which yield the sequence to wait for. A token is a word that is read as
-- a signed number.
unfoldable pub wait_sequence : DeviceOps → ℕ → Result ℕ
wait_sequence q token = do
  require (token != 0 && ltb token (2 ^ 63)) invalid_argument
  let id = token / 2 ^ sequence_bits
  let sequence = bit_and token sequence_mask
  require (id != 0) invalid_argument
  require (sequence != 0) invalid_argument
  require (id == q.queue_id) invalid_argument
  require (ltb sequence q.next_sequence) invalid_argument
  require (not (is_skipped q sequence)) invalid_argument
  ok sequence

unfoldable pub has_failure : Failures → ℕ → Bool
has_failure [] sequence = false
has_failure ((s, x) ∷ failures) sequence = s == sequence || has_failure failures sequence

-- The condition that `wait` waits for.
abbrev pub is_settled : DeviceOps → ℕ → Bool
is_settled q sequence = leb sequence q.completed || has_failure q.failures sequence

-- The first section of `submit_prepared`.
unfoldable pub reserve_sequence : DeviceOps → Result ℕ × DeviceOps
reserve_sequence q =
    if q.admission_closing
    then (throws logic_error, q)
    else if ltb max_sequence q.next_sequence
    then (throws overflow_error, q)
    else (ok q.next_sequence, record q { next_sequence = add_word q.next_sequence 1 })

-- The second section of `submit_prepared`.
unfoldable pub admit : DeviceOps → ℕ → Result (Unit {0}) × DeviceOps
admit q sequence =
    if q.admission_closing
    then (throws logic_error, q)
    else elim (find sequence q.admission_nodes) [
      | some node ↦ (throws logic_error, q)
      | none ↦ (
        ok tt,
        record q {
          admission_nodes = emplace sequence q.admission_nodes;
          admission_fifo = q.admission_fifo ++ (sequence ∷ []);
        },
      )
    ]

-- `map::erase` and `map::emplace`, the latter of a key that stays if it is there.
unfoldable pub erase_failure : ℕ → Failures → Failures
erase_failure k [] = []
erase_failure k ((s, x) ∷ failures) = if s == k then failures else (s, x) ∷ erase_failure k failures

unfoldable pub find_failure : ℕ → Failures → Option Exception
find_failure k [] = none
find_failure k ((s, x) ∷ failures) = if s == k then some x else find_failure k failures

unfoldable pub skip : ℕ → ℕ → List (ℕ × ℕ) → List (ℕ × ℕ)
skip first last [] = (first, last) ∷ []
skip first last ((f, l) ∷ ranges) =
    if f == first
    then (f, l) ∷ ranges
    else if ltb first f
    then (first, last) ∷ (f, l) ∷ ranges
    else (f, l) ∷ skip first last ranges

unfoldable pub abandon_sequence : DeviceOps → ℕ → DeviceOps
abandon_sequence q sequence =
    let q' = record q { pending_failures = erase_failure sequence q.pending_failures } in
    if q.next_sequence == add_word sequence 1 && ltb q.completed sequence
    then record q' { next_sequence = sub_word q.next_sequence 1 }
    else record q' { skipped_sequences = skip sequence (add_word sequence 1) q.skipped_sequences }

-- The first section of `pump_admission`: whether it goes on.
unfoldable pub begin_pump : DeviceOps → Bool × DeviceOps
begin_pump q =
    if q.admission_pumping || q.admission_closing
    then (false, q)
    else (true, record q { admission_pumping = true })

-- The first sequence whose node is not executing; sequences without a node are taken out before.
unfoldable pub candidate : List (ℕ × Bool) → List ℕ → Option ℕ × List ℕ
candidate nodes [] = (none, [])
candidate nodes (s ∷ fifo) =
    let (found, rest) = candidate nodes fifo in
    elim (find s nodes) [
      | none ↦ (found, rest)
      | some executing ↦ if executing then (found, s ∷ rest) else (some s, s ∷ fifo)
    ]

-- The section of `pump_admission` that picks what to dispatch next.
unfoldable pub pick : DeviceOps → Option ℕ × DeviceOps
pick q =
    let (found, fifo) = candidate q.admission_nodes q.admission_fifo in
    if q.admission_closing || leb q.admission_capacity q.admission_credits
    then (none, record q { admission_pumping = false })
    else elim found [
      | none ↦ (none, record q { admission_fifo = fifo; admission_pumping = false })
      | some s ↦ (
        some s,
        record q {
          admission_fifo = fifo;
          admission_nodes = mark s true q.admission_nodes;
          admission_credits = add_word q.admission_credits 1;
        },
      )
    ]

-- `if (admission_credits_ != 0) --admission_credits_`
abbrev pub credit_back : ℕ → ℕ
credit_back credits = if credits != 0 then sub_word credits 1 else credits

-- The section of `pump_admission` after a dispatch that found no resources.
unfoldable pub park : DeviceOps → ℕ → DeviceOps
park q sequence = elim (find sequence q.admission_nodes) [
  | none ↦ record q { admission_pumping = false }
  | some executing ↦ record q {
    admission_nodes = mark sequence false q.admission_nodes;
    admission_credits = credit_back q.admission_credits;
    admission_pumping = false;
  }
]

-- The first occurrence of a sequence taken out.
unfoldable pub remove : ℕ → List ℕ → List ℕ
remove s [] = []
remove s (x ∷ fifo) = if x == s then fifo else x ∷ remove s fifo

-- A node taken out, with its credit if it was executing.
abbrev pub drop_node : DeviceOps → ℕ → Bool → DeviceOps
drop_node q sequence executing = record q {
  admission_nodes = erase sequence q.admission_nodes;
  admission_fifo = remove sequence q.admission_fifo;
  admission_credits = if executing then credit_back q.admission_credits else q.admission_credits;
}

-- The section of `pump_admission` after a failure of the dispatch that its caller waits for, and
-- whether the sequence is to be abandoned.
unfoldable pub reject : DeviceOps → ℕ → Bool × DeviceOps
reject q sequence = elim (find sequence q.admission_nodes) [
  | none ↦ (false, q)
  | some executing ↦ (true, drop_node q sequence executing)
]

-- The first failure that is kept for a sequence stays.
abbrev pub keep_failure : ℕ → Option Exception → Failures → Failures
keep_failure sequence none failures = failures
keep_failure sequence (some x) failures =
    if has_failure failures sequence then failures else (sequence, x) ∷ failures

-- `complete`, before it pumps.
unfoldable pub complete : DeviceOps → ℕ → Option Exception → Result (Unit {0}) × DeviceOps
complete q sequence failure =
    let failure' : Option Exception = elim failure [
      | some x ↦ some x
      | none ↦ find_failure sequence q.pending_failures
    ] in
    if sequence == 0 || leb q.next_sequence sequence
    then (throws invalid_argument, q)
    else elim (find sequence q.admission_nodes) [
      | none ↦ ((if has_failure q.failures sequence then ok tt else throws invalid_argument), q)
      | some executing ↦ (
        ok tt,
        record (drop_node q sequence executing) {
          pending_failures = erase_failure sequence q.pending_failures;
          failures = keep_failure sequence failure' q.failures;
          completed = if ltb q.completed sequence then sequence else q.completed;
        },
      )
    ]

unfoldable pub commit_failure : DeviceOps → ℕ → Option Exception → Result (Unit {0}) × DeviceOps
commit_failure q sequence none = (throws invalid_argument, q)
commit_failure q sequence (some failure) =
    if sequence == 0
      || leb q.next_sequence sequence
      || leb sequence q.completed
      || is_skipped q sequence
    then (throws invalid_argument, q)
    else (
      ok tt,
      record q {
        pending_failures = (sequence, failure) ∷ erase_failure sequence q.pending_failures;
      },
    )

unfoldable pub seek_next_sequence : DeviceOps → ℕ → Result (Unit {0}) × DeviceOps
seek_next_sequence q next_sequence =
    if next_sequence == 0
      || ltb next_sequence q.next_sequence
      || ltb (add_word max_sequence 1) next_sequence
    then (throws invalid_argument, q)
    else (
      ok tt,
      record q {
        skipped_sequences =
            if ltb q.next_sequence next_sequence
            then skip q.next_sequence next_sequence q.skipped_sequences
            else q.skipped_sequences;
        next_sequence = next_sequence;
      },
    )

-- The first section of `close_and_drain`, and the sequences that it then completes.
unfoldable pub close : DeviceOps → DeviceOps
close q = record q { admission_closing = true }

unfoldable pub parked : List (ℕ × Bool) → List ℕ → List ℕ
parked nodes [] = []
parked nodes (s ∷ fifo) = elim (find s nodes) [
  | none ↦ parked nodes fifo
  | some executing ↦ if executing then parked nodes fifo else s ∷ parked nodes fifo
]

-- `close_and_drain` where nothing else runs between its sections.
unfoldable pub drain : List ℕ → DeviceOps → DeviceOps
drain [] q = q
drain (s ∷ sequences) q = elim (find s q.admission_nodes) [
  | none ↦ drain sequences q
  | some executing ↦
      if executing then drain sequences q else drain sequences (complete q s (some runtime_error)).1
]

unfoldable pub close_and_drain : DeviceOps → DeviceOps
close_and_drain q = drain (parked q.admission_nodes q.admission_fifo) (close q)
