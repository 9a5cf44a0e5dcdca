-- ===== src/Queue/Tests.antt =====
-- A queue of capacity two.
use iom.Base.{
  All, ok, ℕ, ◌≤◌, ◌<◌, ◌≡◌, refl, ◌≢◌, ◌⊎◌, inl, inr, Bool, true, false, none, some, List, [], ◌∷◌,
  arith,
}
use iom.Queue.{
  DeviceOps, encode_token, wait_sequence, covers, reserve_sequence, admit, candidate, pick,
  is_settled, close_and_drain, find_failure,
}
use iom.Queue.Nodes.{find, emplace, mark, executing_count}
use iom.Queue.Tokens.{wait_sequence-encode_token}
use iom.Queue.Pick.{Busy, First, pick_cases}
use iom.Queue.History.{Run, stay, go, reserves, admits, picks, IsNew, Run-credits}
use iom.Queue.Complete.{drained_failure}
use iom.Queue.Drain.{close_and_drain-fails}

abbrev queue : List (ℕ × Bool) → List ℕ → ℕ → DeviceOps
queue nodes fifo credits = record {
  queue_id = 3;
  skipped_sequences = (5, 7) ∷ [];
  next_sequence = 9;
  completed = 0;
  failures = [];
  pending_failures = [];
  admission_nodes = nodes;
  admission_fifo = fifo;
  admission_credits = credits;
  admission_capacity = 2;
  admission_pumping = false;
  admission_closing = false;
}

abbrev empty : DeviceOps
empty = queue [] [] 0

abbrev busy : DeviceOps
busy = queue ((1, true) ∷ (2, false) ∷ (8, false) ∷ []) (1 ∷ 4 ∷ 2 ∷ 8 ∷ []) 1

wait_sequence-encode_token_example : wait_sequence busy (encode_token busy 8) ≡ ok 8
unfolding covers
wait_sequence-encode_token_example =
    wait_sequence-encode_token busy busy 8 (omega arith, omega arith) (omega arith) (omega arith)

pick_run : (pick busy).0 ≡ some 2
unfolding pick candidate find
pick_run = refl

pick_cases_example :
    ((s : ℕ) × ((pick busy).0 ≡ some s)
      × First busy.admission_nodes busy.admission_fifo s (pick busy).1.admission_fifo
      × ((pick busy).1.admission_nodes ≡ mark s true busy.admission_nodes)
      × (busy.admission_closing ≡ false)
      × (busy.admission_credits < busy.admission_capacity))
    ⊎ (((pick busy).0 ≡ none)
        × ((pick busy).1.admission_pumping ≡ false)
        × ((pick busy).1.admission_nodes ≡ busy.admission_nodes)
        × ((busy.admission_closing ≡ true)
            ⊎ ((busy.admission_capacity ≤ busy.admission_credits)
                ⊎ All (Busy busy.admission_nodes) busy.admission_fifo)))
pick_cases_example = pick_cases busy

empty-IsNew : IsNew empty
empty-IsNew = record { no_nodes = refl; no_credits = refl; word = omega arith }

-- Sequence 9 is reserved, admitted, picked, and parked again.
abbrev admitted : DeviceOps
admitted = (admit (reserve_sequence empty).1 9).1

abbrev sequence : ℕ
sequence = 9

no_dispatch : none ≢ some sequence
no_dispatch e = cc

run : Run (empty, none) ((pick admitted).1, (pick admitted).0)
run =
    go (go (go stay (reserves empty none)) (admits (reserve_sequence empty).1 none 9 no_dispatch))
      (picks admitted)

run_node : (pick admitted).1.admission_nodes ≡ (9, true) ∷ []
unfolding pick candidate find mark admit emplace reserve_sequence
run_node = refl

Run-credits_example :
    ((pick admitted).1.admission_credits ≡ executing_count (pick admitted).1.admission_nodes)
    × (executing_count (pick admitted).1.admission_nodes ≤ (pick admitted).1.admission_capacity)
Run-credits_example = Run-credits empty (pick admitted).1 (pick admitted).0 empty-IsNew run

waits_run : find 8 busy.admission_nodes ≡ some false
unfolding find
waits_run = refl

close_and_drain-fails_example :
    ((close_and_drain busy).admission_closing ≡ true)
    × (is_settled (close_and_drain busy) 8 ≡ true)
    × (find_failure 8 (close_and_drain busy).failures
        ≡ some (drained_failure (find_failure 8 busy.failures)))
close_and_drain-fails_example =
    close_and_drain-fails busy 8 (inr (inr (inr (inl refl)))) waits_run (omega arith) (omega arith)
