-- ===== src/Queue/Pick.antt =====
-- What the pump dispatches next.
use iom.Base.{
  leb, Bool-cases, Option-cases, All, ℕ, ◌≤◌, ◌<◌, ◌≡◌, refl, sym, ap, ◌∙◌, ◌≢◌, ◌⊎◌, inl, inr,
  Bool, true, false, none, some, List, [], ◌∷◌, ◌++◌, arith,
}
use mathlib.Core.List.{append_assoc}
use iom.Queue.{DeviceOps, candidate, pick}
use iom.Queue.Nodes.{find, mark}

-- No node of the sequence waits for a dispatch.
abbrev pub Busy : List (ℕ × Bool) → ℕ → Type 0
Busy nodes t = find t nodes ≢ some false

-- The sequences that have a node.
abbrev pub kept : List (ℕ × Bool) → List ℕ → List ℕ
kept nodes [] = []
kept nodes (t ∷ fifo) = elim (find t nodes) [
  | none ↦ kept nodes fifo
  | some executing ↦ t ∷ kept nodes fifo
]

-- The first sequence in the queue whose node waits.
pub record First (nodes : List (ℕ × Bool)) (fifo : List ℕ) (s : ℕ) (rest : List ℕ) : Type 0 where
  pub before : List ℕ
  pub after : List ℕ
  pub split : fifo ≡ before ++ (s ∷ after)
  pub busy : All (Busy nodes) before
  pub waits : find s nodes ≡ some false
  pub left : rest ≡ kept nodes before ++ (s ∷ after)

kept-cons :
    (nodes : List (ℕ × Bool)) (t : ℕ) (fifo : List ℕ)
    → kept nodes (t ∷ fifo) ≡ kept nodes (t ∷ []) ++ kept nodes fifo
kept-cons nodes t fifo = elim (Option-cases (find t nodes)) [
  | inl gone ↦ rw (gone, kept) refl
  | inr (executing, found) ↦ rw (found, kept) refl
]

-- A sequence that is busy or has no node is passed over, and leaves the queue in the latter case.
pass :
    (nodes : List (ℕ × Bool)) (t : ℕ) (fifo : List ℕ)
    → Busy nodes t
    → ((candidate nodes (t ∷ fifo)).0 ≡ (candidate nodes fifo).0)
      × ((candidate nodes (t ∷ fifo)).1 ≡ kept nodes (t ∷ []) ++ (candidate nodes fifo).1)
unfolding candidate
pass nodes t fifo busy = elim (Option-cases (find t nodes)) [
  | inl gone ↦ rw (gone, candidate, kept) (refl, refl)
  | inr (true, found) ↦ rw (found, candidate, kept) (refl, refl)
  | inr (false, found) ↦ absurd (busy found)
]

busy_cases : (nodes : List (ℕ × Bool)) (t : ℕ) → (find t nodes ≡ some false) ⊎ Busy nodes t
busy_cases nodes t = elim (Option-cases (find t nodes)) [
  | inl gone ↦ inr (λ e. none-no (sym gone ∙ e))
  | inr (true, found) ↦ inr (λ e. true-no (sym found ∙ e))
  | inr (false, found) ↦ inl found
]
  where
    none-no : none ≢ some false
    none-no e = cc

    true-no : some true ≢ some false
    true-no e = cc

candidate_cases :
    (nodes : List (ℕ × Bool)) (fifo : List ℕ)
    → ((s : ℕ) × ((candidate nodes fifo).0 ≡ some s) × First nodes fifo s (candidate nodes fifo).1)
      ⊎ (((candidate nodes fifo).0 ≡ none)
          × ((candidate nodes fifo).1 ≡ kept nodes fifo)
          × All (Busy nodes) fifo)
unfolding candidate
candidate_cases nodes [] = inr (refl, refl, tt)
candidate_cases nodes (t ∷ fifo) = elim (busy_cases nodes t) [
  | inl waits ↦
      rw (waits, candidate)
        (inl (
          t,
          refl,
          record { before = []; after = fifo; split = refl; busy = tt; waits = waits; left = refl },
        ))
  | inr busy ↦
      let (same, more) = pass nodes t fifo busy in
      elim (candidate_cases nodes fifo) [
        | inl (s, picked, first) ↦ inl (
          s,
          same ∙ picked,
          record {
            before = t ∷ first.before;
            after = first.after;
            split = ap (λ (u : List ℕ). t ∷ u) first.split;
            busy = (busy, first.busy);
            waits = first.waits;
            left =
                more
                ∙ ap (λ (u : List ℕ). kept nodes (t ∷ []) ++ u) first.left
                ∙ sym
                    (append_assoc (kept nodes (t ∷ [])) (kept nodes first.before) (s ∷ first.after))
                ∙ ap (λ (u : List ℕ). u ++ (s ∷ first.after))
                    (sym (kept-cons nodes t first.before));
          },
        )
        | inr (nothing, left, all_busy) ↦ inr (
          same ∙ nothing,
          more ∙ ap (λ (u : List ℕ). kept nodes (t ∷ []) ++ u) left ∙ sym (kept-cons nodes t fifo),
          (busy, all_busy),
        )
      ]
]

-- The pump picks the first sequence in the queue whose node is not executing, marks that node,
-- and takes out of the queue the sequences before it that have no node, while the queue is open
-- and has a credit left; or it picks none, changes no node and stops pumping, and the queue is
-- closing, or no credit is left, or no node in the queue waits.
pub pick_cases :
    (q : DeviceOps)
    → ((s : ℕ) × ((pick q).0 ≡ some s)
        × First q.admission_nodes q.admission_fifo s (pick q).1.admission_fifo
        × ((pick q).1.admission_nodes ≡ mark s true q.admission_nodes)
        × (q.admission_closing ≡ false)
        × (q.admission_credits < q.admission_capacity))
      ⊎ (((pick q).0 ≡ none)
          × ((pick q).1.admission_pumping ≡ false)
          × ((pick q).1.admission_nodes ≡ q.admission_nodes)
          × ((q.admission_closing ≡ true)
              ⊎ ((q.admission_capacity ≤ q.admission_credits)
                  ⊎ All (Busy q.admission_nodes) q.admission_fifo)))
unfolding pick
pick_cases q = elim (Bool-cases q.admission_closing) [
  | inl closing ↦ rw (closing, pick) (inr (refl, refl, refl, inl refl))
  | inr going ↦ elim (Bool-cases (leb q.admission_capacity q.admission_credits)) [
    | inl full ↦
        let none_left : q.admission_capacity ≤ q.admission_credits = ground arith in
        rw (going, full, pick) (inr (refl, refl, refl, inr (inl none_left)))
    | inr room ↦
        let some_left : q.admission_credits < q.admission_capacity = ground arith in
        elim (candidate_cases q.admission_nodes q.admission_fifo) [
          | inl (s, picked, first) ↦
              rw (going, room, picked, pick) (inl (s, refl, first, refl, refl, some_left))
          | inr (nothing, left, busy) ↦
              rw (going, room, nothing, pick) (inr (refl, refl, refl, inr (inr busy)))
        ]
  ]
]
