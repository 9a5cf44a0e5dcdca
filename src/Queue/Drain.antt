-- ===== src/Queue/Drain.antt =====
-- The closing of a queue, and what its drain does with the sequences that wait for a dispatch.
use iom.Base.{
  leb, ◌==◌, ==→eq, Bool-cases, Option-cases, Among, Exception, runtime_error, ℕ, ◌≤◌, ◌<◌, ◌≡◌,
  refl, sym, ap, subst, ◌∙◌, inl, inr, Bool, true, false, ◌||◌, Option, some, List, [], ◌∷◌, arith,
}
use iom.Queue.{
  DeviceOps, complete, drain, close, close_and_drain, parked, is_settled, has_failure, find_failure,
}
use iom.Queue.Nodes.{find}
use iom.Queue.Complete.{
  drained_failure, complete-completed, complete-next_sequence, complete-find, complete_done,
  complete-other, complete-kept, complete_failed, complete-closing,
}

-- A sequence that waits for a dispatch.
abbrev pub Waits : DeviceOps → ℕ → Type 0
Waits q s = (find s q.admission_nodes ≡ some false) × (0 < s) × (s < q.next_sequence)

drain-completed : (sequences : List ℕ) (q : DeviceOps) → q.completed ≤ (drain sequences q).completed
unfolding drain
drain-completed [] q = omega arith
drain-completed (t ∷ sequences) q = elim (Option-cases (find t q.admission_nodes)) [
  | inl gone ↦ rw (gone, drain) (drain-completed sequences q)
  | inr (true, found) ↦ rw (found, drain) (drain-completed sequences q)
  | inr (false, found) ↦
      let next = (complete q t (some runtime_error)).1 in
      rw (found, drain)
        (omega (arith, complete-completed q t (some runtime_error), drain-completed sequences next))
]

drain-closing :
    (sequences : List ℕ) (q : DeviceOps)
    → (drain sequences q).admission_closing ≡ q.admission_closing
unfolding drain
drain-closing [] q = refl
drain-closing (t ∷ sequences) q = elim (Option-cases (find t q.admission_nodes)) [
  | inl gone ↦ rw (gone, drain) (drain-closing sequences q)
  | inr (true, found) ↦ rw (found, drain) (drain-closing sequences q)
  | inr (false, found) ↦
      rw (found, drain)
        (drain-closing sequences (complete q t (some runtime_error)).1
          ∙ complete-closing q t (some runtime_error))
]

drain-kept :
    (sequences : List ℕ) (q : DeviceOps) (s : ℕ) (x : Exception)
    → find_failure s q.failures ≡ some x
    → find_failure s (drain sequences q).failures ≡ some x
unfolding drain
drain-kept [] q s x kept = kept
drain-kept (t ∷ sequences) q s x kept = elim (Option-cases (find t q.admission_nodes)) [
  | inl gone ↦ rw (gone, drain) (drain-kept sequences q s x kept)
  | inr (true, found) ↦ rw (found, drain) (drain-kept sequences q s x kept)
  | inr (false, found) ↦
      rw (found, drain)
        (drain-kept sequences (complete q t (some runtime_error)).1 s x
          (complete-kept q s t x kept))
]

-- The sequence is completed, and has its failure.
abbrev Failed : DeviceOps → DeviceOps → ℕ → Type 0
Failed q q' s =
    (s ≤ q'.completed)
    × (find_failure s q'.failures ≡ some (drained_failure (find_failure s q.failures)))

drain_done :
    (sequences : List ℕ) (q : DeviceOps) (s : ℕ)
    → Among s sequences
    → Waits q s
    → Failed q (drain sequences q) s
unfolding drain
drain_done [] q s among waits = absurd among
drain_done (t ∷ sequences) q s among waits = elim (Bool-cases (t == s)) [
  | inl same ↦
      let here : t ≡ s = ==→eq t s same in
      let found : find t q.admission_nodes ≡ some false =
        subst (λ (n : ℕ). find n q.admission_nodes ≡ some false) (sym here) waits.0 in
      let next = (complete q t (some runtime_error)).1 in
      let settled =
        complete_done q t false (some runtime_error) found (omega (arith, here, waits.1))
          (omega (arith, here, waits.2)) in
      let failed : find_failure s next.failures
          ≡ some (drained_failure (find_failure s q.failures)) =
        subst
          (λ (n : ℕ).
            find_failure n next.failures ≡ some (drained_failure (find_failure n q.failures)))
          here
          (complete_failed q t false found (omega (arith, here, waits.1))
            (omega (arith, here, waits.2))) in
      rw (found, drain)
        (
          omega (arith, here, settled, drain-completed sequences next),
          drain-kept sequences next s (drained_failure (find_failure s q.failures)) failed,
        )
  | inr other ↦
      let later = further s t sequences other among in
      elim (Option-cases (find t q.admission_nodes)) [
        | inl gone ↦ rw (gone, drain) (drain_done sequences q s later waits)
        | inr (true, found) ↦ rw (found, drain) (drain_done sequences q s later waits)
        | inr (false, found) ↦
            let next = (complete q t (some runtime_error)).1 in
            let still : Waits next s = (
              complete-find q t s (some runtime_error) other ∙ waits.0,
              waits.1,
              omega (arith, waits.2, complete-next_sequence q t (some runtime_error)),
            ) in
            let (settled, failed) = drain_done sequences next s later still in
            rw (found, drain)
              (
                settled,
                failed
                    ∙ ap (λ (x : Option Exception). some (drained_failure x))
                        (complete-other q s t other),
              )
      ]
]
  where
    further :
        (s t : ℕ) (sequences : List ℕ)
        → (t == s) ≡ false
        → Among s (t ∷ sequences)
        → Among s sequences
    further s t sequences other (inl here) = absurd (apart s t other here)
      where
        apart : (s t : ℕ) → (t == s) ≡ false → s ≡ t → ⊥
        apart s t other here = ground arith
    further s t sequences other (inr later) = later

parked-Among :
    (nodes : List (ℕ × Bool)) (fifo : List ℕ) (s : ℕ)
    → Among s fifo
    → find s nodes ≡ some false
    → Among s (parked nodes fifo)
unfolding parked
parked-Among nodes [] s among found = absurd among
parked-Among nodes (t ∷ fifo) s (inl here) found =
    let there : find t nodes ≡ some false =
      subst (λ (n : ℕ). find n nodes ≡ some false) here found in
    rw (there, parked) (inl here)
parked-Among nodes (t ∷ fifo) s (inr later) found = elim (Option-cases (find t nodes)) [
  | inl gone ↦ rw (gone, parked) (parked-Among nodes fifo s later found)
  | inr (true, running) ↦ rw (running, parked) (parked-Among nodes fifo s later found)
  | inr (false, waits) ↦ rw (waits, parked) (inr (parked-Among nodes fifo s later found))
]

-- Closing and draining a queue, with nothing run between its sections, closes its admission and
-- settles each sequence in the queue, below the next one and not zero, whose node waits for a
-- dispatch: a failure of it is found then, which is the one that was kept for it before, or else
-- the `runtime_error` of the drain.
pub close_and_drain-fails :
    (q : DeviceOps) (s : ℕ)
    → Among s q.admission_fifo
    → find s q.admission_nodes ≡ some false
    → 0 < s
    → s < q.next_sequence
    → ((close_and_drain q).admission_closing ≡ true)
      × (is_settled (close_and_drain q) s ≡ true)
      × (find_failure s (close_and_drain q).failures
          ≡ some (drained_failure (find_failure s q.failures)))
unfolding close_and_drain close
close_and_drain-fails q s among found pos low =
    let sequences = parked q.admission_nodes q.admission_fifo in
    let (done, failed) =
      drain_done sequences (close q) s
        (parked-Among q.admission_nodes q.admission_fifo s among found) (found, pos, low) in
    (
      drain-closing sequences (close q),
      settled s (close_and_drain q).completed (has_failure (close_and_drain q).failures s) done,
      failed,
    )
  where
    settled : (s c : ℕ) (b : Bool) → s ≤ c → (leb s c || b) ≡ true
    settled s c b h = ground arith
