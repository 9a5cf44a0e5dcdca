-- ===== src/Pool/Held.antt =====
-- Any history of a pool in which no proof releases a protected slot.
use iom.Base.{
  ltb, ltb→lt, Bool-cases, get_or, get_or-set_ne, All, ℕ, ◌≡◌, sym, ap, ◌∙◌, ◌≢◌, inl, inr, true,
  false, ◌&&◌, some, List, [], ◌∷◌, arith,
}
use iom.Pool.{SlotPool, try_acquire, protect, release_locked}
use iom.Pool.Inv.{
  IsValid, used, guarded, put, try_acquire_cases, try_acquire-IsValid, protect-IsValid,
  release_locked-IsValid,
}

-- A call, with its argument.
pub data Call : Type 0 where
  acquires : Call
  protects releases : ℕ → Call

unfoldable pub step : SlotPool → Call → SlotPool
step p acquires = (try_acquire p).1
step p (protects i) = protect p i
step p (releases i) = release_locked p i

unfoldable pub run : SlotPool → List Call → SlotPool
run p [] = p
run p (c ∷ calls) = run (step p c) calls

-- The call does not release slot `i`.
abbrev pub Keeps : ℕ → Call → Type 0
Keeps i acquires = Unit {0}
Keeps i (protects j) = Unit {0}
Keeps i (releases j) = i ≢ j

step-IsValid : (p : SlotPool) (c : Call) → IsValid p → IsValid (step p c)
unfolding step
step-IsValid p acquires v = try_acquire-IsValid p v
step-IsValid p (protects i) v = protect-IsValid p i v
step-IsValid p (releases i) v = release_locked-IsValid p i v

protect-guarded :
    (p : SlotPool) (j i : ℕ) → IsValid p → guarded p i ≡ true → guarded (protect p j) i ≡ true
unfolding protect
protect-guarded p j i v g = elim (Bool-cases (ltb j p.slot_count)) [
  | inr out ↦ rw out g
  | inl within ↦
      rw within
        (elim (put p.protected j i true (omega (arith, v.guards, ltb→lt j p.slot_count within))) [
          | inl (_, e) ↦ e
          | inr e ↦ e ∙ g
        ])
]

release-guarded :
    (p : SlotPool) (j i : ℕ) → i ≢ j → guarded p i ≡ true → guarded (release_locked p j) i ≡ true
unfolding release_locked
release-guarded p j i d g = elim (Bool-cases (ltb j p.slot_count && get_or p.in_use j false)) [
  | inr out ↦ rw out g
  | inl taken ↦ rw taken (get_or-set_ne p.protected j i false false (λ e. d (sym e)) ∙ g)
]

step-guarded :
    (p : SlotPool) (c : Call) (i : ℕ)
    → Keeps i c
    → IsValid p
    → guarded p i ≡ true
    → guarded (step p c) i ≡ true
unfolding step
step-guarded p acquires i k v g = elim (try_acquire_cases p v) [
  | inl (j, _, _, _, e) ↦ rw (e, step) g
  | inr (e, _) ↦ rw (e, step) g
]
step-guarded p (protects j) i k v g = protect-guarded p j i v g
step-guarded p (releases j) i k v g = release-guarded p j i k g

run-guarded :
    (calls : List Call) (p : SlotPool) (i : ℕ)
    → All (Keeps i) calls
    → IsValid p
    → guarded p i ≡ true
    → IsValid (run p calls) × (guarded (run p calls) i ≡ true)
unfolding run
run-guarded [] p i k v g = (v, g)
run-guarded (c ∷ calls) p i k v g =
    run-guarded calls (step p c) i k.1 (step-IsValid p c v) (step-guarded p c i k.0 v g)

-- After any calls of `try_acquire`, `protect` and `release` on a valid metadata slot pool, of
-- which none releases a slot that was protected before them, that slot is still protected and in
-- use, and a further `try_acquire` does not get it.
pub run-Held :
    (calls : List Call) (p : SlotPool) (i : ℕ)
    → All (Keeps i) calls
    → IsValid p
    → guarded p i ≡ true
    → (guarded (run p calls) i ≡ true)
      × (used (run p calls) i ≡ true)
      × ((try_acquire (run p calls)).0 ≢ some i)
run-Held calls p i k v g =
    let (v', g') = run-guarded calls p i k v g in
    (
      g',
      v'.reserved i g',
      λ got. elim (try_acquire_cases (run p calls) v') [
        | inl (m, _, _, free, e') ↦
            let found : m ≡ i = cc (ap (λ t. t.0) e', got) in cc (rw found at free, g')
        | inr (e', _) ↦ cc (ap (λ t. t.0) e', got)
      ],
    )
