-- ===== src/Pool/Cleared.antt =====
-- `release_all_protected` releases the protected slots, and no others.
use iom.Base.{
  ltb, if◌then◌else◌, lt→ltb, Bool-cases, length, get_or, set, get_or-set_self, get_or-set_ne, ℕ,
  zero, suc, ◌+◌, ◌≤◌, ◌<◌, ◌≡◌, refl, subst, ◌∙◌, ◌≢◌, inl, inr, Bool, true, false, not, ◌&&◌,
  List, [], ◌∷◌, arith, dec_lt, ℕ_discrete,
}
use mathlib.Core.Path.{ap₂}
use iom.Pool.{SlotPool, release_locked, release_protected, release_all_protected}
use iom.Pool.Inv.{IsValid, used, guarded, release_locked-IsValid}

-- What is left of a slot once protection ends.
abbrev pub left_used : SlotPool → ℕ → Bool
left_used p i = used p i && not (guarded p i)

abbrev release_one : SlotPool → ℕ → SlotPool
release_one p index = if get_or p.protected index false then release_locked p index else p

record One (p p' : SlotPool) (index : ℕ) : Type 0 where
  valid : IsValid p'
  count : p'.slot_count ≡ p.slot_count
  here : guarded p' index ≡ false
  others : (j : ℕ) → index ≢ j → guarded p' j ≡ guarded p j
  left : (j : ℕ) → left_used p' j ≡ left_used p j

release_one-One :
    (p : SlotPool) (index : ℕ)
    → IsValid p
    → index < p.slot_count
    → One p (release_one p index) index
unfolding release_locked
release_one-One p index v h = elim (Bool-cases (guarded p index)) [
  | inr free ↦
      rw free
        (record { valid = v; count = refl; here = free; others = λ j ne. refl; left = λ j. refl })
  | inl held ↦
      let used_here = v.reserved index held in
      let taken : (ltb index p.slot_count && get_or p.in_use index false) ≡ true =
        both _ _ (lt→ltb index p.slot_count h) used_here in
      let valid = release_locked-IsValid p index v in
      rw (held, taken, release_locked)
        (record {
          valid = rw (taken, release_locked) at valid;
          count = refl;
          here = get_or-set_self p.protected index false false (omega (arith, h, v.guards));
          others = λ j ne. get_or-set_ne p.protected index j false false ne;
          left = λ j. elim (ℕ_discrete index j) [
            | yes e ↦
                subst
                  (λ (k : ℕ).
                    (get_or (set p.in_use index false) k false
                      && not (get_or (set p.protected index false) k false))
                    ≡ left_used p k)
                  e
                  (not_left _ (get_or p.in_use index false) (get_or p.protected index false)
                    (get_or-set_self p.in_use index false false (omega (arith, h, v.slots))) held)
            | no ne ↦
                ap₂ (λ (a b : Bool). a && not b) (get_or-set_ne p.in_use index j false false ne)
                  (get_or-set_ne p.protected index j false false ne)
          ];
        })
]
  where
    both : (a b : Bool) → a ≡ true → b ≡ true → (a && b) ≡ true
    both a b x y = ground arith

    not_left : {a : Bool} (b c d : Bool) → a ≡ false → d ≡ true → (a && not b) ≡ (c && not d)
    not_left b c d x y = ground arith

past_end : (bits : List Bool) (i : ℕ) → length bits ≤ i → get_or bits i false ≡ false
past_end [] i h = refl
past_end (b ∷ bits) zero h = absurd (omega (arith, h))
past_end (b ∷ bits) (suc i) h = past_end bits i (omega (arith, h))

release_protected-Cleared :
    (rounds index : ℕ) (p : SlotPool)
    → IsValid p
    → index + rounds ≡ p.slot_count
    → ((j : ℕ) → j < index → guarded p j ≡ false)
    → (j : ℕ)
    → (guarded (release_protected rounds index p) j ≡ false)
      × (used (release_protected rounds index p) j ≡ left_used p j)
unfolding release_protected
release_protected-Cleared zero index p v whole done j = elim (dec_lt j index) [
  | yes lt ↦ (done j lt, unguarded _ _ (done j lt))
  | no ge ↦
      let free = past_end p.protected j (omega (arith, ge, whole, v.guards)) in
      (free, unguarded _ _ free)
]
  where
    unguarded : (a b : Bool) → b ≡ false → a ≡ (a && not b)
    unguarded a b e = ground arith
release_protected-Cleared (suc rounds) index p v whole done j =
    let p' = release_one p index in
    let one = release_one-One p index v (omega (arith, whole)) in
    let (free, left) =
      release_protected-Cleared rounds (suc index) p' one.valid (omega (arith, whole, one.count))
        (before one) j in
    (free, left ∙ one.left j)
  where
    before :
        One p (release_one p index) index
        → (k : ℕ) → k < suc index
        → guarded (release_one p index) k ≡ false
    before one k h = elim (ℕ_discrete index k) [
      | yes e ↦ subst (λ (i : ℕ). guarded (release_one p index) i ≡ false) e one.here
      | no ne ↦ one.others k ne ∙ done k (below index k ne h)
    ]
      where
        below : (index k : ℕ) → index ≢ k → k < suc index → k < index
        below index k ne h = elim (dec_lt k index) [
          | yes lt ↦ lt
          | no ge ↦ absurd (ne (omega (arith, ge, h)))
        ]

pub release_all_protected-Cleared :
    (p : SlotPool)
    → IsValid p
    → (j : ℕ)
    → (guarded (release_all_protected p) j ≡ false)
      × (used (release_all_protected p) j ≡ left_used p j)
unfolding release_all_protected
release_all_protected-Cleared p v j =
    release_protected-Cleared p.slot_count 0 p v (omega arith) (λ k h. absurd (omega (arith, h))) j
