-- ===== src/Pool/Inv.antt =====
-- The invariant of `MetadataSlotPool`: a protected slot is in use. Each operation keeps it.
use iom.Base.{
  ltb, ◌!=◌, ltb→lt, Bool-cases, length, get_or, set, replicate, length-set, length-replicate,
  get_or-set_self, get_or-set_ne, invalid_argument, ok, require, >>=-eq-ok, ok-injective, ℕ, zero,
  suc, ◌+◌, ◌<◌, ◌≡◌, refl, sym, ap, subst, ◌∙◌, ◌⊎◌, inl, inr, Bool, true, false, ◌&&◌, none, some,
  List, [], ◌∷◌, arith, ℕ_discrete,
}
use iom.Pool.{SlotPool, new_pool, first_free, try_acquire, protect, release_locked}

abbrev pub used : SlotPool → ℕ → Bool
used p i = get_or p.in_use i false

abbrev pub guarded : SlotPool → ℕ → Bool
guarded p i = get_or p.protected i false

pub record IsValid (p : SlotPool) : Type 0 where
  pub slots : length p.in_use ≡ p.slot_count
  pub guards : length p.protected ≡ p.slot_count
  pub reserved : (i : ℕ) → guarded p i ≡ true → used p i ≡ true

pub first_free_lem :
    (index : ℕ) (bits : List Bool)
    → ((k : ℕ) × (first_free index bits ≡ some (index + k))
        × (k < length bits)
        × (get_or bits k false ≡ false))
      ⊎ ((first_free index bits ≡ none) × ((k : ℕ) → k < length bits → get_or bits k false ≡ true))
unfolding first_free
first_free_lem index [] = inr (refl, λ k h. absurd (omega arith))
first_free_lem index (false ∷ bits) = inl (0, ap some (omega arith), omega arith, refl)
first_free_lem index (true ∷ bits) = elim (first_free_lem (suc index) bits) [
  | inl (k, e, h, free) ↦ inl (suc k, e ∙ ap some (omega arith), omega arith, free)
  | inr (e, all) ↦ inr (e, λ k h. occupied bits all k h)
]
  where
    occupied :
        (bits : List Bool)
        → ((k : ℕ) → k < length bits → get_or bits k false ≡ true)
        → (k : ℕ) → k < suc (length bits)
        → get_or (true ∷ bits) k false ≡ true
    occupied bits all zero h = refl
    occupied bits all (suc k) h = all k (omega arith)

-- On a valid metadata slot pool, `try_acquire` either gets a slot that was neither in use nor
-- protected, and marks it in use; or gets none and changes nothing, and all slots are in use.
pub try_acquire_cases :
    (p : SlotPool)
    → IsValid p
    → ((i : ℕ) × (i < p.slot_count)
        × (used p i ≡ false)
        × (guarded p i ≡ false)
        × (try_acquire p ≡ (some i, record p { in_use = set p.in_use i true })))
      ⊎ ((try_acquire p ≡ (none, p)) × ((i : ℕ) → i < p.slot_count → used p i ≡ true))
unfolding try_acquire
try_acquire_cases p v = elim (first_free_lem 0 p.in_use) [
  | inl (k, e, h, free) ↦
      let found : first_free 0 p.in_use ≡ some k = e ∙ ap some (omega arith) in
      inl (
        k,
        omega (arith, h, v.slots),
        free,
        elim (Bool-cases (guarded p k)) [ inl g ↦ cc (v.reserved k g, free) | inr g ↦ g ],
        rw (found, try_acquire) refl,
      )
  | inr (e, all) ↦ inr (rw (e, try_acquire) refl, λ i h. all i (omega (arith, h, v.slots)))
]

pub put :
    (xs : List Bool) (i j : ℕ) (b : Bool)
    → i < length xs
    → ((i ≡ j) × (get_or (set xs i b) j false ≡ b))
      ⊎ (get_or (set xs i b) j false ≡ get_or xs j false)
put xs i j b h = elim (ℕ_discrete i j) [
  | yes same ↦ inl (
    same,
    subst (λ (t : ℕ). get_or (set xs i b) t false ≡ b) same (get_or-set_self xs i b false h),
  )
  | no other ↦ inr (get_or-set_ne xs i j b false other)
]

pub try_acquire-IsValid : (p : SlotPool) → IsValid p → IsValid (try_acquire p).1
try_acquire-IsValid p v = elim (try_acquire_cases p v) [
  | inr (e, _) ↦ rw e v
  | inl (i, h, _, _, e) ↦ rw e (record {
    slots = length-set p.in_use i true ∙ v.slots;
    guards = v.guards;
    reserved = λ j g. elim (put p.in_use i j true (omega (arith, h, v.slots))) [
      | inl (same, e') ↦ e'
      | inr e' ↦ e' ∙ v.reserved j g
    ];
  })
]

pub protect-IsValid : (p : SlotPool) (i : ℕ) → IsValid p → IsValid (protect p i)
unfolding protect
protect-IsValid p i v = elim (Bool-cases (ltb i p.slot_count)) [
  | inr out ↦ rw out v
  | inl within ↦
      let h = ltb→lt i p.slot_count within in
      rw within (record {
        slots = length-set p.in_use i true ∙ v.slots;
        guards = length-set p.protected i true ∙ v.guards;
        reserved = λ j g. elim (put p.in_use i j true (omega (arith, h, v.slots))) [
          | inl (same, e') ↦ e'
          | inr e' ↦ elim (put p.protected i j true (omega (arith, h, v.guards))) [
            | inl (same, _) ↦
                subst (λ (t : ℕ). get_or (set p.in_use i true) t false ≡ true) same
                  (get_or-set_self p.in_use i true false (omega (arith, h, v.slots)))
            | inr same ↦ e' ∙ v.reserved j (sym same ∙ g)
          ]
        ];
      })
]

pub release_locked-IsValid : (p : SlotPool) (i : ℕ) → IsValid p → IsValid (release_locked p i)
unfolding release_locked
release_locked-IsValid p i v = elim (Bool-cases (ltb i p.slot_count && get_or p.in_use i false)) [
  | inr out ↦ rw out v
  | inl taken ↦
      let h : i < p.slot_count = ground arith in
      rw taken (record {
        slots = length-set p.in_use i false ∙ v.slots;
        guards = length-set p.protected i false ∙ v.guards;
        reserved = λ j g. elim (put p.protected i j false (omega (arith, h, v.guards))) [
          | inl (same, e') ↦ cc (sym e' ∙ g)
          | inr same ↦ elim (put p.in_use i j false (omega (arith, h, v.slots))) [
            | inl (eq, _) ↦ cc (
              subst (λ (t : ℕ). get_or (set p.protected i false) t false ≡ false) eq
                  (get_or-set_self p.protected i false false (omega (arith, h, v.guards))),
              g,
            )
            | inr e' ↦ e' ∙ v.reserved j (sym same ∙ g)
          ]
        ];
      })
]

vacant : (n i : ℕ) → get_or (replicate n false) i false ≡ false
vacant zero i = refl
vacant (suc n) zero = refl
vacant (suc n) (suc i) = vacant n i

pub new_pool-IsValid : (n : ℕ) {p : SlotPool} → new_pool n ≡ ok p → IsValid p × (p.slot_count ≡ n)
unfolding new_pool
new_pool-IsValid n {p} e =
    let (_, e1, done) = >>=-eq-ok (require (n != 0) invalid_argument) _ e in
    subst (λ (t : SlotPool). IsValid t × (t.slot_count ≡ n)) (ok-injective _ p done)
      (
        record {
          slots = length-replicate n false;
          guards = length-replicate n false;
          reserved = λ i g. cc (vacant n i, g);
        },
        refl,
      )
