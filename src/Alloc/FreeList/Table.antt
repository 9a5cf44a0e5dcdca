-- ===== src/Alloc/FreeList/Table.antt =====
-- The map `allocated_` of src/alloc.cpp, from block addresses to sizes, as an association list.
use iom.Base.{
  ==→eq, subst, ◌==◌, if◌then◌else◌, ==→eq, Bool-cases, ℕ, ◌+◌, ◌≡◌, refl, subst, inl, inr, Option,
  none, some, List, [], ◌∷◌, arith,
}

unfoldable pub find : ℕ → List (ℕ × ℕ) → Option ℕ
find k [] = none
find k ((j, v) ∷ m) = if j == k then some v else find k m

-- `allocated_[k] = v`
unfoldable pub assign : ℕ → ℕ → List (ℕ × ℕ) → List (ℕ × ℕ)
assign k v [] = (k, v) ∷ []
assign k v ((j, w) ∷ m) = if j == k then (k, v) ∷ m else (j, w) ∷ assign k v m

unfoldable pub erase : ℕ → List (ℕ × ℕ) → List (ℕ × ℕ)
erase k [] = []
erase k ((j, v) ∷ m) = if j == k then m else (j, v) ∷ erase k m

pub find-assign :
    (k j v : ℕ) (m : List (ℕ × ℕ)) → find j (assign k v m) ≡ (if k == j then some v else find j m)
unfolding find assign
find-assign k j v [] = refl
find-assign k j v ((i, w) ∷ m) = ground (arith, find-assign k j v m)

pub erase-assign : (k v : ℕ) (m : List (ℕ × ℕ)) → find k m ≡ none → erase k (assign k v m) ≡ m
unfolding find assign erase
erase-assign k v [] h = ground arith
erase-assign k v ((i, w) ∷ m) h = ground (arith, erase-assign k v m)

-- A sum over the entries of a map.
module _ (f : ℕ → ℕ → ℕ) where
  unfoldable pub total : List (ℕ × ℕ) → ℕ
  total [] = 0
  total ((k, v) ∷ m) = f k v + total m

  pub total-assign :
      (k v : ℕ) (m : List (ℕ × ℕ)) → find k m ≡ none → total (assign k v m) ≡ f k v + total m
  unfolding find assign total
  total-assign k v [] h = refl
  total-assign k v ((i, w) ∷ m) h = ground (arith, total-assign k v m)

  pub total-erase :
      (k v : ℕ) (m : List (ℕ × ℕ)) → find k m ≡ some v → f k v + total (erase k m) ≡ total m
  unfolding find erase total
  total-erase k v [] h = cc
  total-erase k v ((i, w) ∷ m) h = ground (arith, total-erase k v m)

module _ {ℓ} (P : ℕ → ℕ → Type ℓ) where
  abbrev pub Entries : List (ℕ × ℕ) → Type ℓ
  Entries [] = Unit
  Entries ((k, v) ∷ m) = P k v × Entries m

  pub assign-Entries : (k v : ℕ) (m : List (ℕ × ℕ)) → P k v → Entries m → Entries (assign k v m)
  unfolding assign
  assign-Entries k v [] p h = (p, tt)
  assign-Entries k v ((i, w) ∷ m) p h = elim (Bool-cases (i == k)) [
    | inl same ↦ rw (same, assign) (p, h.1)
    | inr other ↦ rw (other, assign) (h.0, assign-Entries k v m p h.1)
  ]

  pub erase-Entries : (k : ℕ) (m : List (ℕ × ℕ)) → Entries m → Entries (erase k m)
  unfolding erase
  erase-Entries k [] h = tt
  erase-Entries k ((i, w) ∷ m) h = elim (Bool-cases (i == k)) [
    | inl same ↦ rw (same, erase) h.1
    | inr other ↦ rw (other, erase) (h.0, erase-Entries k m h.1)
  ]

  pub find-Entries : (k v : ℕ) (m : List (ℕ × ℕ)) → find k m ≡ some v → Entries m → P k v
  unfolding find
  find-Entries k v [] e h = cc
  find-Entries k v ((i, w) ∷ m) e h = elim (Bool-cases (i == k)) [
    | inl same ↦
        let key : i ≡ k = ==→eq i k same in
        let value : w ≡ v = ground arith in subst (λ t. P t v) key (subst (P i) value h.0)
    | inr other ↦ find-Entries k v m (ground arith) h.1
  ]
