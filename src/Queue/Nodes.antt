-- ===== src/Queue/Nodes.antt =====
-- The map `admission_nodes_` of src/device_ops.cpp, from sequence numbers to the flag
-- `executing`, as an association list in the order of its keys.
use iom.Base.{
  ltb, ◌==◌, if◌then◌else◌, ltb→lt, ==→eq, Bool-cases, All, ℕ, ◌+◌, ◌<◌, ◌≡◌, refl, subst, inl, inr,
  Bool, false, Option, none, some, List, [], ◌∷◌, arith,
}

unfoldable pub find : ℕ → List (ℕ × Bool) → Option Bool
find k [] = none
find k ((j, executing) ∷ m) = if j == k then some executing else find k m

-- `emplace` of a node that is not executing; a node that is there stays.
unfoldable pub emplace : ℕ → List (ℕ × Bool) → List (ℕ × Bool)
emplace k [] = (k, false) ∷ []
emplace k ((j, executing) ∷ m) =
    if j == k
    then (j, executing) ∷ m
    else if ltb k j
    then (k, false) ∷ (j, executing) ∷ m
    else (j, executing) ∷ emplace k m

-- `node->second.executing = executing`
unfoldable pub mark : ℕ → Bool → List (ℕ × Bool) → List (ℕ × Bool)
mark k executing [] = []
mark k executing ((j, before) ∷ m) =
    if j == k then (j, executing) ∷ m else (j, before) ∷ mark k executing m

unfoldable pub erase : ℕ → List (ℕ × Bool) → List (ℕ × Bool)
erase k [] = []
erase k ((j, executing) ∷ m) = if j == k then m else (j, executing) ∷ erase k m

-- How many nodes are executing.
unfoldable pub executing_count : List (ℕ × Bool) → ℕ
executing_count [] = 0
executing_count ((k, executing) ∷ m) = (if executing then 1 else 0) + executing_count m

-- A node less, and a mark more or less.
pub executing_count-erase :
    (k : ℕ) (b : Bool) (m : List (ℕ × Bool))
    → find k m ≡ some b
    → executing_count m ≡ (if b then 1 else 0) + executing_count (erase k m)
unfolding find erase executing_count
executing_count-erase k b [] h = cc
executing_count-erase k b ((j, executing) ∷ m) h = ground (arith, executing_count-erase k b m)

pub executing_count-mark :
    (k : ℕ) (b c : Bool) (m : List (ℕ × Bool))
    → find k m ≡ some b
    → executing_count (mark k c m) + (if b then 1 else 0) ≡ executing_count m + (if c then 1 else 0)
unfolding find mark executing_count
executing_count-mark k b c [] h = cc
executing_count-mark k b c ((j, executing) ∷ m) h = ground (arith, executing_count-mark k b c m)

pub executing_count-emplace :
    (k : ℕ) (m : List (ℕ × Bool)) → executing_count (emplace k m) ≡ executing_count m
unfolding emplace executing_count
executing_count-emplace k [] = refl
executing_count-emplace k ((j, executing) ∷ m) = ground (arith, executing_count-emplace k m)

-- A find after each change, of another key and of the same one.
pub find-emplace_ne :
    (j k : ℕ) (m : List (ℕ × Bool)) → (k == j) ≡ false → find j (emplace k m) ≡ find j m
unfolding find emplace
find-emplace_ne j k [] h = ground arith
find-emplace_ne j k ((i, executing) ∷ m) h = ground (arith, find-emplace_ne j k m h)

pub find-mark_self :
    (k : ℕ) (b c : Bool) (m : List (ℕ × Bool)) → find k m ≡ some b → find k (mark k c m) ≡ some c
unfolding find mark
find-mark_self k b c [] h = cc
find-mark_self k b c ((i, executing) ∷ m) h = ground (arith, find-mark_self k b c m)

pub find-erase_ne :
    (j k : ℕ) (m : List (ℕ × Bool)) → (k == j) ≡ false → find j (erase k m) ≡ find j m
unfolding find erase
find-erase_ne j k [] h = refl
find-erase_ne j k ((i, executing) ∷ m) h = ground (arith, find-erase_ne j k m h)

-- The keys ascend.
abbrev pub Above : ℕ → List (ℕ × Bool) → Type 0
Above k = All (λ (e : ℕ × Bool). k < e.0)

abbrev pub Ascending : List (ℕ × Bool) → Type 0
Ascending [] = Unit {0}
Ascending ((k, executing) ∷ m) = Above k m × Ascending m

Above-trans : (j k : ℕ) (m : List (ℕ × Bool)) → j < k → Above k m → Above j m
Above-trans j k [] h a = tt
Above-trans j k ((i, executing) ∷ m) h a = (omega (arith, a.0), Above-trans j k m h a.1)

find-Above : (k : ℕ) (m : List (ℕ × Bool)) → Above k m → find k m ≡ none
unfolding find
find-Above k [] a = refl
find-Above k ((i, executing) ∷ m) a = ground (arith, a.0, find-Above k m a.1)

emplace-Above : (j k : ℕ) (m : List (ℕ × Bool)) → j < k → Above j m → Above j (emplace k m)
unfolding emplace
emplace-Above j k [] h a = (h, tt)
emplace-Above j k ((i, executing) ∷ m) h a = elim (Bool-cases (i == k)) [
  | inl same ↦ rw (same, emplace) a
  | inr other ↦ elim (Bool-cases (ltb k i)) [
    | inl below ↦ rw (other, below, emplace) (h, a)
    | inr above ↦ rw (other, above, emplace) (a.0, emplace-Above j k m h a.1)
  ]
]

pub emplace-Ascending : (k : ℕ) (m : List (ℕ × Bool)) → Ascending m → Ascending (emplace k m)
unfolding emplace
emplace-Ascending k [] a = (tt, tt)
emplace-Ascending k ((i, executing) ∷ m) a = elim (Bool-cases (i == k)) [
  | inl same ↦ rw (same, emplace) a
  | inr other ↦ elim (Bool-cases (ltb k i)) [
    | inl below ↦
        let smaller = ltb→lt k i below in
        rw (other, below, emplace) ((smaller, Above-trans k i m smaller a.0), a)
    | inr above ↦
        let bigger : i < k = ground arith in
        rw (other, above, emplace) (emplace-Above i k m bigger a.0, emplace-Ascending k m a.1)
  ]
]

mark-Above : (j k : ℕ) (c : Bool) (m : List (ℕ × Bool)) → Above j m → Above j (mark k c m)
unfolding mark
mark-Above j k c [] a = tt
mark-Above j k c ((i, executing) ∷ m) a = elim (Bool-cases (i == k)) [
  | inl same ↦ rw (same, mark) a
  | inr other ↦ rw (other, mark) (a.0, mark-Above j k c m a.1)
]

pub mark-Ascending : (k : ℕ) (c : Bool) (m : List (ℕ × Bool)) → Ascending m → Ascending (mark k c m)
unfolding mark
mark-Ascending k c [] a = tt
mark-Ascending k c ((i, executing) ∷ m) a = elim (Bool-cases (i == k)) [
  | inl same ↦ rw (same, mark) a
  | inr other ↦ rw (other, mark) (mark-Above i k c m a.0, mark-Ascending k c m a.1)
]

erase-Above : (j k : ℕ) (m : List (ℕ × Bool)) → Above j m → Above j (erase k m)
unfolding erase
erase-Above j k [] a = tt
erase-Above j k ((i, executing) ∷ m) a = elim (Bool-cases (i == k)) [
  | inl same ↦ rw (same, erase) a.1
  | inr other ↦ rw (other, erase) (a.0, erase-Above j k m a.1)
]

pub erase-Ascending : (k : ℕ) (m : List (ℕ × Bool)) → Ascending m → Ascending (erase k m)
unfolding erase
erase-Ascending k [] a = tt
erase-Ascending k ((i, executing) ∷ m) a = elim (Bool-cases (i == k)) [
  | inl same ↦ rw (same, erase) a.1
  | inr other ↦ rw (other, erase) (erase-Above i k m a.0, erase-Ascending k m a.1)
]

pub find-erase_self : (k : ℕ) (m : List (ℕ × Bool)) → Ascending m → find k (erase k m) ≡ none
unfolding find erase
find-erase_self k [] a = refl
find-erase_self k ((i, executing) ∷ m) a = elim (Bool-cases (i == k)) [
  | inl same ↦
      let here : i ≡ k = ==→eq i k same in
      rw (same, erase) (find-Above k m (subst (λ (n : ℕ). Above n m) here a.0))
  | inr other ↦ ground (arith, find-erase_self k m a.1)
]
