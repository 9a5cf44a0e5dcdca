-- ===== src/Pool.antt =====
-- src/shared/metadata_slot_pool.hpp, class MetadataSlotPool: which metadata slots of a queue are in
-- use, and which stay reserved because their completion is not proven. Each operation runs under
-- the pool's mutex, so a history of the pool is a sequence of operations.
pub mod Inv
pub mod Held
pub mod Cleared
pub mod Tests
use iom.Base.{
  ltb, leb, ◌==◌, ◌!=◌, if◌then◌else◌, ltb→lt, lt→ltb, ltb→le, le→ltb, ==→eq, eq→==, Bool-cases,
  Option-cases, length, get_elem?, get_or, set, take, drop, replicate, length-append, length-set,
  length-replicate, get_or-set_self, get_or-set_ne, sum, product, All, word_mod, max_word, add_word,
  sub_word, mul_word, Exception, invalid_argument, overflow_error, out_of_range, bad_alloc,
  runtime_error, logic_error, Result, ok, throws, ◌>>=◌, ◌>>◌, require, >>=-eq-ok, require-eq-ok,
  ok-injective, ℕ, zero, suc, ◌+◌, ◌-◌, ◌*◌, ◌/◌, ◌%◌, ◌^◌, ◌≤◌, ◌<◌, bit_and, ◌≡◌, refl, sym, ap,
  subst, ◌∙◌, ◌≢◌, ◌↔◌, ◌⊎◌, inl, inr, Bool, true, false, not, ◌&&◌, ◌||◌, Option, none, some, List,
  [], ◌∷◌, ◌++◌, map, arith, dec_lt, ℕ_discrete,
}

pub record SlotPool : Type 0 where
  pub slot_count : ℕ
  pub in_use : List Bool
  pub protected : List Bool

-- The constructor.
unfoldable pub new_pool : ℕ → Result SlotPool
new_pool slot_count = do
  require (slot_count != 0) invalid_argument
  ok (record {
    slot_count = slot_count;
    in_use = replicate slot_count false;
    protected = replicate slot_count false;
  })

abbrev pub count_true : List Bool → ℕ
count_true [] = 0
count_true (b ∷ bits) = (if b then 1 else 0) + count_true bits

abbrev pub in_use_count : SlotPool → ℕ
in_use_count p = count_true p.in_use

abbrev pub protected_count : SlotPool → ℕ
protected_count p = count_true p.protected

abbrev pub has_unproven_leases : SlotPool → Bool
has_unproven_leases p = in_use_count p != 0

-- The search for a slot that is not in use.
unfoldable pub first_free : ℕ → List Bool → Option ℕ
first_free index [] = none
first_free index (b ∷ bits) = if b then first_free (suc index) bits else some index

-- Also what `acquire` does once its wait is over.
unfoldable pub try_acquire : SlotPool → Option ℕ × SlotPool
try_acquire p = elim (first_free 0 p.in_use) [
  | none ↦ (none, p)
  | some index ↦ (some index, record p { in_use = set p.in_use index true })
]

unfoldable pub protect : SlotPool → ℕ → SlotPool
protect p index =
    if ltb index p.slot_count
    then record p { protected = set p.protected index true; in_use = set p.in_use index true }
    else p

-- Also `release_after_proof` and `release`.
unfoldable pub release_locked : SlotPool → ℕ → SlotPool
release_locked p index =
    if ltb index p.slot_count && get_or p.in_use index false
    then record p { protected = set p.protected index false; in_use = set p.in_use index false }
    else p

-- The loop of `release_all_protected`, with `rounds` rounds left.
unfoldable pub release_protected : ℕ → ℕ → SlotPool → SlotPool
release_protected zero index p = p
release_protected (suc rounds) index p =
    release_protected rounds (suc index)
      (if get_or p.protected index false then release_locked p index else p)

unfoldable pub release_all_protected : SlotPool → SlotPool
release_all_protected p = release_protected p.slot_count 0 p
