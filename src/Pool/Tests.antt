-- ===== src/Pool/Tests.antt =====
-- A pool of three slots, one of them protected.
use iom.Base.{ok, ℕ, ◌≡◌, refl, ◌≢◌, true, false, some, List, [], ◌∷◌, arith}
use iom.Pool.{SlotPool, new_pool, try_acquire, protect}
use iom.Pool.Inv.{IsValid, used, guarded, new_pool-IsValid, protect-IsValid}
use iom.Pool.Held.{Call, acquires, protects, releases, run, run-Held}

abbrev fresh : SlotPool
fresh = record {
  slot_count = 3;
  in_use = false ∷ false ∷ false ∷ [];
  protected = false ∷ false ∷ false ∷ [];
}

new_pool_run : new_pool 3 ≡ ok fresh
unfolding new_pool
new_pool_run = refl

abbrev pool : SlotPool
pool = record {
  slot_count = 3;
  in_use = true ∷ false ∷ false ∷ [];
  protected = true ∷ false ∷ false ∷ [];
}

pool-valid : IsValid pool
pool-valid = unfold protect in protect-IsValid fresh 0 (new_pool-IsValid 3 new_pool_run).0

-- Slot 1 is taken, protected and released again.
abbrev calls : List Call
calls = acquires ∷ protects 1 ∷ releases 1 ∷ []

abbrev held : ℕ
held = 0

other : held ≢ 1
other e = absurd (omega arith)

run-Held_example :
    (guarded (run pool calls) 0 ≡ true)
    × (used (run pool calls) 0 ≡ true)
    × ((try_acquire (run pool calls)).0 ≢ some held)
run-Held_example = run-Held calls pool held (tt, (tt, (other, tt))) pool-valid refl
