-- ===== src/EventRing/Drain.antt =====
-- The end of an event ring: a drain of the queue proves all that was unknown.
use iom.Base.{
  Bool-cases, get_or, ℕ, zero, suc, ◌≡◌, refl, inl, inr, Bool, true, false, not, ◌&&◌, List, [],
  ◌∷◌, arith,
}
use iom.Pool.Inv.{IsValid, used, guarded}
use iom.Pool.Cleared.{release_all_protected-Cleared}
use iom.EventRing.{
  EventRing, Slot, new_slot, slot_at, free_quarantined, on_queue_drain, has_unproven_completion,
}

free_quarantined-at :
    (slots : List Slot) (i : ℕ)
    → ((get_or (free_quarantined slots) i (new_slot 0)).quarantined ≡ false)
      × ((get_or (free_quarantined slots) i (new_slot 0)).in_use
          ≡ ((get_or slots i (new_slot 0)).in_use && not (get_or slots i (new_slot 0)).quarantined))
unfolding free_quarantined
free_quarantined-at [] i = (refl, refl)
free_quarantined-at (x ∷ slots) (suc i) = free_quarantined-at slots i
free_quarantined-at (x ∷ slots) zero = elim (Bool-cases x.quarantined) [
  | inl held ↦ rw (held) (refl, none_left x.in_use)
  | inr free ↦ rw (free) (refl, all_left x.in_use)
]
  where
    none_left : (b : Bool) → false ≡ (b && not true)
    none_left b = ground arith

    all_left : (b : Bool) → b ≡ (b && not false)
    all_left b = ground arith

-- For a ring with a valid metadata slot pool, a successful drain leaves no completion unproven,
-- no slot quarantined and no metadata slot protected; the event slots still in use are those
-- that were and were not quarantined, and the metadata slots still in use those that were and
-- were not protected.
pub on_queue_drain-lem :
    (r : EventRing)
    → IsValid r.metadata_pool
    → (has_unproven_completion (on_queue_drain true r) ≡ false)
      × ((i : ℕ)
          → ((slot_at (on_queue_drain true r) i).quarantined ≡ false)
            × ((slot_at (on_queue_drain true r) i).in_use
                ≡ ((slot_at r i).in_use && not (slot_at r i).quarantined)))
      × ((m : ℕ)
          → (guarded (on_queue_drain true r).metadata_pool m ≡ false)
            × (used (on_queue_drain true r).metadata_pool m
                ≡ (used r.metadata_pool m && not (guarded r.metadata_pool m))))
unfolding on_queue_drain
on_queue_drain-lem r v =
    (refl, free_quarantined-at r.event_slots, release_all_protected-Cleared r.metadata_pool v)
