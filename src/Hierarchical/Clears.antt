-- ===== src/Hierarchical/Clears.antt =====
-- What clearing does to the removals that wait for a commit.
use libinv.Prelude.{
  ◌≡◌, true, false, contains, contains-insert, contains-erase, list_eqb_iff, nat_ord, list_ord,
  refl, arith,
}
use libinv.Key.{Key}
use libinv.Hierarchical.{Hierarchical, subtract_key, clear_down, clear}

-- The removal of an object below is queued by operator-=, and after a clear it is no longer
-- queued, nor is the object among those below.
pub removed_then_cleared :
    (k : Key) (h : Hierarchical)
    → (contains k (subtract_key k h).remove_down_ids ≡ true)
      × (contains k (clear (subtract_key k h)).remove_down_ids ≡ false)
      × (contains k (clear (subtract_key k h)).down_ids ≡ false)
unfolding subtract_key clear clear_down contains
removed_then_cleared k h = (
  ground (arith, contains-insert k k h.remove_down_ids, list_eqb_iff k k),
  ground (arith, contains-erase k k h.down_ids, list_eqb_iff k k),
  refl,
)
