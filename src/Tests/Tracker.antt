-- ===== src/Tests/Tracker.antt =====
-- A tracker of one path, and one whose slots are used up.
use velo_rift.Prelude.{
  ℕ, ◌≡◌, ◌≢◌, ◌↔◌, ◌⊎◌, refl, true, false, List, [], ◌∷◌, replicate, length-replicate,
  get_or-replicate_lt, arith,
}
use velo_rift.Prelude.Loop.{for_return}
use velo_rift.Tracker.{
  is_dirty_hash, new, tombstone, dirty_tracker_size, fnv1a_hash, fnv1a_from, mark_hash, mark_dirty,
  clear_dirty, is_dirty,
}
use velo_rift.Tracker.Laws.{IsTracked, IsHash}
use velo_rift.Tracker.Marks.{new-IsTracked}
use velo_rift.Tracker.Paths.{
  mark_dirty-is_dirty, clear_dirty-is_dirty, mark_dirty_exhausted, IsFull,
}

-- the path `/a`
abbrev path_a : List ℕ
path_a = 0x2f ∷ 0x61 ∷ []

path_a-IsHash : IsHash (fnv1a_hash path_a)
path_a-IsHash = unfold fnv1a_hash fnv1a_from in (refl, refl)

marked_a : mark_dirty new path_a ≡ ((mark_dirty new path_a).0, true)
unfolding for_return replicate
marked_a = unfold mark_dirty mark_hash fnv1a_hash fnv1a_from new in refl

mark_dirty-is_dirty_example :
    IsTracked dirty_tracker_size ((mark_dirty new path_a).0)
    × ((is_dirty ((mark_dirty new path_a).0) path_a ≡ true)
        ↔ ((fnv1a_hash path_a ≡ fnv1a_hash path_a) ⊎ (is_dirty new path_a ≡ true)))
mark_dirty-is_dirty_example =
    mark_dirty-is_dirty new ((mark_dirty new path_a).0) path_a path_a new-IsTracked path_a-IsHash
      marked_a

marked_IsTracked : IsTracked dirty_tracker_size ((mark_dirty new path_a).0)
marked_IsTracked =
    (mark_dirty-is_dirty new ((mark_dirty new path_a).0) path_a path_a new-IsTracked path_a-IsHash
      marked_a).0

clear_dirty-is_dirty_example :
    IsTracked dirty_tracker_size (clear_dirty ((mark_dirty new path_a).0) path_a)
    × ((is_dirty (clear_dirty ((mark_dirty new path_a).0) path_a) path_a ≡ true) ↔ (
        (fnv1a_hash path_a ≢ fnv1a_hash path_a)
        × (is_dirty ((mark_dirty new path_a).0) path_a ≡ true)))
clear_dirty-is_dirty_example =
    clear_dirty-is_dirty ((mark_dirty new path_a).0) path_a path_a marked_IsTracked path_a-IsHash

-- all slots hold tombstones
abbrev used_up : List ℕ
used_up = replicate dirty_tracker_size tombstone

used_up-IsTracked : IsTracked dirty_tracker_size used_up
used_up-IsTracked = record {
  width = length-replicate dirty_tracker_size tombstone;
  found = λ s lt nz nt.
      absurd (ground (arith, nt, get_or-replicate_lt {A = ℕ} dirty_tracker_size s tombstone 0 lt));
}

used_up-IsFull : IsFull dirty_tracker_size used_up
used_up-IsFull s lt = rw (get_or-replicate_lt {A = ℕ} dirty_tracker_size s tombstone 0 lt) refl

used_up-clean : is_dirty used_up path_a ≡ false
unfolding for_return replicate
used_up-clean = unfold is_dirty is_dirty_hash fnv1a_hash fnv1a_from in refl

mark_dirty_exhausted_example :
    IsFull dirty_tracker_size (clear_dirty used_up path_a)
    × (mark_dirty (clear_dirty used_up path_a) path_a ≡ (clear_dirty used_up path_a, false))
mark_dirty_exhausted_example =
    mark_dirty_exhausted used_up path_a path_a used_up-IsTracked used_up-IsFull path_a-IsHash
      used_up-clean
