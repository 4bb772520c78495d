-- ===== src/Tests/Sync.antt =====
-- A table with one descriptor and a queue with one task.
use velo_rift.Prelude.{ℕ, ◌<◌, ◌≡◌, ◌⊎◌, some, [], ◌∷◌, ◌++◌, ◌&&◌, ◌==◌, ltb, if◌then◌else◌}
use velo_rift.Sync.FdTable.{max_fds, new, set_entry, get_entry}
use velo_rift.Sync.FdTable.Laws.{IsTable, new-IsTable, set_entry-get}
use velo_rift.Sync.RingBuffer.{
  RingBuffer, push, pop, depth, pushed, full, empty, popped, buffer_size, new as new_ring,
}
use velo_rift.Sync.RingBuffer.Queue.{IsRing, contents, push-contents, pop-contents, new-IsRing}

set_entry-get_example :
    IsTable ((set_entry 5000 (some 7) (new {FdEntry = ℕ})).0)
    × ((set_entry 5000 (some 7) (new {FdEntry = ℕ})).1 ≡ get_entry 5000 (new {FdEntry = ℕ}))
    × (get_entry 5000 ((set_entry 5000 (some 7) (new {FdEntry = ℕ})).0)
        ≡ (if ltb 5000 max_fds && 5000 == 5000 then some 7 else get_entry 5000 (new {FdEntry = ℕ})))
set_entry-get_example = set_entry-get 5000 5000 (some 7) (new {FdEntry = ℕ}) new-IsTable

abbrev idle : RingBuffer ℕ
idle = new_ring

push-contents_example :
    IsRing ((push 9 idle).0)
    × (((depth idle ≡ buffer_size)
          × ((push 9 idle).1 ≡ full 9)
          × (contents ((push 9 idle).0) ≡ contents idle))
        ⊎ ((depth idle < buffer_size)
            × ((push 9 idle).1 ≡ pushed)
            × (contents ((push 9 idle).0) ≡ contents idle ++ (9 ∷ []))))
push-contents_example = push-contents 9 idle new-IsRing

abbrev busy : RingBuffer ℕ
busy = (push 9 idle).0

busy-IsRing : IsRing busy
busy-IsRing = (push-contents 9 idle new-IsRing).0

pop-contents_example :
    IsRing ((pop busy).0)
    × (((contents busy ≡ []) × ((pop busy).1 ≡ empty) × (contents ((pop busy).0) ≡ []))
        ⊎ ((task : ℕ) × ((pop busy).1 ≡ popped task)
            × (contents busy ≡ task ∷ contents ((pop busy).0))))
pop-contents_example = pop-contents busy busy-IsRing
