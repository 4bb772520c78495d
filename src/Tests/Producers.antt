-- ===== src/Tests/Producers.antt =====
-- Two producers and the consumer of the ring, in some interleavings.
use velo_rift.Prelude.{
  ℕ, ◌≤◌, ◌≡◌, refl, List, [], ◌∷◌, ◌++◌, true, false, length, arith, replicate,
}
use velo_rift.Sync.RingBuffer.{buffer_size, new}
use velo_rift.Sync.RingBuffer.Producers.{
  refused_task, Action, begin, produce, consume, step, run, start, push_step, pop_step, begin_push,
}
use velo_rift.Sync.RingBuffer.Producers.Fifo.{run-fifo}
use velo_rift.Sync.RingBuffer.Producers.Invariant.{Distinct, Fits}

-- thread 1 pushes 7 between the loads of thread 0, and the consumer pops it
abbrev overtaken : List (Action ℕ)
overtaken =
    begin 0 5
    ∷ produce 0 false
    ∷ begin 1 7
    ∷ produce 1 false
    ∷ produce 1 false
    ∷ produce 1 false
    ∷ produce 1 false
    ∷ produce 1 false
    ∷ produce 1 false
    ∷ consume
    ∷ consume
    ∷ consume
    ∷ consume
    ∷ consume
    ∷ consume
    ∷ []

-- thread 0 has claimed the slot that the consumer waits for
abbrev awaited : List (Action ℕ)
awaited =
    begin 0 5
    ∷ produce 0 false
    ∷ produce 0 false
    ∷ produce 0 false
    ∷ consume
    ∷ consume
    ∷ consume
    ∷ []

run-fifo_example :
    let w = run overtaken start in
    (rest : List ℕ) × (w.claimed ≡ w.popped ++ rest)
    × (length rest ≤ buffer_size)
    × Distinct w.producers
    × ((p : ℕ) → Fits w.ring.buffer w.claimed (length w.popped) (w.producers p))
run-fifo_example = run-fifo overtaken (omega arith)

seven_popped : (run overtaken start).popped ≡ 7 ∷ []
unfolding run step push_step pop_step begin_push new replicate
seven_popped = refl

-- thread 0 then takes the tail for one far ahead, and answers that the empty ring is full
refused_on_empty :
    (run (overtaken ++ (produce 0 false ∷ produce 0 false ∷ [])) start).producers 0 ≡ refused_task 5
unfolding run step push_step pop_step begin_push new replicate
refused_on_empty = refl

-- the consumer has read the empty slot, and the store begins before `take` writes `None`
store_in_take : (run (awaited ++ (produce 0 false ∷ consume ∷ [])) start).raced ≡ true
unfolding run step push_step pop_step begin_push new replicate
store_in_take = refl

-- where `take` ends first, the consumer waits on and gets the task
take_then_store :
    (run
      (awaited ++ (consume ∷ produce 0 false ∷ produce 0 false ∷ consume ∷ consume ∷ consume ∷ []))
      start).popped
    ≡ 5 ∷ []
unfolding run step push_step pop_step begin_push new replicate
take_then_store = refl
