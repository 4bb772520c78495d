-- ===== src/Sync/RingBuffer/Producers.antt =====
-- Several producers and the consumer of `RingBuffer`
-- (crates/vrift-inception-layer/src/sync/ring_buffer.rs), step by step. A step is one access to a
-- counter, in a memory that is sequentially consistent; the statistics of a call are updated in one
-- step. The accesses to a slot are not atomic: the store of a task begins and ends, and `take` reads
-- the slot and then writes `None`. Where a store and a `take` of the same slot overlap, the language
-- defines nothing, and the run is marked as raced and goes no further.
pub mod Invariant
pub mod Claims
pub mod Stores
pub mod Takes
pub mod Fifo
use Prim.Native.Nat.{bit_and}
use velo_rift.Prelude.{
  ℕ, ◌+◌, max, List, [], ◌∷◌, ◌++◌, Option, none, some, Bool, true, false, not, ◌||◌, if◌then◌else◌,
  leb, ◌==◌, get_or, set,
}
use velo_rift.Sync.RingBuffer.{
  buffer_size, buffer_mask, wrapping_add, wrapping_sub, RingBuffer, RingBufferStats, new, refused,
}

-- where a thread is in `push`: before the loads, after each of them, after its slot is claimed,
-- inside the store of the task, and before the statistics; `refused_task` is its error
pub data Producer (Task : Type 0) : Type 0 where
  idle : Producer Task
  starting : Task → Producer Task
  loaded : Task → ℕ → Producer Task
  ready : Task → ℕ → ℕ → Producer Task
  writing : Task → ℕ → ℕ → Producer Task
  storing : Task → ℕ → ℕ → Producer Task
  counting : ℕ → ℕ → Producer Task
  refusing : Task → Producer Task
  refused_task : Task → Producer Task

-- where the consumer is in `pop`: before and after the loads, inside `take` with what it has read,
-- and with the task before the tail and then the statistics
pub data Consumer (Task : Type 0) : Type 0 where
  resting : Consumer Task
  loaded_tail : ℕ → Consumer Task
  spinning_at : ℕ → Consumer Task
  clearing : ℕ → Option Task → Consumer Task
  taken_from : ℕ → Task → Consumer Task
  returning : Consumer Task

-- `busy` tells the slots that a store has begun on and not ended. `claimed` and `popped` record the
-- tasks in the order in which their slots were claimed, and in which `pop` gave them back.
pub record World (Task : Type 0) : Type 0 where
  pub ring : RingBuffer Task
  pub busy : ℕ → Bool
  pub producers : ℕ → Producer Task
  pub consumer : Consumer Task
  pub claimed : List Task
  pub popped : List Task
  pub raced : Bool

-- A thread calls `push`, a thread takes its next step, whose exchange may fail without a reason, or
-- the consumer takes its next step.
pub data Action (Task : Type 0) : Type 0 where
  begin : ℕ → Task → Action Task
  produce : ℕ → Bool → Action Task
  consume : Action Task

abbrev pub slot_of : ℕ → ℕ
slot_of counter = bit_and counter buffer_mask

abbrev pub flag_at : (ℕ → Bool) → ℕ → Bool → ℕ → Bool
flag_at f k v j = if j == k then v else f j

abbrev pub counted : ℕ → ℕ → RingBufferStats → RingBufferStats
counted head tail s = record s {
  pushes = wrapping_add s.pushes 1;
  max_depth = max s.max_depth (wrapping_sub head tail + 1);
}

module _ {Task : Type 0} where
  abbrev pub update : (ℕ → Producer Task) → ℕ → Producer Task → ℕ → Producer Task
  update f p v q = if q == p then v else f q

  abbrev pub moved : ℕ → Producer Task → World Task → World Task
  moved p v w = record w { producers = update w.producers p v }

  abbrev pub claimed_slot : ℕ → Task → ℕ → ℕ → World Task → World Task
  claimed_slot p task head tail w = record w {
    ring = record w.ring { head = wrapping_add head 1 };
    producers = update w.producers p (writing task head tail);
    claimed = w.claimed ++ (task ∷ []);
  }

  -- the consumer is inside `take` of the slot
  abbrev pub takes : ℕ → Consumer Task → Bool
  takes slot (clearing tail _) = slot_of tail == slot
  takes slot _ = false

  -- the store of the task into the slot begins, and ends
  abbrev pub began_store : ℕ → Task → ℕ → ℕ → World Task → World Task
  began_store p task head tail w = record w {
    busy = flag_at w.busy (slot_of head) true;
    producers = update w.producers p (storing task head tail);
  }

  abbrev pub ended_store : ℕ → Task → ℕ → ℕ → World Task → World Task
  ended_store p task head tail w = record w {
    ring = record w.ring { buffer = set w.ring.buffer (slot_of head) (some task) };
    busy = flag_at w.busy (slot_of head) false;
    producers = update w.producers p (counting head tail);
  }

  -- the step of a thread that stands at this point of `push`
  unfoldable pub push_step : ℕ → Bool → Producer Task → World Task → World Task
  push_step p fails idle w = w
  push_step p fails (starting task) w = moved p (loaded task w.ring.head) w
  push_step p fails (loaded task head) w =
      if leb buffer_size (wrapping_sub head w.ring.tail)
      then moved p (refusing task) w
      else moved p (ready task head w.ring.tail) w
  push_step p fails (ready task head tail) w =
      if fails || not (w.ring.head == head)
      then moved p (starting task) w
      else claimed_slot p task head tail w
  push_step p fails (writing task head tail) w =
      if takes (slot_of head) w.consumer
      then record w { raced = true }
      else began_store p task head tail w
  push_step p fails (storing task head tail) w = ended_store p task head tail w
  push_step p fails (counting head tail) w =
      moved p idle (record w { ring = record w.ring { stats = counted head tail w.ring.stats } })
  push_step p fails (refusing task) w =
      moved p (refused_task task) (record w { ring = refused w.ring })
  push_step p fails (refused_task task) w = w

  -- what `take` returns, after it has written `None`
  abbrev pub cleared : ℕ → Option Task → Consumer Task
  cleared tail none = spinning_at tail
  cleared tail (some task) = taken_from tail task

  abbrev pub cleared_slot : ℕ → Option Task → World Task → World Task
  cleared_slot tail read w = record w {
    ring = record w.ring { buffer = set w.ring.buffer (slot_of tail) none };
    consumer = cleared tail read;
  }

  abbrev pub popped_task : ℕ → Task → World Task → World Task
  popped_task tail task w = record w {
    ring = record w.ring { tail = wrapping_add tail 1 };
    consumer = returning;
    popped = w.popped ++ (task ∷ []);
  }

  -- the step of the consumer that stands at this point of `pop`
  unfoldable pub pop_step : Consumer Task → World Task → World Task
  pop_step resting w = record w { consumer = loaded_tail w.ring.tail }
  pop_step (loaded_tail tail) w =
      if tail == w.ring.head
      then record w { consumer = resting }
      else record w { consumer = spinning_at tail }
  pop_step (spinning_at tail) w =
      if w.busy (slot_of tail)
      then record w { raced = true }
      else record w { consumer = clearing tail (get_or w.ring.buffer (slot_of tail) none) }
  pop_step (clearing tail read) w = cleared_slot tail read w
  pop_step (taken_from tail task) w = popped_task tail task w
  pop_step returning w = record w {
    ring = record w.ring {
      stats = record w.ring.stats { pops = wrapping_add w.ring.stats.pops 1 };
    };
    consumer = resting;
  }

  -- a thread that is in a call does not begin another
  unfoldable pub begin_push : ℕ → Task → Producer Task → World Task → World Task
  begin_push p task idle w = moved p (starting task) w
  begin_push p task (refused_task _) w = moved p (starting task) w
  begin_push p task _ w = w

  unfoldable pub step : Action Task → World Task → World Task
  step (begin p task) w = begin_push p task (w.producers p) w
  step (produce p fails) w = push_step p fails (w.producers p) w
  step consume w = pop_step w.consumer w

  unfoldable pub run : List (Action Task) → World Task → World Task
  run [] w = w
  run (a ∷ actions) w = let next = run actions (step a w) in if w.raced then w else next

  abbrev pub start : World Task
  start = record {
    ring = new;
    busy = λ k. false;
    producers = λ p. idle;
    consumer = resting;
    claimed = [];
    popped = [];
    raced = false;
  }
