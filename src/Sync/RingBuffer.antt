-- ===== src/Sync/RingBuffer.antt =====
-- `RingBuffer` of crates/vrift-inception-layer/src/sync/ring_buffer.rs, run by one thread at a
-- time. The counters wrap at the width of `usize`, 64 bits.
pub mod Slots
pub mod Queue
pub mod Batch
pub mod Producers
use Prim.Native.Nat.{bit_and}
use velo_rift.Prelude.{
  ℕ, zero, suc, ◌+◌, ◌-◌, ◌%◌, ◌^◌, max, List, [], ◌∷◌, Option, none, some, Bool, true, false,
  if◌then◌else◌, ltb, leb, ◌==◌, get_or, set, replicate, length,
}

abbrev pub buffer_size : ℕ
buffer_size = 4096

-- `BUFFER_SIZE - 1`
abbrev pub buffer_mask : ℕ
buffer_mask = 4095

abbrev pub wrapping_add : ℕ → ℕ → ℕ
wrapping_add a b = (a + b) % 2 ^ 64

abbrev pub wrapping_sub : ℕ → ℕ → ℕ
wrapping_sub a b = (a + 2 ^ 64 - b) % 2 ^ 64

pub record RingBufferStats : Type 0 where
  pub pushes : ℕ
  pub pops : ℕ
  pub push_errors : ℕ
  pub max_depth : ℕ

pub record RingBuffer (Task : Type 0) : Type 0 where
  pub head : ℕ
  pub tail : ℕ
  pub buffer : List (Option Task)
  pub stats : RingBufferStats

pub data PushResult (Task : Type 0) : Type 0 where
  pushed : PushResult Task
  full : Task → PushResult Task

-- `spinning`: the slot is claimed and not written, and the consumer waits in its loop
pub data PopResult (Task : Type 0) : Type 0 where
  empty spinning : PopResult Task
  popped : Task → PopResult Task

module _ {Task : Type 0} where
  unfoldable pub new : RingBuffer Task
  new = record {
    head = 0;
    tail = 0;
    buffer = replicate buffer_size none;
    stats = record { pushes = 0; pops = 0; push_errors = 0; max_depth = 0 };
  }

  unfoldable pub depth : RingBuffer Task → ℕ
  depth r = wrapping_sub r.head r.tail

  abbrev pub refused : RingBuffer Task → RingBuffer Task
  refused r = record {
    head = r.head;
    tail = r.tail;
    buffer = r.buffer;
    stats = record {
      pushes = r.stats.pushes;
      pops = r.stats.pops;
      push_errors = wrapping_add r.stats.push_errors 1;
      max_depth = r.stats.max_depth;
    };
  }

  abbrev pub stored : Task → RingBuffer Task → RingBuffer Task
  stored task r = record {
    head = wrapping_add r.head 1;
    tail = r.tail;
    buffer = set r.buffer (bit_and r.head buffer_mask) (some task);
    stats = record {
      pushes = wrapping_add r.stats.pushes 1;
      pops = r.stats.pops;
      push_errors = r.stats.push_errors;
      max_depth = max r.stats.max_depth (wrapping_sub r.head r.tail + 1);
    };
  }

  unfoldable pub push : Task → RingBuffer Task → RingBuffer Task × PushResult Task
  push task r =
      if leb buffer_size (wrapping_sub r.head r.tail)
      then (refused r, full task)
      else (stored task r, pushed)

  abbrev pub taken : RingBuffer Task → RingBuffer Task
  taken r = record {
    head = r.head;
    tail = wrapping_add r.tail 1;
    buffer = set r.buffer (bit_and r.tail buffer_mask) none;
    stats = record {
      pushes = r.stats.pushes;
      pops = wrapping_add r.stats.pops 1;
      push_errors = r.stats.push_errors;
      max_depth = r.stats.max_depth;
    };
  }

  unfoldable pub pop : RingBuffer Task → RingBuffer Task × PopResult Task
  pop r =
      if r.tail == r.head
      then (r, empty)
      else elim (get_or r.buffer (bit_and r.tail buffer_mask) none) [
        | none ↦ (r, spinning)
        | some task ↦ (taken r, popped task)
      ]

  -- The loop of `pop_batch` with `left` rounds left: the tasks, and the tail and the slots after it.
  unfoldable pub pop_loop : ℕ → ℕ → ℕ → List (Option Task) → List Task × ℕ × List (Option Task)
  pop_loop zero head tail buffer = ([], tail, buffer)
  pop_loop (suc left) head tail buffer = elim (tail == head) [
    | true ↦ ([], tail, buffer)
    | false ↦ elim (get_or buffer (bit_and tail buffer_mask) none) [
      | none ↦ ([], tail, buffer)
      | some task ↦
          let rest =
            pop_loop left head (wrapping_add tail 1) (set buffer (bit_and tail buffer_mask) none) in
          (task ∷ rest.0, rest.1, rest.2)
    ]
  ]

  unfoldable pub pop_batch : ℕ → RingBuffer Task → RingBuffer Task × List Task
  pop_batch most r =
      let (batch, tail', buffer') = pop_loop most r.head r.tail r.buffer in
      (
        record {
          head = r.head;
          tail = if ltb 0 (length batch) then tail' else r.tail;
          buffer = buffer';
          stats = r.stats;
        },
        batch,
      )
