-- ===== src/Sync/RingBuffer/Batch.antt =====
-- `pop_batch` takes tasks from the front of the queue.
use Prim.Native.Nat.{bit_and}
use velo_rift.Prelude.{
  ℕ, zero, suc, min, ◌≡◌, refl, sym, ap, ◌∙◌, List, [], ◌∷◌, ◌++◌, Option, none, some, true, false,
  ◌==◌, ==_iff, if◌then◌else◌, ltb, get_or, length, arith, Bool-cases, inl, inr,
}
use velo_rift.Sync.RingBuffer.{
  RingBufferStats, buffer_mask, RingBuffer, depth, taken, pop_loop, pop_batch,
}
use velo_rift.Sync.RingBuffer.Queue.{IsRing, contents, front}

module _ {Task : Type 0} where
  -- the ring `r'` that is left after `batch` was taken from the ring `r`
  record Takes (most : ℕ) (r r' : RingBuffer Task) (batch : List Task) : Type 0 where
    ring : IsRing r'
    same_head : r'.head ≡ r.head
    still : length batch ≡ 0 → r'.tail ≡ r.tail
    split : contents r ≡ batch ++ contents r'
    size : length batch ≡ min most (depth r)

  empty_depth : (r : RingBuffer Task) → IsRing r → (r.tail == r.head) ≡ true → depth r ≡ 0
  unfolding depth
  empty_depth r ring t =
      let same : r.tail ≡ r.head = (==_iff r.tail r.head).0 t in omega (arith, same, ring.head_fits)

  next :
      (most : ℕ) (r : RingBuffer Task) (task : Task) (batch : List Task) (tail' : ℕ)
      (buffer' : List (Option Task))
      → (r.tail == r.head) ≡ false
      → get_or r.buffer (bit_and r.tail buffer_mask) none ≡ some task
      → pop_loop most (taken r).head (taken r).tail (taken r).buffer ≡ (batch, tail', buffer')
      → pop_loop (suc most) r.head r.tail r.buffer ≡ (task ∷ batch, tail', buffer')
  unfolding pop_loop
  next most r task batch tail' buffer' f at rest =
      rw (f, pop_loop, at) (ap (λ l. (task ∷ l.0, l.1, l.2)) rest)

  pop_loop-Takes :
      (most : ℕ) (r : RingBuffer Task)
      → IsRing r
      → (r' : RingBuffer Task) × (batch : List Task) × (pop_loop most r.head r.tail r.buffer
          ≡ (batch, r'.tail, r'.buffer))
        × Takes most r r' batch
  pop_loop-Takes zero r ring = (
    r,
    [],
    unfold pop_loop in refl,
    record { ring = ring; same_head = refl; still = λ _. refl; split = refl; size = omega arith },
  )
  pop_loop-Takes (suc most) r ring = elim (Bool-cases (r.tail == r.head)) [
    | inl t ↦
        let nil = empty_depth r ring t in
        (
          r,
          [],
          unfold pop_loop in rw (t, pop_loop) refl,
          record {
            ring = ring;
            same_head = refl;
            still = λ _. refl;
            split = refl;
            size = omega (arith, nil);
          },
        )
    | inr f ↦
        let (task, at, some_left, ring', shrunk, less) = front r ring f in
        let (r', batch, rest, takes) = pop_loop-Takes most (taken r) ring' in
        (
          r',
          task ∷ batch,
          next most r task batch r'.tail r'.buffer f at rest,
          record {
            ring = takes.ring;
            same_head = takes.same_head;
            still = λ z. absurd (omega arith);
            split = shrunk ∙ ap (λ l. task ∷ l) takes.split;
            size = omega (arith, takes.size, less, some_left);
          },
        )
  ]

  abbrev with_stats : RingBufferStats → RingBuffer Task → RingBuffer Task
  with_stats stats r = record { head = r.head; tail = r.tail; buffer = r.buffer; stats = stats }

  with_stats-IsRing :
      (stats : RingBufferStats) (r : RingBuffer Task) → IsRing r → IsRing (with_stats stats r)
  unfolding depth
  with_stats-IsRing stats r ring = record {
    width = ring.width;
    head_fits = ring.head_fits;
    tail_fits = ring.tail_fits;
    few = ring.few;
    filled = ring.filled;
  }

  -- In a ring that keeps its invariant, a batch is as many tasks as are asked for or are there,
  -- from the front of the queue and in its order, and the rest stays queued. The invariant is
  -- kept.
  pub pop_batch-contents :
      (most : ℕ) (r : RingBuffer Task)
      → IsRing r
      → IsRing ((pop_batch most r).0)
        × (contents r ≡ (pop_batch most r).1 ++ contents ((pop_batch most r).0))
        × (length ((pop_batch most r).1) ≡ min most (depth r))
  pop_batch-contents most r ring =
      let (r', batch, loop, takes) = pop_loop-Takes most r ring in
      let tail_e : (if ltb 0 (length batch) then r'.tail else r.tail) ≡ r'.tail =
        elim (Bool-cases (ltb 0 (length batch))) [
          | inl t ↦ rw t refl
          | inr f ↦ rw f (sym (takes.still (ground arith)))
        ] in
      let out : pop_batch most r ≡ (with_stats r.stats r', batch) =
        unfold pop_batch in rw loop (rw (tail_e, ← takes.same_head) refl) in
      rw out (
        with_stats-IsRing r.stats r' takes.ring,
        takes.split ∙ ap (λ l. batch ++ l) (unfold contents depth in refl),
        takes.size,
      )
