-- ===== src/Sync/RingBuffer/Producers/Fifo.antt =====
-- What the consumer gets, however the steps of the threads interleave.
use velo_rift.Prelude.{
  ℕ, ◌+◌, ◌^◌, ◌≤◌, ◌<◌, ◌≡◌, refl, sym, ap, ◌∙◌, subst, List, [], ◌∷◌, ◌++◌, Option, none, some,
  Bool, true, false, not, if◌then◌else◌, ◌||◌, leb, ◌==◌, length, drop, get_or, get_or-replicate,
  length-replicate, arith, Bool-cases, inl, inr, length-append,
}
use velo_rift.Sync.RingBuffer.{
  buffer_size, wrapping_sub, wrapping_add, RingBufferStats, new, refused,
}
use velo_rift.Sync.RingBuffer.Producers.{
  Producer, idle, starting, loaded, ready, writing, storing, counting, refusing, refused_task,
  Consumer, resting, loaded_tail, spinning_at, clearing, taken_from, returning, World, slot_of,
  takes, counted, push_step, pop_step, begin_push, Action, begin, produce, consume, step, run,
  start,
}
use velo_rift.Sync.RingBuffer.Producers.Stores.{began-IsRing, ended-IsRing}
use velo_rift.Sync.RingBuffer.Producers.Takes.{read-ConsumerFits, cleared-IsRing, popped-IsRing}
use velo_rift.Sync.RingBuffer.Producers.Claims.{moved-IsRing, claimed-IsRing}
use velo_rift.Sync.RingBuffer.Producers.Invariant.{Fits, ConsumerFits, Distinct, IsRing}

module _ {Task : Type 0} where
  -- the ring is kept, and one task is claimed at most
  abbrev After : World Task → World Task → Type 0
  After w w' = IsRing w' × (length w'.claimed ≤ length w.claimed + 1)

  unchanged : (w : World Task) → IsRing w → After w w
  unchanged w r = (r, omega arith)

  with_race : (w : World Task) → IsRing w → After w (record w { raced = true })
  with_race w r = (
    record {
      width = r.width;
      head_is = r.head_is;
      tail_is = r.tail_is;
      window = r.window;
      behind = r.behind;
      fifo = r.fifo;
      held = r.held;
      fits = r.fits;
      distinct = r.distinct;
      told = r.told;
      consumer_fits = r.consumer_fits;
    },
    omega arith,
  )

  push_step-After :
      (p : ℕ) (fails : Bool) (x : Producer Task) (w : World Task)
      → length w.claimed + 1 < 2 ^ 64
      → w.producers p ≡ x
      → IsRing w
      → After w (push_step p fails x w)
  unfolding push_step
  push_step-After p fails idle w small at r = unchanged w r
  push_step-After p fails (refused_task task) w small at r = unchanged w r
  push_step-After p fails (starting task) w small at r = (
    moved-IsRing p (loaded task w.ring.head) w.ring.stats w (λ h c. absurd (cc)) tt tt r,
    omega arith,
  )
  push_step-After p fails (loaded task head) w small at r =
      elim (Bool-cases (leb buffer_size (wrapping_sub head w.ring.tail))) [
        | inl t ↦ rw t (
          moved-IsRing p (refusing task) w.ring.stats w (λ h c. absurd (cc)) tt tt r,
          omega arith,
        )
        | inr f ↦
            let behind : w.ring.tail ≤ length w.popped =
              let tail_is = r.tail_is in omega (arith, tail_is) in
            let room : wrapping_sub head w.ring.tail < buffer_size = ground (arith, f) in
            rw f (
              moved-IsRing p (ready task head w.ring.tail) w.ring.stats w (λ h c. absurd (cc)) tt
                  (behind, room) r,
              omega arith,
            )
      ]
  push_step-After p fails (ready task head tail) w small at r =
      elim (Bool-cases (fails || not (w.ring.head == head))) [
        | inl t ↦ rw t (
          moved-IsRing p (starting task) w.ring.stats w (λ h c. absurd (cc)) tt tt r,
          omega arith,
        )
        | inr f ↦
            let same : w.ring.head ≡ head = ground (arith, f) in
            let own = subst (Fits w.ring.buffer w.claimed (length w.popped)) at (r.fits p) in
            let len = length-append w.claimed (task ∷ []) in
            rw f (claimed-IsRing p task head tail w small same own.0 own.1 r, omega (arith, len))
      ]
  push_step-After p fails (writing task head tail) w small at r =
      elim (Bool-cases (takes (slot_of head) w.consumer)) [
        | inl t ↦ rw t (with_race w r)
        | inr f ↦ rw f (began-IsRing p task head tail w at f r, omega arith)
      ]
  push_step-After p fails (storing task head tail) w small at r =
      (ended-IsRing p task head tail w at r, omega arith)
  push_step-After p fails (counting head tail) w small at r = (
    moved-IsRing p idle (counted head tail w.ring.stats) w (λ h c. absurd (cc)) tt tt r,
    omega arith,
  )
  push_step-After p fails (refusing task) w small at r = (
    moved-IsRing p (refused_task task) (refused w.ring).stats w (λ h c. absurd (cc)) tt tt r,
    omega arith,
  )

  -- the consumer goes on, and only the statistics change beside it
  going :
      (c : Consumer Task) (s : RingBufferStats) (w : World Task)
      → ConsumerFits w.ring.buffer w.claimed (length w.popped) w.producers c
      → IsRing w
      → After w (record w { ring = record w.ring { stats = s }; consumer = c })
  going c s w here r = (
    record {
      width = r.width;
      head_is = r.head_is;
      tail_is = r.tail_is;
      window = r.window;
      behind = r.behind;
      fifo = r.fifo;
      held = r.held;
      fits = r.fits;
      distinct = r.distinct;
      told = r.told;
      consumer_fits = here;
    },
    omega arith,
  )

  pop_step-After :
      (c : Consumer Task) (w : World Task)
      → length w.claimed + 1 < 2 ^ 64
      → w.consumer ≡ c
      → IsRing w
      → After w (pop_step c w)
  unfolding pop_step
  pop_step-After resting w small at r = going (loaded_tail w.ring.tail) w.ring.stats w r.tail_is r
  pop_step-After (loaded_tail tail) w small at r =
      let first : tail ≡ length w.popped =
        subst (ConsumerFits w.ring.buffer w.claimed (length w.popped) w.producers) at
          r.consumer_fits in
      elim (Bool-cases (tail == w.ring.head)) [
        | inl t ↦ rw t (going resting w.ring.stats w tt r)
        | inr f ↦
            let head_is = r.head_is in
            let behind = r.behind in
            rw f (
              going (spinning_at tail) w.ring.stats w
                (first, ground (arith, f, first, head_is, behind)) r)
      ]
  pop_step-After (spinning_at tail) w small at r =
      let own =
        subst (ConsumerFits w.ring.buffer w.claimed (length w.popped) w.producers) at
          r.consumer_fits in
      elim (Bool-cases (w.busy (slot_of tail))) [
        | inl t ↦ rw t (with_race w r)
        | inr f ↦ rw f (
            going (clearing tail (get_or w.ring.buffer (slot_of tail) none)) w.ring.stats w
              (read-ConsumerFits tail w own.0 own.1 f r) r)
      ]
  pop_step-After (clearing tail read) w small at r =
      let own =
        subst (ConsumerFits w.ring.buffer w.claimed (length w.popped) w.producers) at
          r.consumer_fits in
      (cleared-IsRing tail read w own r, omega arith)
  pop_step-After (taken_from tail task) w small at r =
      let own =
        subst (ConsumerFits w.ring.buffer w.claimed (length w.popped) w.producers) at
          r.consumer_fits in
      (popped-IsRing tail task w (omega arith) own r, omega arith)
  pop_step-After returning w small at r =
      going resting (record w.ring.stats { pops = wrapping_add w.ring.stats.pops 1 }) w tt r

  begin_push-After :
      (p : ℕ) (task : Task) (x : Producer Task) (w : World Task)
      → IsRing w
      → After w (begin_push p task x w)
  unfolding begin_push
  begin_push-After p task idle w r =
      (moved-IsRing p (starting task) w.ring.stats w (λ h c. absurd (cc)) tt tt r, omega arith)
  begin_push-After p task (refused_task _) w r =
      (moved-IsRing p (starting task) w.ring.stats w (λ h c. absurd (cc)) tt tt r, omega arith)
  begin_push-After p task (starting _) w r = unchanged w r
  begin_push-After p task (loaded _ _) w r = unchanged w r
  begin_push-After p task (ready _ _ _) w r = unchanged w r
  begin_push-After p task (writing _ _ _) w r = unchanged w r
  begin_push-After p task (storing _ _ _) w r = unchanged w r
  begin_push-After p task (counting _ _) w r = unchanged w r
  begin_push-After p task (refusing _) w r = unchanged w r

  step-After :
      (a : Action Task) (w : World Task)
      → length w.claimed + 1 < 2 ^ 64
      → IsRing w
      → After w (step a w)
  unfolding step
  step-After (begin p task) w small r = begin_push-After p task (w.producers p) w r
  step-After (produce p fails) w small r = push_step-After p fails (w.producers p) w small refl r
  step-After consume w small r = pop_step-After w.consumer w small refl r

  either_way : (b : Bool) (w w' : World Task) → IsRing w → IsRing w' → IsRing (if b then w else w')
  either_way true w w' r r' = r
  either_way false w w' r r' = r'

  run-IsRing :
      (actions : List (Action Task)) (w : World Task)
      → length w.claimed + length actions < 2 ^ 64
      → IsRing w
      → IsRing (run actions w)
  unfolding run
  run-IsRing [] w small r = r
  run-IsRing (a ∷ actions) w small r =
      let (r', le) = step-After a w (omega arith) r in
      either_way w.raced w (run actions (step a w)) r
        (run-IsRing actions (step a w) (omega (arith, le)) r')

  start-IsRing : IsRing (start {Task = Task})
  unfolding new
  start-IsRing = record {
    width = length-replicate {A = Option Task} buffer_size none;
    head_is = refl;
    tail_is = refl;
    window = omega arith;
    behind = omega arith;
    fifo = refl;
    held = λ k x e.
        let empty = get_or-replicate {A = Option Task} buffer_size k none in
        let clash : none ≡ some x = sym empty ∙ e in absurd (cc);
    fits = λ p. tt;
    distinct = λ p q h c. absurd (cc);
    told = λ p. tt;
    consumer_fits = tt;
  }

  -- The steps of any threads that push and of the consumer may interleave in any order, and the run
  -- stops at the first overlap of a store and a `take` of the same slot. Over fewer than 2 ^ 64
  -- steps, up to there, the consumer has popped the tasks in the order in which their slots were
  -- claimed, none skipped or repeated, and at most 4096 are left. No two threads have claimed the
  -- same slot, and a slot that a thread has claimed and not filled is empty.
  pub run-fifo :
      (actions : List (Action Task))
      → length actions < 2 ^ 64
      → let w = run actions start in
        (rest : List Task) × (w.claimed ≡ w.popped ++ rest)
        × (length rest ≤ buffer_size)
        × Distinct w.producers
        × ((p : ℕ) → Fits w.ring.buffer w.claimed (length w.popped) (w.producers p))
  run-fifo actions small =
      let w = run actions start in
      let r = run-IsRing actions start (omega (arith, small)) start-IsRing in
      let rest = drop (length w.popped) w.claimed in
      let total = ap length r.fifo ∙ length-append w.popped rest in
      let window = r.window in (rest, r.fifo, omega (arith, total, window), r.distinct, r.fits)
