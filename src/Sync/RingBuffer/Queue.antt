-- ===== src/Sync/RingBuffer/Queue.antt =====
-- The ring holds a queue: pushing adds at the end, popping takes from the front.
use Prim.Native.Nat.{bit_and}
use native.Mathlib.Decide.{dec_lt}
use velo_rift.Prelude.{
  ℕ, suc, ◌+◌, ◌-◌, ◌%◌, ◌^◌, ◌≤◌, ◌<◌, ◌≡◌, ◌≢◌, ◌⊎◌, refl, sym, ap, ◌∙◌, subst, List, [], ◌∷◌,
  ◌++◌, Option, none, some, false, ◌==◌, ==_iff, leb, get_or, set, length, length-set,
  length-replicate, get_or-set_self, get_or-set_ne, arith, Bool-cases, inl, inr,
}
use velo_rift.Sync.RingBuffer.{
  buffer_size, buffer_mask, wrapping_add, wrapping_sub, RingBuffer, pushed, full, empty, popped,
  new, depth, refused, stored, push, taken, pop,
}
use velo_rift.Sync.RingBuffer.Slots.{
  bit_and-mask, slot_of, items, Filled, items-cons, items-set, items-snoc, items_mod,
}

-- The counters fit their width, no more slots are claimed than there are, and each is written.
pub record IsRing {Task : Type 0} (r : RingBuffer Task) : Type 0 where
  pub width : length r.buffer ≡ buffer_size
  pub head_fits : r.head < 2 ^ 64
  pub tail_fits : r.tail < 2 ^ 64
  pub few : depth r ≤ buffer_size
  pub filled : Filled r.buffer r.tail (depth r)

unfoldable pub contents : {Task : Type 0} → RingBuffer Task → List Task
contents r = items r.buffer r.tail (depth r)

-- the counters modulo their width and modulo the number of slots
head_at :
    (h t : ℕ) → h < 2 ^ 64 → t < 2 ^ 64 → h % buffer_size ≡ (t + wrapping_sub h t) % buffer_size
head_at h t lh lt = omega arith

head_apart :
    (h t i : ℕ)
    → h < 2 ^ 64
    → t < 2 ^ 64
    → wrapping_sub h t < buffer_size
    → i < wrapping_sub h t
    → h % buffer_size ≢ (t + i) % buffer_size
head_apart h t i lh lt few li e = omega arith

head_next :
    (h t : ℕ)
    → h < 2 ^ 64
    → t < 2 ^ 64
    → wrapping_sub h t < buffer_size
    → wrapping_sub (wrapping_add h 1) t ≡ suc (wrapping_sub h t)
head_next h t lh lt few = omega arith

tail_next :
    (h t n : ℕ)
    → h < 2 ^ 64
    → t < 2 ^ 64
    → wrapping_sub h t ≡ suc n
    → wrapping_sub h (wrapping_add t 1) ≡ n
tail_next h t n lh lt e = omega arith

tail_at : (t i : ℕ) → (wrapping_add t 1 + i) % buffer_size ≡ (t + suc i) % buffer_size
tail_at t i = omega arith

module _ {Task : Type 0} where
  stored-contents :
      (task : Task) (r : RingBuffer Task)
      → IsRing r
      → depth r < buffer_size
      → IsRing (stored task r) × (contents (stored task r) ≡ contents r ++ (task ∷ []))
  unfolding depth contents
  stored-contents task r ring room =
      let j = bit_and r.head buffer_mask in
      let d = depth r in
      let here : j ≡ (r.tail + d) % buffer_size =
        bit_and-mask r.head ∙ head_at r.head r.tail ring.head_fits ring.tail_fits in
      let buffer' = set r.buffer j (some task) in
      let apart : (i : ℕ) → i < d → j ≢ (r.tail + i) % buffer_size = λ i lt e.
        head_apart r.head r.tail i ring.head_fits ring.tail_fits room lt
          (sym (bit_and-mask r.head) ∙ e) in
      let in_buffer : j < length r.buffer = let w = ring.width in omega (arith, here) in
      let last : slot_of buffer' (r.tail + d) ≡ some task =
        ap (λ k. get_or buffer' k none) (sym here)
        ∙ get_or-set_self r.buffer j (some task) none in_buffer in
      let kept : Filled buffer' r.tail d = λ i lt.
        let (x, e) = ring.filled i lt in
        (x, get_or-set_ne r.buffer j _ (some task) none (apart i lt) ∙ e) in
      let grown = head_next r.head r.tail ring.head_fits ring.tail_fits room in
      (
        record {
          width = length-set r.buffer j (some task) ∙ ring.width;
          head_fits = omega arith;
          tail_fits = ring.tail_fits;
          few = omega (arith, grown);
          filled = λ i lt. elim (dec_lt i d) [
            | yes l ↦ kept i l
            | no l ↦ (
              task,
              subst (λ m. slot_of buffer' (r.tail + m) ≡ some task) (omega (arith, grown)) last,
            )
          ];
        },
        ap (items buffer' r.tail) grown
            ∙ items-snoc buffer' r.tail d task kept last
            ∙ ap (λ l. l ++ (task ∷ [])) (items-set r.buffer j (some task) r.tail d apart),
      )

  taken-contents :
      (task : Task) (r : RingBuffer Task) (n : ℕ)
      → IsRing r
      → depth r ≡ suc n
      → slot_of r.buffer r.tail ≡ some task
      → IsRing (taken r) × (contents r ≡ task ∷ contents (taken r))
  unfolding depth contents
  taken-contents task r n ring e at =
      let j = bit_and r.tail buffer_mask in
      let here : j ≡ r.tail % buffer_size = bit_and-mask r.tail in
      let buffer' = set r.buffer j none in
      let few = ring.few in
      let apart : (i : ℕ) → i < n → j ≢ (wrapping_add r.tail 1 + i) % buffer_size =
        λ i lt p. omega (arith, here, p, tail_at r.tail i) in
      let less = tail_next r.head r.tail n ring.head_fits ring.tail_fits e in
      (
        record {
          width = length-set r.buffer j none ∙ ring.width;
          head_fits = ring.head_fits;
          tail_fits = omega arith;
          few = omega (arith, less);
          filled = λ i lt.
              let (x, f) = ring.filled (suc i) (omega (arith, less)) in
              (
                x,
                get_or-set_ne r.buffer j _ none none (apart i (omega (arith, less)))
                    ∙ ap (λ k. get_or r.buffer k none) (tail_at r.tail i)
                    ∙ f,
              );
        },
        ap (items r.buffer r.tail) e
            ∙ items-cons r.buffer r.tail n task at
            ∙ ap (λ l. task ∷ l)
                (items_mod r.buffer (r.tail + 1) (wrapping_add r.tail 1) n (omega arith)
                  ∙ sym (items-set r.buffer j none (wrapping_add r.tail 1) n apart)
                  ∙ ap (items buffer' (wrapping_add r.tail 1)) (sym less)),
      )

  -- What stands in front of a queue that is not empty, and what is left when it is taken.
  pub front :
      (r : RingBuffer Task)
      → IsRing r
      → (r.tail == r.head) ≡ false
      → (task : Task) × (get_or r.buffer (bit_and r.tail buffer_mask) none ≡ some task)
        × (depth r ≡ suc (depth r - 1))
        × IsRing (taken r)
        × (contents r ≡ task ∷ contents (taken r))
        × (depth (taken r) ≡ depth r - 1)
  front r ring f =
      let apart : r.tail ≢ r.head = ground arith in
      let some_left : depth r ≡ suc (depth r - 1) =
        unfold depth in omega (arith, apart, ring.head_fits, ring.tail_fits) in
      let (task, e) = ring.filled 0 (omega (arith, some_left)) in
      let at : slot_of r.buffer r.tail ≡ some task =
        subst (λ m. slot_of r.buffer m ≡ some task) (omega arith) e in
      let (ring', shrunk) = taken-contents task r (depth r - 1) ring some_left at in
      (
        task,
        ap (λ k. get_or r.buffer k none) (bit_and-mask r.tail) ∙ at,
        some_left,
        ring',
        shrunk,
        unfold depth in
            tail_next r.head r.tail (wrapping_sub r.head r.tail - 1) ring.head_fits ring.tail_fits
              some_left,
      )

  -- In a ring that keeps its invariant, a push is refused, and the queue left as it is, when as
  -- many tasks are queued as there are slots, and else the task becomes the last of the queue. The
  -- invariant is kept.
  pub push-contents :
      (task : Task) (r : RingBuffer Task)
      → IsRing r
      → IsRing ((push task r).0)
        × (((depth r ≡ buffer_size)
              × ((push task r).1 ≡ full task)
              × (contents ((push task r).0) ≡ contents r))
            ⊎ ((depth r < buffer_size)
                × ((push task r).1 ≡ pushed)
                × (contents ((push task r).0) ≡ contents r ++ (task ∷ []))))
  push-contents task r ring = elim (Bool-cases (leb buffer_size (depth r))) [
    | inl t ↦
        let out : push task r ≡ (refused r, full task) = unfold push depth in rw t refl in
        let few = ring.few in
        rw out (
          record {
            width = ring.width;
            head_fits = ring.head_fits;
            tail_fits = ring.tail_fits;
            few = unfold depth in ring.few;
            filled = unfold depth in ring.filled;
          },
          inl (ground arith, refl, unfold contents depth in refl),
        )
    | inr f ↦
        let out : push task r ≡ (stored task r, pushed) = unfold push depth in rw f refl in
        let room : depth r < buffer_size = ground arith in
        let (ring', grown) = stored-contents task r ring room in
        rw out (ring', inr (room, refl, grown))
  ]

  -- In a ring that keeps its invariant, a pop of an empty queue finds it empty, and else it takes
  -- the first task: it never waits for a slot to be written. The invariant is kept.
  pub pop-contents :
      (r : RingBuffer Task)
      → IsRing r
      → IsRing ((pop r).0)
        × (((contents r ≡ []) × ((pop r).1 ≡ empty) × (contents ((pop r).0) ≡ []))
            ⊎ ((task : Task) × ((pop r).1 ≡ popped task)
                × (contents r ≡ task ∷ contents ((pop r).0))))
  pop-contents r ring = elim (Bool-cases (r.tail == r.head)) [
    | inl t ↦
        let out : pop r ≡ (r, empty) = unfold pop in rw t refl in
        let same : r.tail ≡ r.head = (==_iff r.tail r.head).0 t in
        let none_left : depth r ≡ 0 = unfold depth in omega (arith, same, ring.head_fits) in
        let nil : contents r ≡ [] =
          (unfold contents in ap (items r.buffer r.tail) none_left ∙ unfold items in refl) in
        rw out (ring, inl (nil, refl, nil))
    | inr f ↦
        let (task, masked, _, ring', shrunk, _) = front r ring f in
        let out : pop r ≡ (taken r, popped task) = unfold pop in rw (f, pop, masked) refl in
        rw out (ring', inr (task, refl, shrunk))
  ]

  pub new-IsRing : IsRing {Task = Task} new
  unfolding new depth
  new-IsRing = record {
    width = length-replicate {A = Option Task} buffer_size none;
    head_fits = omega arith;
    tail_fits = omega arith;
    few = omega arith;
    filled = λ i lt. absurd (omega arith);
  }
