-- ===== src/Sync/RingBuffer/Producers/Takes.antt =====
-- The two accesses of `take`, and the step that gives its slot back, keep the ring.
use mathlib.Core.List.{append_assoc}
use velo_rift.Prelude.{
  ℕ, suc, ◌+◌, ◌%◌, ◌^◌, ◌<◌, ◌≡◌, ◌≢◌, sym, ap, ◌∙◌, subst, List, [], ◌∷◌, ◌++◌, Option, none,
  some, ◌==◌, length, drop, get_or, set, get_or-set_self, get_or-set_ne, length-set, arith,
  Bool-cases, inl, inr, length-append, true, false,
}
use velo_rift.Sync.RingBuffer.{buffer_size}
use velo_rift.Sync.RingBuffer.Slots.{bit_and-mask}
use velo_rift.Sync.RingBuffer.Producers.{
  Producer, idle, starting, loaded, ready, writing, storing, counting, refusing, refused_task,
  clearing, taken_from, World, slot_of, cleared, cleared_slot, popped_task,
}
use velo_rift.Sync.RingBuffer.Producers.Invariant.{
  get_elem?, drop-get_elem?, claims, Fits, Held, ConsumerFits, claims-Fits, stores, Told, IsRing,
}

module _ {Task : Type 0} where
  Fits-emptied :
      (buffer : List (Option Task)) (claimed : List Task) (first k : ℕ) (x : Producer Task)
      → length buffer ≡ buffer_size
      → k < buffer_size
      → Fits buffer claimed first x
      → Fits (set buffer k none) claimed first x
  Fits-emptied buffer claimed first k idle width lt f = tt
  Fits-emptied buffer claimed first k (starting _) width lt f = tt
  Fits-emptied buffer claimed first k (loaded _ _) width lt f = tt
  Fits-emptied buffer claimed first k (counting _ _) width lt f = tt
  Fits-emptied buffer claimed first k (refusing _) width lt f = tt
  Fits-emptied buffer claimed first k (refused_task _) width lt f = tt
  Fits-emptied buffer claimed first k (ready _ _ _) width lt f = f
  Fits-emptied buffer claimed first k (writing _ head _) width lt f =
      let slot = head % buffer_size in
      (
        f.0,
        f.1,
        f.2,
        elim (Bool-cases (k == slot)) [
          | inl t ↦
              let same : k ≡ slot = ground arith in
              subst (λ j. get_or (set buffer k none) j none ≡ none) same
                (get_or-set_self buffer k none none (omega (arith, width, lt)))
          | inr g ↦
              let apart : k ≢ slot = λ s. absurd (ground arith) in
              get_or-set_ne buffer k slot none none apart ∙ f.3
        ],
      )
  Fits-emptied buffer claimed first k (storing _ head _) width lt f =
      let slot = head % buffer_size in
      (
        f.0,
        f.1,
        f.2,
        elim (Bool-cases (k == slot)) [
          | inl t ↦
              let same : k ≡ slot = ground arith in
              subst (λ j. get_or (set buffer k none) j none ≡ none) same
                (get_or-set_self buffer k none none (omega (arith, width, lt)))
          | inr g ↦
              let apart : k ≢ slot = λ s. absurd (ground arith) in
              get_or-set_ne buffer k slot none none apart ∙ f.3
        ],
      )

  -- the read of `take`, where no store on the slot has begun
  pub read-ConsumerFits :
      (tail : ℕ) (w : World Task)
      → tail ≡ length w.popped
      → length w.popped < length w.claimed
      → w.busy (slot_of tail) ≡ false
      → IsRing w
      → ConsumerFits w.ring.buffer w.claimed
          (length w.popped)
          w.producers
          (clearing tail (get_or w.ring.buffer (slot_of tail) none))
  read-ConsumerFits tail w at lt free r = (
    at,
    lt,
    ap (λ k. get_or w.ring.buffer k none) (sym (bit_and-mask tail)),
    λ p c. unstored (w.producers p) (r.told p) c,
  )
    where
      told_free : w.busy (tail % buffer_size) ≡ false
      told_free = ap w.busy (sym (bit_and-mask tail)) ∙ free

      unstored : (x : Producer Task) → Told w.busy x → stores x ≢ some tail
      unstored (storing _ head _) told c =
          let same : head ≡ tail = cc in
          let clash : true ≡ false =
            sym told ∙ ap (λ n. w.busy (n % buffer_size)) same ∙ told_free in
          absurd (cc)
      unstored idle told c = absurd (cc)
      unstored (starting _) told c = absurd (cc)
      unstored (loaded _ _) told c = absurd (cc)
      unstored (ready _ _ _) told c = absurd (cc)
      unstored (writing _ _ _) told c = absurd (cc)
      unstored (counting _ _) told c = absurd (cc)
      unstored (refusing _) told c = absurd (cc)
      unstored (refused_task _) told c = absurd (cc)

  -- the write of `take`
  pub cleared-IsRing :
      (tail : ℕ) (read : Option Task) (w : World Task)
      → ConsumerFits w.ring.buffer w.claimed (length w.popped) w.producers (clearing tail read)
      → IsRing w
      → IsRing (cleared_slot tail read w)
  cleared-IsRing tail read w (at, lt, kept, unstored) r = rw (bit_and-mask tail) (record {
    width = length-set w.ring.buffer slot none ∙ r.width;
    head_is = r.head_is;
    tail_is = r.tail_is;
    window = r.window;
    behind = r.behind;
    fifo = r.fifo;
    held = held;
    fits = λ p.
        Fits-emptied w.ring.buffer w.claimed first slot (w.producers p) r.width (omega arith)
          (r.fits p);
    distinct = r.distinct;
    told = r.told;
    consumer_fits = after read kept;
  })
    where
      first : ℕ
      first = length w.popped

      slot : ℕ
      slot = tail % buffer_size

      emptied : get_or (set w.ring.buffer slot none) slot none ≡ none
      emptied =
          let width = r.width in get_or-set_self w.ring.buffer slot none none (omega (arith, width))

      held : Held (set w.ring.buffer slot none) w.claimed first
      held k x e = elim (Bool-cases (slot == k)) [
        | inl t ↦
            let same : slot ≡ k = ground arith in
            let gone : none ≡ some x =
              sym (subst (λ j. get_or (set w.ring.buffer slot none) j none ≡ none) same emptied)
              ∙ e in
            absurd (cc)
        | inr f ↦
            let apart : slot ≢ k = λ s. absurd (ground arith) in
            r.held k x (sym (get_or-set_ne w.ring.buffer slot k none none apart) ∙ e)
      ]

      task_at :
          (task : Task)
          → get_or w.ring.buffer slot none ≡ some task
          → get_elem? w.claimed tail ≡ some task
      task_at task full =
          let (i, above, below, same, found) = r.held slot task full in
          let window = r.window in
          let equal : i ≡ tail = omega (arith, at, lt, above, below, same, window) in
          subst (λ j. get_elem? w.claimed j ≡ some task) equal found

      unclaimed :
          (task : Task)
          → get_or w.ring.buffer slot none ≡ some task
          → (p : ℕ) → claims (w.producers p) ≢ some tail
      unclaimed task full p c =
          let (_, _, empty) =
            claims-Fits w.ring.buffer w.claimed first (w.producers p) tail c (r.fits p) in
          let clash : none ≡ some task = sym empty ∙ full in absurd (cc)

      after :
          (o : Option Task)
          → get_or w.ring.buffer slot none ≡ o
          → ConsumerFits (set w.ring.buffer slot none) w.claimed first w.producers (cleared tail o)
      after none full = (at, lt)
      after (some task) full = (at, lt, task_at task full, emptied, unclaimed task full)

  Fits-later :
      (buffer : List (Option Task)) (claimed : List Task) (first : ℕ) (x : Producer Task)
      → claims x ≢ some first
      → Fits buffer claimed first x
      → Fits buffer claimed (first + 1) x
  Fits-later buffer claimed first idle n f = tt
  Fits-later buffer claimed first (starting _) n f = tt
  Fits-later buffer claimed first (loaded _ _) n f = tt
  Fits-later buffer claimed first (counting _ _) n f = tt
  Fits-later buffer claimed first (refusing _) n f = tt
  Fits-later buffer claimed first (refused_task _) n f = tt
  Fits-later buffer claimed first (ready _ _ _) n f = (omega (arith, f.0), f.1)
  Fits-later buffer claimed first (writing _ head _) n f =
      let apart : head ≢ first = λ e. n (ap some e) in (omega (arith, apart, f.0), f.1, f.2, f.3)
  Fits-later buffer claimed first (storing _ head _) n f =
      let apart : head ≢ first = λ e. n (ap some e) in (omega (arith, apart, f.0), f.1, f.2, f.3)

  pub popped-IsRing :
      (tail : ℕ) (task : Task) (w : World Task)
      → length w.claimed < 2 ^ 64
      → ConsumerFits w.ring.buffer w.claimed (length w.popped) w.producers (taken_from tail task)
      → IsRing w
      → IsRing (popped_task tail task w)
  popped-IsRing tail task w small (at, lt, task_at, empty, unclaimed) r =
      let first = length w.popped in
      let window = r.window in
      let len : length (w.popped ++ (task ∷ [])) ≡ first + 1 = length-append w.popped (task ∷ []) in
      let next : suc first ≡ length (w.popped ++ (task ∷ [])) = omega (arith, len) in
      record {
        width = r.width;
        head_is = r.head_is;
        tail_is = omega (arith, at, lt, len, small);
        window = omega (arith, len, window);
        behind = omega (arith, len, lt);
        fifo =
            r.fifo
            ∙ ap (λ (l : List Task). w.popped ++ l)
                (drop-get_elem? w.claimed first task
                  (subst (λ k. get_elem? w.claimed k ≡ some task) at task_at))
            ∙ sym (append_assoc w.popped (task ∷ []) (drop (suc first) w.claimed))
            ∙ ap (λ n. (w.popped ++ (task ∷ [])) ++ drop n w.claimed) next;
        held = λ k x e.
            let (i, above, below, same, found) = r.held k x e in
            let later : first ≢ i = λ s.
              let slot : tail % buffer_size ≡ k = omega (arith, at, s, same) in
              let clash : none ≡ some x =
                sym (subst (λ j. get_or w.ring.buffer j none ≡ none) slot empty) ∙ e in
              absurd (cc) in
            (i, omega (arith, len, later, above), below, same, found);
        fits = λ p.
            subst (λ n. Fits w.ring.buffer w.claimed n (w.producers p)) (sym len)
              (Fits-later w.ring.buffer w.claimed first (w.producers p)
                (subst (λ k. claims (w.producers p) ≢ some k) at (unclaimed p)) (r.fits p));
        distinct = r.distinct;
        told = r.told;
        consumer_fits = tt;
      }
