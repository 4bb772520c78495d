-- ===== src/Sync/RingBuffer/Producers/Claims.antt =====
-- The steps of a producer keep the ring: moving on, claiming a slot, and writing it.
use mathlib.Core.List.{append_assoc}
use velo_rift.Prelude.{
  ℕ, ◌+◌, ◌%◌, ◌^◌, ◌≤◌, ◌<◌, ◌≡◌, ◌≢◌, refl, sym, ap, ◌∙◌, subst, List, [], ◌∷◌, ◌++◌, Option,
  none, some, length, drop, get_or, set, get_or-set_ne, arith, Option-cases, inl, inr,
  length-append,
}
use velo_rift.Sync.RingBuffer.{buffer_size, wrapping_sub, RingBufferStats}
use velo_rift.Sync.RingBuffer.Producers.{
  Producer, idle, starting, loaded, ready, writing, storing, counting, refusing, refused_task,
  Consumer, resting, loaded_tail, spinning_at, clearing, taken_from, returning, World, update,
  moved, claimed_slot,
}
use velo_rift.Sync.RingBuffer.Producers.Invariant.{
  get_elem?, get_elem?-append, get_elem?-last, drop-snoc, claims, Fits, ConsumerFits, claims-Fits,
  stores, stores-claims, Told, Distinct-update, each_update, IsRing,
}

module _ {Task : Type 0} (buffer : List (Option Task)) (claimed : List Task) (first : ℕ) where
  Fits-snoc :
      (task : Task) (x : Producer Task)
      → Fits buffer claimed first x
      → Fits buffer (claimed ++ (task ∷ [])) first x
  Fits-snoc task idle f = tt
  Fits-snoc task (starting _) f = tt
  Fits-snoc task (loaded _ _) f = tt
  Fits-snoc task (counting _ _) f = tt
  Fits-snoc task (refusing _) f = tt
  Fits-snoc task (refused_task _) f = tt
  Fits-snoc task (storing _ head _) f =
      let len = length-append claimed (task ∷ []) in
      (f.0, omega (arith, len, f.1), get_elem?-append claimed task head f.1 ∙ f.2, f.3)
  Fits-snoc task (ready _ _ _) f = f
  Fits-snoc task (writing _ head _) f =
      let len = length-append claimed (task ∷ []) in
      (f.0, omega (arith, len, f.1), get_elem?-append claimed task head f.1 ∙ f.2, f.3)

  ConsumerFits-snoc :
      (task : Task) (producers : ℕ → Producer Task) (c : Consumer Task)
      → ConsumerFits buffer claimed first producers c
      → ConsumerFits buffer (claimed ++ (task ∷ [])) first producers c
  ConsumerFits-snoc task producers resting f = tt
  ConsumerFits-snoc task producers returning f = tt
  ConsumerFits-snoc task producers (loaded_tail _) f = f
  ConsumerFits-snoc task producers (clearing _ _) f =
      let len = length-append claimed (task ∷ []) in (f.0, omega (arith, len, f.1), f.2, f.3)
  ConsumerFits-snoc task producers (spinning_at _) f =
      let len = length-append claimed (task ∷ []) in (f.0, omega (arith, len, f.1))
  ConsumerFits-snoc task producers (taken_from tail _) f =
      let len = length-append claimed (task ∷ []) in
      let lt : tail < length claimed = omega (arith, f.0, f.1) in
      (f.0, omega (arith, len, f.1), get_elem?-append claimed task tail lt ∙ f.2, f.3, f.4)

  pub ConsumerFits-update :
      (producers : ℕ → Producer Task) (p : ℕ) (v : Producer Task) (c : Consumer Task)
      → ((h : ℕ) → h < length claimed → claims v ≢ some h)
      → ((h : ℕ) → stores v ≢ some h)
      → ConsumerFits buffer claimed first producers c
      → ConsumerFits buffer claimed first (update producers p v) c
  ConsumerFits-update producers p v resting apart unstored f = tt
  ConsumerFits-update producers p v returning apart unstored f = tt
  ConsumerFits-update producers p v (loaded_tail _) apart unstored f = f
  ConsumerFits-update producers p v (spinning_at _) apart unstored f = f
  ConsumerFits-update producers p v (clearing tail _) apart unstored f =
      (f.0, f.1, f.2, each_update (λ x. stores x ≢ some tail) producers p v f.3 (unstored tail))
  ConsumerFits-update producers p v (taken_from tail _) apart unstored f = (
    f.0,
    f.1,
    f.2,
    f.3,
    each_update (λ x. claims x ≢ some tail) producers p v f.4
        (apart tail (omega (arith, f.0, f.1))),
  )

  -- a write to a slot that the thread has not claimed
  pub Fits-set :
      (k : ℕ) (o : Option Task) (x : Producer Task)
      → ((h : ℕ) → claims x ≡ some h → k ≢ h % buffer_size)
      → Fits buffer claimed first x
      → Fits (set buffer k o) claimed first x
  Fits-set k o idle apart f = tt
  Fits-set k o (starting _) apart f = tt
  Fits-set k o (loaded _ _) apart f = tt
  Fits-set k o (counting _ _) apart f = tt
  Fits-set k o (refusing _) apart f = tt
  Fits-set k o (refused_task _) apart f = tt
  Fits-set k o (storing _ head _) apart f =
      (f.0, f.1, f.2, get_or-set_ne buffer k (head % buffer_size) o none (apart head refl) ∙ f.3)
  Fits-set k o (ready _ _ _) apart f = f
  Fits-set k o (writing _ head _) apart f =
      (f.0, f.1, f.2, get_or-set_ne buffer k (head % buffer_size) o none (apart head refl) ∙ f.3)

  pub ConsumerFits-set :
      (k : ℕ) (o : Option Task) (producers : ℕ → Producer Task) (c : Consumer Task)
      → ((tail : ℕ)
          → tail ≡ first
          → ((p : ℕ) → stores (producers p) ≢ some tail)
          → k ≢ tail % buffer_size)
      → ConsumerFits buffer claimed first producers c
      → ConsumerFits (set buffer k o) claimed first producers c
  ConsumerFits-set k o producers resting apart f = tt
  ConsumerFits-set k o producers returning apart f = tt
  ConsumerFits-set k o producers (loaded_tail _) apart f = f
  ConsumerFits-set k o producers (clearing tail _) apart f =
      let other = apart tail f.0 f.3 in
      (f.0, f.1, get_or-set_ne buffer k (tail % buffer_size) o none other ∙ f.2, f.3)
  ConsumerFits-set k o producers (spinning_at _) apart f = f
  ConsumerFits-set k o producers (taken_from tail _) apart f =
      let other = apart tail f.0 (λ p c. f.4 p (stores-claims (producers p) tail c)) in
      (f.0, f.1, f.2, get_or-set_ne buffer k (tail % buffer_size) o none other ∙ f.3, f.4)

module _ {Task : Type 0} where
  abbrev pub with_stats : RingBufferStats → World Task → World Task
  with_stats s w = record w { ring = record w.ring { stats = s } }

  -- a step of a thread that touches no slot
  pub moved-IsRing :
      (p : ℕ) (v : Producer Task) (s : RingBufferStats) (w : World Task)
      → ((h : ℕ) → claims v ≢ some h)
      → Told w.busy v
      → Fits w.ring.buffer w.claimed (length w.popped) v
      → IsRing w
      → IsRing (moved p v (with_stats s w))
  moved-IsRing p v s w none_claimed flag here r = record {
    width = r.width;
    head_is = r.head_is;
    tail_is = r.tail_is;
    window = r.window;
    behind = r.behind;
    fifo = r.fifo;
    held = r.held;
    fits = each_update (Fits w.ring.buffer w.claimed (length w.popped)) w.producers p v r.fits here;
    distinct = Distinct-update w.producers p v r.distinct (λ q h c. absurd (none_claimed h c));
    told = each_update (Told w.busy) w.producers p v r.told flag;
    consumer_fits =
        ConsumerFits-update w.ring.buffer w.claimed (length w.popped) w.producers p v w.consumer
          (λ h lt. none_claimed h) (λ h c. none_claimed h (stores-claims v h c)) r.consumer_fits;
  }

  -- the slot after the claimed ones is empty while the ring is not full
  next_slot-empty :
      (w : World Task)
      → IsRing w
      → length w.claimed < length w.popped + buffer_size
      → get_or w.ring.buffer (length w.claimed % buffer_size) none ≡ none
  next_slot-empty w r room =
      elim (Option-cases (get_or w.ring.buffer (length w.claimed % buffer_size) none)) [
        | inl e ↦ e
        | inr (x, e) ↦
            let (i, le, lt, same, _) = r.held (length w.claimed % buffer_size) x e in
            absurd (omega arith)
      ]

  pub claimed-IsRing :
      (p : ℕ) (task : Task) (head tail : ℕ) (w : World Task)
      → length w.claimed + 1 < 2 ^ 64
      → w.ring.head ≡ head
      → tail ≤ length w.popped
      → wrapping_sub head tail < buffer_size
      → IsRing w
      → IsRing (claimed_slot p task head tail w)
  claimed-IsRing p task head tail w small at le room r =
      let n = length w.claimed in
      let first = length w.popped in
      let len = length-append w.claimed (task ∷ []) in
      let behind = r.behind in
      let head_n : head ≡ n = sym at ∙ r.head_is in
      let space : n < first + buffer_size = omega (arith, head_n, room, le, behind, small) in
      let empty = next_slot-empty w r space in
      record {
        width = r.width;
        head_is = omega (arith, head_n, len, small);
        tail_is = r.tail_is;
        window = omega (arith, len, space);
        behind = omega (arith, len, behind);
        fifo =
            ap (λ (l : List Task). l ++ (task ∷ [])) r.fifo
            ∙ append_assoc w.popped (drop first w.claimed) (task ∷ [])
            ∙ ap (λ (l : List Task). w.popped ++ l) (sym (drop-snoc first w.claimed task behind));
        held = λ k x e.
            let (i, above, lt, same, at_i) = r.held k x e in
            (i, above, omega (arith, len, lt), same, get_elem?-append w.claimed task i lt ∙ at_i);
        fits =
            each_update (Fits w.ring.buffer (w.claimed ++ (task ∷ [])) first) w.producers p
              (writing task head tail)
              (λ q. Fits-snoc w.ring.buffer w.claimed first task (w.producers q) (r.fits q))
              (
                omega (arith, head_n, behind),
                omega (arith, head_n, len),
                subst (λ k. get_elem? (w.claimed ++ (task ∷ [])) k ≡ some task) (sym head_n)
                    (get_elem?-last w.claimed task),
                subst (λ k. get_or w.ring.buffer (k % buffer_size) none ≡ none) (sym head_n) empty,
              );
        distinct = Distinct-update w.producers p (writing task head tail) r.distinct (λ q h c c'.
            let same : head ≡ h = cc in
            let f = claims-Fits w.ring.buffer w.claimed first (w.producers q) h c' (r.fits q) in
            absurd (omega (arith, same, head_n, f.1)));
        told = each_update (Told w.busy) w.producers p (writing task head tail) r.told tt;
        consumer_fits =
            ConsumerFits-snoc w.ring.buffer w.claimed first task
              (update w.producers p (writing task head tail)) w.consumer
              (ConsumerFits-update w.ring.buffer w.claimed first w.producers p
                (writing task head tail) w.consumer
                (λ h lt c. let same : head ≡ h = cc in absurd (omega (arith, same, head_n, lt)))
                (λ h c. absurd (cc)) r.consumer_fits);
      }
