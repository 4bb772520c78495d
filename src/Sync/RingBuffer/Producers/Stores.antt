-- ===== src/Sync/RingBuffer/Producers/Stores.antt =====
-- The store of a task, from its begin to its end, keeps the ring.
use velo_rift.Prelude.{
  ℕ, ◌%◌, ◌≤◌, ◌<◌, ◌≡◌, ◌≢◌, sym, ap, ◌∙◌, subst, List, Option, none, some, ◌==◌, length, get_or,
  set, get_or-set_self, get_or-set_ne, length-set, arith, Bool-cases, inl, inr, true, false, Bool,
  refl, ==_refl, if◌then◌else◌,
}
use velo_rift.Sync.RingBuffer.{buffer_size}
use velo_rift.Sync.RingBuffer.Slots.{bit_and-mask}
use velo_rift.Sync.RingBuffer.Producers.{
  Producer, idle, starting, loaded, ready, writing, storing, counting, refusing, refused_task,
  Consumer, resting, loaded_tail, spinning_at, clearing, taken_from, returning, World, slot_of,
  flag_at, takes, update, began_store, ended_store,
}
use velo_rift.Sync.RingBuffer.Producers.Claims.{Fits-set, ConsumerFits-set, ConsumerFits-update}
use velo_rift.Sync.RingBuffer.Producers.Invariant.{
  get_elem?, claims, Fits, Held, ConsumerFits, claims-Fits, stores, stores-claims, Told,
  Distinct-update, each_update, IsRing,
}

module _ {Task : Type 0} where
  Held-set :
      (buffer : List (Option Task)) (claimed : List Task) (first head : ℕ) (task : Task)
      → length buffer ≡ buffer_size
      → first ≤ head
      → head < length claimed
      → get_elem? claimed head ≡ some task
      → Held buffer claimed first
      → Held (set buffer (head % buffer_size) (some task)) claimed first
  Held-set buffer claimed first head task width above lt at held k x e =
      let slot = head % buffer_size in
      elim (Bool-cases (slot == k)) [
        | inl t ↦
            let same : slot ≡ k = ground arith in
            let own : get_or (set buffer slot (some task)) k none ≡ some task =
              subst (λ j. get_or (set buffer slot (some task)) j none ≡ some task) same
                (get_or-set_self buffer slot (some task) none (omega (arith, width))) in
            let found : some task ≡ some x = sym own ∙ e in (head, above, lt, same, at ∙ found)
        | inr f ↦
            let apart : slot ≢ k = λ s. absurd (ground arith) in
            held k x (sym (get_or-set_ne buffer slot k (some task) none apart) ∙ e)
      ]

  claims-update :
      (f : ℕ → Producer Task) (p : ℕ) (v : Producer Task)
      → claims v ≡ claims (f p)
      → (q : ℕ) → claims (update f p v q) ≡ claims (f q)
  claims-update f p v same q = elim (Bool-cases (q == p)) [
    | inl t ↦ let here : p ≡ q = ground arith in rw t (same ∙ ap (λ n. claims (f n)) here)
    | inr g ↦ rw g refl
  ]

  Told-begun :
      (busy : ℕ → Bool) (k : ℕ) (x : Producer Task) → Told busy x → Told (flag_at busy k true) x
  Told-begun busy k (storing _ head _) t = elim (Bool-cases (head % buffer_size == k)) [
    | inl h ↦ rw h refl
    | inr f ↦ rw f t
  ]
  Told-begun busy k idle t = tt
  Told-begun busy k (starting _) t = tt
  Told-begun busy k (loaded _ _) t = tt
  Told-begun busy k (ready _ _ _) t = tt
  Told-begun busy k (writing _ _ _) t = tt
  Told-begun busy k (counting _ _) t = tt
  Told-begun busy k (refusing _) t = tt
  Told-begun busy k (refused_task _) t = tt

  Told-ended :
      (busy : ℕ → Bool) (k : ℕ) (x : Producer Task)
      → ((h : ℕ) → stores x ≡ some h → h % buffer_size ≢ k)
      → Told busy x
      → Told (flag_at busy k false) x
  Told-ended busy k (storing _ head _) apart t = elim (Bool-cases (head % buffer_size == k)) [
    | inl h ↦ absurd (apart head refl (ground (arith, h)))
    | inr f ↦ rw f t
  ]
  Told-ended busy k idle apart t = tt
  Told-ended busy k (starting _) apart t = tt
  Told-ended busy k (loaded _ _) apart t = tt
  Told-ended busy k (ready _ _ _) apart t = tt
  Told-ended busy k (writing _ _ _) apart t = tt
  Told-ended busy k (counting _ _) apart t = tt
  Told-ended busy k (refusing _) apart t = tt
  Told-ended busy k (refused_task _) apart t = tt

  ConsumerFits-began :
      (buffer : List (Option Task)) (claimed : List Task) (first : ℕ)
      (producers : ℕ → Producer Task) (p : ℕ) (task : Task) (head tail : ℕ) (c : Consumer Task)
      → producers p ≡ writing task head tail
      → takes (slot_of head) c ≡ false
      → ConsumerFits buffer claimed first producers c
      → ConsumerFits buffer claimed first (update producers p (storing task head tail)) c
  ConsumerFits-began buffer claimed first producers p task head tail resting at free f = tt
  ConsumerFits-began buffer claimed first producers p task head tail returning at free f = tt
  ConsumerFits-began buffer claimed first producers p task head tail (loaded_tail _) at free f = f
  ConsumerFits-began buffer claimed first producers p task head tail (spinning_at _) at free f = f
  ConsumerFits-began buffer claimed first producers p task head tail (clearing t _) at free f =
      let apart : some head ≢ some t = λ c.
        let same : head ≡ t = cc in
        absurd (
          let again = ap (λ n. slot_of t == slot_of n) same in
          ground (arith, free, again, ==_refl (slot_of t))) in
      (
        f.0,
        f.1,
        f.2,
        each_update (λ x. stores x ≢ some t) producers p (storing task head tail) f.3 apart,
      )
  ConsumerFits-began buffer claimed first producers p task head tail (taken_from t _) at free f = (
    f.0,
    f.1,
    f.2,
    f.3,
    λ q c.
        f.4 q (sym (claims-update producers p (storing task head tail) (sym (ap claims at)) q) ∙ c),
  )

  pub began-IsRing :
      (p : ℕ) (task : Task) (head tail : ℕ) (w : World Task)
      → w.producers p ≡ writing task head tail
      → takes (slot_of head) w.consumer ≡ false
      → IsRing w
      → IsRing (began_store p task head tail w)
  began-IsRing p task head tail w at free r =
      let own = subst (Fits w.ring.buffer w.claimed (length w.popped)) at (r.fits p) in
      let kept = claims-update w.producers p (storing task head tail) (sym (ap claims at)) in
      let flag : (if head % buffer_size == slot_of head then true else w.busy (head % buffer_size))
          ≡ true =
        rw (bit_and-mask head, ==_refl (head % buffer_size)) refl in
      record {
        width = r.width;
        head_is = r.head_is;
        tail_is = r.tail_is;
        window = r.window;
        behind = r.behind;
        fifo = r.fifo;
        held = r.held;
        fits =
            each_update (Fits w.ring.buffer w.claimed (length w.popped)) w.producers p
              (storing task head tail) r.fits own;
        distinct = λ q q' h c c'. r.distinct q q' h (sym (kept q) ∙ c) (sym (kept q') ∙ c');
        told =
            each_update (Told (flag_at w.busy (slot_of head) true)) w.producers p
              (storing task head tail)
              (λ q. Told-begun w.busy (slot_of head) (w.producers q) (r.told q)) flag;
        consumer_fits =
            ConsumerFits-began w.ring.buffer w.claimed (length w.popped) w.producers p task head
              tail w.consumer at free r.consumer_fits;
      }

  pub ended-IsRing :
      (p : ℕ) (task : Task) (head tail : ℕ) (w : World Task)
      → w.producers p ≡ storing task head tail
      → IsRing w
      → IsRing (ended_store p task head tail w)
  ended-IsRing p task head tail w at r = rw (bit_and-mask head) (record {
    width = length-set w.ring.buffer slot (some task) ∙ r.width;
    head_is = r.head_is;
    tail_is = r.tail_is;
    window = r.window;
    behind = r.behind;
    fifo = r.fifo;
    held = Held-set w.ring.buffer w.claimed first head task r.width own.0 own.1 own.2 r.held;
    fits = fits;
    distinct = Distinct-update w.producers p (counting head tail) r.distinct (λ q h c. absurd (cc));
    told = told;
    consumer_fits =
        ConsumerFits-update (set w.ring.buffer slot (some task)) w.claimed first w.producers p
          (counting head tail) w.consumer (λ h lt c. absurd (cc)) (λ h c. absurd (cc))
          (ConsumerFits-set w.ring.buffer w.claimed first slot (some task) w.producers w.consumer
            (λ t t_first unclaimed same. unclaimed p (
              mine
              ∙ ap some
                  (let window = r.window in omega (arith, t_first, same, own.0, own.1, window))))
            r.consumer_fits);
  })
    where
      first : ℕ
      first = length w.popped

      slot : ℕ
      slot = head % buffer_size

      own : Fits w.ring.buffer w.claimed first (storing task head tail)
      own = subst (Fits w.ring.buffer w.claimed first) at (r.fits p)

      mine : stores (w.producers p) ≡ some head
      mine = ap stores at

      fits :
          (q : ℕ)
          → Fits
              (set w.ring.buffer slot (some task))
              w.claimed
              first
              (update w.producers p (counting head tail) q)
      fits q = elim (Bool-cases (q == p)) [
        | inl t ↦ rw t tt
        | inr f ↦ rw f (
            Fits-set w.ring.buffer w.claimed first slot (some task) (w.producers q)
              (λ h c same.
                let (above, lt, _) =
                  claims-Fits w.ring.buffer w.claimed first (w.producers q) h c (r.fits q) in
                let window = r.window in
                let equal : h ≡ head = omega (arith, above, lt, same, own.0, own.1, window) in
                let one =
                  r.distinct q p head (c ∙ ap some equal)
                    (stores-claims (w.producers p) head mine) in
                absurd (ground arith))
              (r.fits q))
      ]

      told :
          (q : ℕ) → Told (flag_at w.busy slot false) (update w.producers p (counting head tail) q)
      told q = elim (Bool-cases (q == p)) [
        | inl t ↦ rw t tt
        | inr f ↦ rw f (
            Told-ended w.busy slot (w.producers q)
              (λ h c same.
                let c' = stores-claims (w.producers q) h c in
                let (above, lt, _) =
                  claims-Fits w.ring.buffer w.claimed first (w.producers q) h c' (r.fits q) in
                let window = r.window in
                let equal : h ≡ head = omega (arith, above, lt, same, own.0, own.1, window) in
                let one =
                  r.distinct q p head (c' ∙ ap some equal)
                    (stores-claims (w.producers p) head mine) in
                absurd (ground arith))
              (r.told q))
      ]
