-- ===== src/Sync/RingBuffer/Producers/Invariant.antt =====
-- What holds between the steps of the producers and the consumer.
use velo_rift.Prelude.{
  Bool, true, ℕ, zero, suc, ◌+◌, ◌%◌, ◌≤◌, ◌<◌, ◌≡◌, ◌≢◌, refl, ap, subst, List, [], ◌∷◌, ◌++◌,
  Option, none, some, if◌then◌else◌, ◌==◌, length, drop, get_or, arith, Bool-cases, inl, inr,
}
use velo_rift.Sync.RingBuffer.{buffer_size, wrapping_sub}
use velo_rift.Sync.RingBuffer.Producers.{
  Producer, idle, starting, loaded, ready, writing, storing, counting, refusing, refused_task,
  Consumer, resting, loaded_tail, spinning_at, clearing, taken_from, returning, World, update,
}

module _ {Task : Type 0} where
  abbrev pub get_elem? : List Task → ℕ → Option Task
  get_elem? [] i = none
  get_elem? (x ∷ xs) zero = some x
  get_elem? (x ∷ xs) (suc i) = get_elem? xs i

  pub get_elem?-append :
      (xs : List Task) (y : Task) (i : ℕ)
      → i < length xs
      → get_elem? (xs ++ (y ∷ [])) i ≡ get_elem? xs i
  get_elem?-append [] y i lt = absurd (omega arith)
  get_elem?-append (x ∷ xs) y zero lt = refl
  get_elem?-append (x ∷ xs) y (suc i) lt = get_elem?-append xs y i (omega arith)

  pub get_elem?-last : (xs : List Task) (y : Task) → get_elem? (xs ++ (y ∷ [])) (length xs) ≡ some y
  get_elem?-last [] y = refl
  get_elem?-last (x ∷ xs) y = get_elem?-last xs y

  pub drop-snoc :
      (n : ℕ) (xs : List Task) (y : Task)
      → n ≤ length xs
      → drop n (xs ++ (y ∷ [])) ≡ drop n xs ++ (y ∷ [])
  drop-snoc zero xs y le = refl
  drop-snoc (suc n) [] y le = absurd (omega arith)
  drop-snoc (suc n) (x ∷ xs) y le = drop-snoc n xs y (omega arith)

  pub drop-get_elem? :
      (xs : List Task) (n : ℕ) (y : Task)
      → get_elem? xs n ≡ some y
      → drop n xs ≡ y ∷ drop (suc n) xs
  drop-get_elem? [] n y e = absurd (cc)
  drop-get_elem? (x ∷ xs) zero y e = let same : x ≡ y = cc in ap (λ z. z ∷ xs) same
  drop-get_elem? (x ∷ xs) (suc n) y e = drop-get_elem? xs n y e

  -- the counter whose slot the thread has claimed and not written
  abbrev pub claims : Producer Task → Option ℕ
  claims (writing task head tail) = some head
  claims (storing task head tail) = some head
  claims _ = none

  -- the counter whose slot the thread is storing in
  abbrev pub stores : Producer Task → Option ℕ
  stores (storing task head tail) = some head
  stores _ = none

  pub stores-claims : (x : Producer Task) (h : ℕ) → stores x ≡ some h → claims x ≡ some h
  stores-claims (storing task head tail) h e = e
  stores-claims idle h e = absurd (cc)
  stores-claims (starting task) h e = absurd (cc)
  stores-claims (loaded task head) h e = absurd (cc)
  stores-claims (ready task head tail) h e = absurd (cc)
  stores-claims (writing task head tail) h e = absurd (cc)
  stores-claims (counting head tail) h e = absurd (cc)
  stores-claims (refusing task) h e = absurd (cc)
  stores-claims (refused_task task) h e = absurd (cc)

  -- a store that has begun is told by the slot's flag
  abbrev pub Told : (ℕ → Bool) → Producer Task → Type 0
  Told busy (storing task head tail) = busy (head % buffer_size) ≡ true
  Told busy _ = Unit {0}

  module _ (buffer : List (Option Task)) (claimed : List Task) (first : ℕ) where
    abbrev pub Fits : Producer Task → Type 0
    Fits (ready task head tail) = (tail ≤ first) × (wrapping_sub head tail < buffer_size)
    Fits (writing task head tail) =
        (first ≤ head)
        × (head < length claimed)
        × (get_elem? claimed head ≡ some task)
        × (get_or buffer (head % buffer_size) none ≡ none)
    Fits (storing task head tail) =
        (first ≤ head)
        × (head < length claimed)
        × (get_elem? claimed head ≡ some task)
        × (get_or buffer (head % buffer_size) none ≡ none)
    Fits _ = Unit {0}

    -- a full slot holds the task of a counter in the window
    abbrev pub Held : Type 0
    Held =
        (k : ℕ) (x : Task)
        → get_or buffer k none ≡ some x
        → (i : ℕ) × (first ≤ i)
          × (i < length claimed)
          × (i % buffer_size ≡ k)
          × (get_elem? claimed i ≡ some x)

    abbrev pub ConsumerFits : (ℕ → Producer Task) → Consumer Task → Type 0
    ConsumerFits producers resting = Unit {0}
    ConsumerFits producers (loaded_tail tail) = tail ≡ first
    ConsumerFits producers (spinning_at tail) = (tail ≡ first) × (first < length claimed)
    ConsumerFits producers (clearing tail read) =
        (tail ≡ first)
        × (first < length claimed)
        × (get_or buffer (tail % buffer_size) none ≡ read)
        × ((p : ℕ) → stores (producers p) ≢ some tail)
    ConsumerFits producers returning = Unit {0}
    ConsumerFits producers (taken_from tail task) =
        (tail ≡ first)
        × (first < length claimed)
        × (get_elem? claimed tail ≡ some task)
        × (get_or buffer (tail % buffer_size) none ≡ none)
        × ((p : ℕ) → claims (producers p) ≢ some tail)

    pub claims-Fits :
        (x : Producer Task) (h : ℕ)
        → claims x ≡ some h
        → Fits x
        → (first ≤ h) × (h < length claimed) × (get_or buffer (h % buffer_size) none ≡ none)
    claims-Fits idle h e f = absurd (cc)
    claims-Fits (starting task) h e f = absurd (cc)
    claims-Fits (loaded task head) h e f = absurd (cc)
    claims-Fits (ready task head tail) h e f = absurd (cc)
    claims-Fits (counting head tail) h e f = absurd (cc)
    claims-Fits (refusing task) h e f = absurd (cc)
    claims-Fits (refused_task task) h e f = absurd (cc)
    claims-Fits (storing task head tail) h e f =
        let same : head ≡ h = cc in
        subst
          (λ j. (first ≤ j) × (j < length claimed) × (get_or buffer (j % buffer_size) none ≡ none))
          same (f.0, f.1, f.3)
    claims-Fits (writing task head tail) h e f =
        let same : head ≡ h = cc in
        subst
          (λ j. (first ≤ j) × (j < length claimed) × (get_or buffer (j % buffer_size) none ≡ none))
          same (f.0, f.1, f.3)

  abbrev pub Distinct : (ℕ → Producer Task) → Type 0
  Distinct f = (p q h : ℕ) → claims (f p) ≡ some h → claims (f q) ≡ some h → p ≡ q

  pub Distinct-update :
      (f : ℕ → Producer Task) (p : ℕ) (v : Producer Task)
      → Distinct f
      → ((q h : ℕ) → claims v ≡ some h → claims (f q) ≢ some h)
      → Distinct (update f p v)
  Distinct-update f p v distinct apart q r h cq cr = elim (Bool-cases (q == p)) [
    | inl t ↦ elim (Bool-cases (r == p)) [
      | inl t' ↦ ground arith
      | inr f' ↦ absurd (
          apart r h (subst (λ b. claims (if b then v else f q) ≡ some h) t cq)
            (subst (λ b. claims (if b then v else f r) ≡ some h) f' cr))
    ]
    | inr g ↦ elim (Bool-cases (r == p)) [
      | inl t' ↦ absurd (
          apart q h (subst (λ b. claims (if b then v else f r) ≡ some h) t' cr)
            (subst (λ b. claims (if b then v else f q) ≡ some h) g cq))
      | inr f' ↦
          distinct q r h (subst (λ b. claims (if b then v else f q) ≡ some h) g cq)
            (subst (λ b. claims (if b then v else f r) ≡ some h) f' cr)
    ]
  ]

  pub each_update :
      (P : Producer Task → Type 0) (f : ℕ → Producer Task) (p : ℕ) (v : Producer Task)
      → ((q : ℕ) → P (f q))
      → P v
      → (q : ℕ) → P (update f p v q)
  each_update P f p v all here q = elim (Bool-cases (q == p)) [
    | inl t ↦ rw t here
    | inr g ↦ rw g (all q)
  ]

  pub record IsRing (w : World Task) : Type 0 where
    pub width : length w.ring.buffer ≡ buffer_size
    pub head_is : w.ring.head ≡ length w.claimed
    pub tail_is : w.ring.tail ≡ length w.popped
    pub window : length w.claimed ≤ length w.popped + buffer_size
    pub behind : length w.popped ≤ length w.claimed
    pub fifo : w.claimed ≡ w.popped ++ drop (length w.popped) w.claimed
    pub held : Held w.ring.buffer w.claimed (length w.popped)
    pub fits : (p : ℕ) → Fits w.ring.buffer w.claimed (length w.popped) (w.producers p)
    pub distinct : Distinct w.producers
    pub told : (p : ℕ) → Told w.busy (w.producers p)
    pub consumer_fits :
        ConsumerFits w.ring.buffer w.claimed (length w.popped) w.producers w.consumer
