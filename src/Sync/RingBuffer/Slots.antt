-- ===== src/Sync/RingBuffer/Slots.antt =====
-- The slots of the ring: which slot a counter means, and the tasks in a run of slots.
use Prim.Native.Nat.{bit_and}
use velo_rift.Prelude.Bits.{bit_and_fff}
use velo_rift.Prelude.{
  ℕ, zero, suc, ◌+◌, ◌%◌, ◌<◌, ◌≡◌, ◌≢◌, refl, sym, ap, ◌∙◌, subst, List, [], ◌∷◌, ◌++◌, Option,
  none, some, get_or, set, get_or-set_ne, arith, Option-cases, inl, inr,
}
use velo_rift.Sync.RingBuffer.{buffer_size, buffer_mask}

pub bit_and-mask : (a : ℕ) → bit_and a buffer_mask ≡ a % buffer_size
bit_and-mask = bit_and_fff

module _ {Task : Type 0} where
  abbrev pub slot_of : List (Option Task) → ℕ → Option Task
  slot_of buffer t = get_or buffer (t % buffer_size) none

  -- the tasks in the `n` slots from `t` on
  unfoldable pub items : List (Option Task) → ℕ → ℕ → List Task
  items buffer t zero = []
  items buffer t (suc n) = elim (slot_of buffer t) [
    | none ↦ []
    | some task ↦ task ∷ items buffer (t + 1) n
  ]

  abbrev pub Filled : List (Option Task) → ℕ → ℕ → Type 0
  Filled buffer t n = (i : ℕ) → i < n → (task : Task) × (slot_of buffer (t + i) ≡ some task)

  pub items-cons :
      (buffer : List (Option Task)) (t n : ℕ) (task : Task)
      → slot_of buffer t ≡ some task
      → items buffer t (suc n) ≡ task ∷ items buffer (t + 1) n
  unfolding items
  items-cons buffer t n task e = rw (e, items) refl

  -- A write to a slot outside leaves the tasks as they are.
  pub items-set :
      (buffer : List (Option Task)) (j : ℕ) (v : Option Task) (t n : ℕ)
      → ((i : ℕ) → i < n → j ≢ (t + i) % buffer_size)
      → items (set buffer j v) t n ≡ items buffer t n
  unfolding items
  items-set buffer j v t zero apart = refl
  items-set buffer j v t (suc n) apart =
      let apart0 : j ≢ t % buffer_size = λ e. apart 0 (omega arith) (omega arith) in
      let same = get_or-set_ne buffer j (t % buffer_size) v none apart0 in
      let rest =
        items-set buffer j v (t + 1) n (λ i lt e. apart (suc i) (omega arith) (omega arith)) in
      elim (Option-cases (slot_of buffer t)) [
        | inl e ↦ rw (same ∙ e, e, items) refl
        | inr (task, e) ↦ rw (same ∙ e, e, items) (ap (λ l. task ∷ l) rest)
      ]

  pub items-snoc :
      (buffer : List (Option Task)) (t n : ℕ) (task : Task)
      → Filled buffer t n
      → slot_of buffer (t + n) ≡ some task
      → items buffer t (suc n) ≡ items buffer t n ++ (task ∷ [])
  items-snoc buffer t zero task filled e =
      items-cons buffer t zero task (subst (λ m. slot_of buffer m ≡ some task) (omega arith) e)
      ∙ unfold items in refl
  items-snoc buffer t (suc n) task filled e =
      let (first, f) = filled 0 (omega arith) in
      let f' : slot_of buffer t ≡ some first =
        subst (λ m. slot_of buffer m ≡ some first) (omega arith) f in
      items-cons buffer t (suc n) first f'
      ∙ ap (λ l. first ∷ l)
          (items-snoc buffer (t + 1) n task
            (λ i lt.
              subst (λ m. (task : Task) × (slot_of buffer m ≡ some task)) (omega arith)
                (filled (suc i) (omega arith)))
            (subst (λ m. slot_of buffer m ≡ some task) (omega arith) e))
      ∙ ap (λ l. l ++ (task ∷ [])) (sym (items-cons buffer t n first f'))

  pub items_mod :
      (buffer : List (Option Task)) (t t' n : ℕ)
      → t % buffer_size ≡ t' % buffer_size
      → items buffer t n ≡ items buffer t' n
  unfolding items
  items_mod buffer t t' zero e = refl
  items_mod buffer t t' (suc n) e =
      let rest = items_mod buffer (t + 1) (t' + 1) n (omega arith) in
      let same : slot_of buffer t ≡ slot_of buffer t' = ap (λ k. get_or buffer k none) e in
      elim (Option-cases (slot_of buffer t)) [
        | inl s ↦ rw (s, sym same ∙ s, items) refl
        | inr (task, s) ↦ rw (s, sym same ∙ s, items) (ap (λ l. task ∷ l) rest)
      ]
