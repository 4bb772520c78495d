-- ===== src/Lock/Grants.antt =====
-- Which requests are granted, what they hold, and who is woken.
use Prim.Native.Nat.{bit_and}
use velo_rift.Lock.{
  LockState, granted, blocked, contains, held_by_other, held_by, nonempty, acquire_state,
  release_state, wakes, lock_ex, lock_sh,
}
use velo_rift.Prelude.{
  ℕ, ◌≡◌, ◌≢◌, refl, ◌↔◌, ◌⊎◌, inl, inr, List, [], ◌∷◌, Option, none, some, true, false, not, ◌&&◌,
  ◌||◌, ◌==◌, ltb, length, arith, Bool-cases, ==_refl,
}
use velo_rift.Lock.State.{Distinct, IsSafe, holds, contains-insert_pid, alone}

-- nobody but `pid` holds the lock
abbrev pub OnlyHolder : LockState → ℕ → Type 0
OnlyHolder s pid = (q : ℕ) → q ≢ pid → holds s q ≡ false

only_shared :
    (pid : ℕ) (qs : List ℕ)
    → Distinct qs
    → ((q : ℕ) → q ≢ pid → contains qs q ≡ false)
    → (nonempty qs && (ltb 1 (length qs) || not (contains qs pid))) ≡ false
unfolding contains
only_shared pid [] d h = refl
only_shared pid (q ∷ []) d h = ground (arith, h q, ==_refl q)
only_shared pid (q ∷ r ∷ qs) d h = ground (arith, h q, h r, ==_refl q, ==_refl r, d.0)

sole_sharer :
    (pid q : ℕ) (qs : List ℕ)
    → q ≢ pid
    → (nonempty qs && (ltb 1 (length qs) || not (contains qs pid))) ≡ false
    → contains qs q ≡ false
unfolding contains
sole_sharer pid q [] ne h = refl
sole_sharer pid q (r ∷ []) ne h = ground arith
sole_sharer pid q (r ∷ t ∷ qs) ne h = absurd (ground arith)

no_other :
    (pid : ℕ) (ex : Option ℕ)
    → ((q : ℕ) → q ≢ pid → held_by ex q ≡ false)
    → held_by_other ex pid ≡ false
no_other pid none h = refl
no_other pid (some r) h = ground (arith, h r, ==_refl r)

no_other_sound :
    (pid q : ℕ) (ex : Option ℕ) → held_by_other ex pid ≡ false → q ≢ pid → held_by ex q ≡ false
no_other_sound pid q none h ne = refl
no_other_sound pid q (some r) h ne = ground arith

module _ (s : LockState) (pid op : ℕ) where
  -- In a state that keeps the lock's invariant, an exclusive request is granted exactly if no
  -- other process holds the lock.
  pub acquire_exclusive_iff :
      IsSafe s
      → (bit_and op lock_ex == 0) ≡ false
      → ((acquire_state s pid op).1 ≡ granted) ↔ OnlyHolder s pid
  unfolding acquire_state
  acquire_exclusive_iff safe ex = (
    λ g q ne. ground (arith, no_other_sound pid q s.exclusive, sole_sharer pid q s.shared),
    λ only.
        let a = no_other pid s.exclusive (λ q ne. let h = only q ne in ground arith) in
        let b =
          only_shared pid s.shared safe.distinct (λ q ne. let h = only q ne in ground arith) in
        ground arith,
  )

  -- A request that is shared and not exclusive is granted exactly if no other process holds the
  -- lock exclusively.
  pub acquire_shared_iff :
      (bit_and op lock_ex == 0) ≡ true
      → (bit_and op lock_sh == 0) ≡ false
      → ((acquire_state s pid op).1 ≡ granted) ↔ ((q : ℕ) → q ≢ pid → held_by s.exclusive q ≡ false)
  unfolding acquire_state
  acquire_shared_iff ex sh = (
    λ g q ne. ground (arith, no_other_sound pid q s.exclusive),
    λ only. let a = no_other pid s.exclusive only in ground arith,
  )

  -- what the requester holds after a request of this kind was granted
  abbrev pub Held : Type 0
  Held =
      ((bit_and op lock_ex == 0) ≡ false)
        × ((acquire_state s pid op).0 ≡ record { exclusive = some pid; shared = [] })
      ⊎ ((bit_and op lock_ex == 0) ≡ true)
        × (contains (acquire_state s pid op).0.shared pid ≡ true)
        × ((acquire_state s pid op).0.exclusive ≡ none)

  -- A requester that is granted the lock holds it alone after an exclusive request, and shares it
  -- after a shared one, when it has also given up an exclusive hold of its own.
  pub granted-Held : (acquire_state s pid op).1 ≡ granted → Held
  unfolding acquire_state
  granted-Held g = elim (Bool-cases (bit_and op lock_ex == 0)) [
    | inr ex ↦ inl (ex, ground (arith, alone pid s.shared))
    | inl sh ↦
        inr (sh, ground (arith, contains-insert_pid pid pid s.shared, ==_refl pid), ground arith)
  ]

  -- A request that is not granted changes nothing.
  pub acquire_unchanged : (acquire_state s pid op).1 ≢ granted → (acquire_state s pid op).0 ≡ s
  unfolding acquire_state
  acquire_unchanged ng = ground arith

-- In a state that keeps the lock's invariant, if the blocked request of another process could be
-- granted after a release, the release wakes the waiters.
pub release_wakes :
    (s : LockState) (pid q op : ℕ)
    → IsSafe s
    → (acquire_state s q op).1 ≡ blocked
    → q ≢ pid
    → (acquire_state (release_state s pid) q op).1 ≡ granted
    → wakes (release_state s pid) ≡ true
unfolding acquire_state release_state
release_wakes s pid q op safe was ne now = ground (arith, safe.unshared)

-- While a process holds the lock exclusively, another's shared request is blocked. The holder's
-- own shared request is granted, and after it the other one is granted too.
pub downgrade_unblocks :
    (s : LockState) (pid q op : ℕ)
    → s.exclusive ≡ some pid
    → q ≢ pid
    → (bit_and op lock_ex == 0) ≡ true
    → (bit_and op lock_sh == 0) ≡ false
    → ((acquire_state s q op).1 ≡ blocked)
      × ((acquire_state s pid op).1 ≡ granted)
      × ((acquire_state (acquire_state s pid op).0 q op).1 ≡ granted)
unfolding acquire_state
downgrade_unblocks s pid q op held ne ex sh = ground arith
