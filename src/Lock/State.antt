-- ===== src/Lock/State.antt =====
-- One path's lock: its invariant and what a request changes.
use velo_rift.Lock.{
  LockState, contains, insert_pid, remove_pid, held_by, nonempty, acquire_state, release_state,
}
use velo_rift.Prelude.{
  ℕ, ◌≡◌, ◌≢◌, refl, ap, inl, inr, List, [], ◌∷◌, Option, none, some, Bool, false, not, ◌&&◌, ◌||◌,
  ◌==◌, ltb, length, arith, Bool-cases, ==_refl, ==_iff,
}

-- no process stands twice
abbrev pub Distinct : List ℕ → Type 0
Distinct [] = Unit {0}
Distinct (q ∷ qs) = (contains qs q ≡ false) × Distinct qs

-- While one process holds the lock exclusively, none shares it.
abbrev pub Unshared : Option ℕ → List ℕ → Type 0
Unshared none qs = Unit {0}
Unshared (some p) qs = qs ≡ []

pub record IsSafe (s : LockState) : Type 0 where
  pub unshared : Unshared s.exclusive s.shared
  pub distinct : Distinct s.shared

-- a process holds the lock in some way
abbrev pub holds : LockState → ℕ → Bool
holds s p = held_by s.exclusive p || contains s.shared p

pub contains-remove_pid :
    (p q : ℕ) (qs : List ℕ) → contains (remove_pid p qs) q ≡ (not (p == q) && contains qs q)
unfolding contains remove_pid
contains-remove_pid p q [] = ground arith
contains-remove_pid p q (r ∷ qs) = ground (arith, contains-remove_pid p q qs)

pub contains-insert_pid :
    (p q : ℕ) (qs : List ℕ) → contains (insert_pid p qs) q ≡ (p == q || contains qs q)
unfolding contains insert_pid
contains-insert_pid p q qs = elim (Bool-cases (contains qs p)) [
  | inr e ↦ rw e refl
  | inl e ↦ elim (Bool-cases (p == q)) [
    | inl h ↦ let pq = (==_iff p q).0 h in let e' = ap (contains qs) pq in rw e (ground arith)
    | inr h ↦ rw (e, h) refl
  ]
]

-- A set of at most one process that holds `p` holds nobody else.
pub alone :
    (p : ℕ) (qs : List ℕ)
    → (nonempty qs && (ltb 1 (length qs) || not (contains qs p))) ≡ false
    → remove_pid p qs ≡ []
unfolding contains remove_pid
alone p [] h = refl
alone p (q ∷ []) h = ground arith
alone p (q ∷ r ∷ qs) h = absurd (ground arith)

insert_pid-Distinct : (p : ℕ) (qs : List ℕ) → Distinct qs → Distinct (insert_pid p qs)
unfolding insert_pid
insert_pid-Distinct p qs d = elim (Bool-cases (contains qs p)) [
  | inl e ↦ rw e d
  | inr e ↦ rw e (e, d)
]

remove_pid-Distinct : (p : ℕ) (qs : List ℕ) → Distinct qs → Distinct (remove_pid p qs)
unfolding remove_pid
remove_pid-Distinct p [] d = d
remove_pid-Distinct p (q ∷ qs) d = elim (Bool-cases (q == p)) [
  | inl e ↦ rw e (remove_pid-Distinct p qs d.1)
  | inr e ↦
      let c = contains-remove_pid p q qs in rw e (ground (arith, d.0), remove_pid-Distinct p qs d.1)
]

module _ (s : LockState) (pid op : ℕ) where
  acquire_state-Unshared :
      IsSafe s → Unshared (acquire_state s pid op).0.exclusive (acquire_state s pid op).0.shared
  unfolding acquire_state
  acquire_state-Unshared safe = ground (arith, alone pid s.shared, safe.unshared)

  acquire_state-Distinct : IsSafe s → Distinct (acquire_state s pid op).0.shared
  unfolding acquire_state
  acquire_state-Distinct safe = ground (
    arith,
    insert_pid-Distinct pid s.shared safe.distinct,
    remove_pid-Distinct pid s.shared safe.distinct,
    safe.distinct,
  )

  pub acquire_state-IsSafe : IsSafe s → IsSafe (acquire_state s pid op).0
  acquire_state-IsSafe safe = record {
    unshared = acquire_state-Unshared safe;
    distinct = acquire_state-Distinct safe;
  }

  -- What other processes hold is left alone.
  pub acquire_state_others :
      (q : ℕ)
      → q ≢ pid
      → (held_by (acquire_state s pid op).0.exclusive q ≡ held_by s.exclusive q)
        × (contains (acquire_state s pid op).0.shared q ≡ contains s.shared q)
  unfolding acquire_state
  acquire_state_others q ne =
      ground (arith, contains-insert_pid pid q s.shared, contains-remove_pid pid q s.shared)

module _ (s : LockState) (pid : ℕ) where
  pub release_state-IsSafe : IsSafe s → IsSafe (release_state s pid)
  unfolding release_state
  release_state-IsSafe safe = record {
    unshared = unfold remove_pid in ground (arith, safe.unshared);
    distinct = remove_pid-Distinct pid s.shared safe.distinct;
  }

  pub release_state_others :
      (q : ℕ)
      → q ≢ pid
      → (held_by (release_state s pid).exclusive q ≡ held_by s.exclusive q)
        × (contains (release_state s pid).shared q ≡ contains s.shared q)
  unfolding release_state
  release_state_others q ne = ground (arith, contains-remove_pid pid q s.shared)

  pub release_state_gone : holds (release_state s pid) pid ≡ false
  unfolding release_state
  release_state_gone = ground (arith, contains-remove_pid pid pid s.shared, ==_refl pid)
