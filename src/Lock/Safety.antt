-- ===== src/Lock/Safety.antt =====
-- All paths together, over any sequence of calls.
use velo_rift.Lock.{
  LockState, new_state, or_new, remove_pid, contains, held_by, acquire_state, release_state,
  state_of, try_acquire, release,
}
use velo_rift.Lock.State.{IsSafe, holds, acquire_state-IsSafe, release_state-IsSafe}
use velo_rift.Prelude.{
  ℕ, ◌≡◌, refl, ap, ◌∙◌, subst, inl, inr, List, [], ◌∷◌, none, true, if◌then◌else◌, arith,
  Bool-cases, Option-cases,
}
use velo_rift.Prelude.Assoc.{Eq, lookup, lookup-insert}

-- what the daemon asks of the manager
pub data Call (K : Type 0) : Type 0 where
  acquire : K → ℕ → ℕ → Call K
  unlock : K → ℕ → Call K

release_new : (pid : ℕ) → new_state ≡ release_state new_state pid
unfolding release_state remove_pid
release_new pid = refl

exclusive_alone :
    (s : LockState) (p q : ℕ) → IsSafe s → held_by s.exclusive p ≡ true → holds s q ≡ true → p ≡ q
unfolding contains
exclusive_alone s p q safe hp hq = ground (arith, safe.unshared)

module _ {K : Type 0} ⦃e : Eq K⦄ where
  unfoldable pub step : Call K → List (K × LockState) → List (K × LockState)
  step (acquire path pid op) locks = (try_acquire locks path pid op).0
  step (unlock path pid) locks = (release locks path pid).0

  unfoldable pub run : List (Call K) → List (K × LockState) → List (K × LockState)
  run [] locks = locks
  run (c ∷ cs) locks = run cs (step c locks)

  abbrev pub AllSafe : List (K × LockState) → Type 0
  AllSafe locks = (path : K) → IsSafe (state_of locks path)

  -- a call acts on its own path alone, by the function on states
  pub state_of-try_acquire :
      (locks : List (K × LockState)) (path other : K) (pid op : ℕ)
      → state_of (try_acquire locks path pid op).0 other ≡ (
          if e.beq path other
          then (acquire_state (state_of locks path) pid op).0
          else state_of locks other)
  unfolding try_acquire
  state_of-try_acquire locks path other pid op =
      let s = (acquire_state (state_of locks path) pid op).0 in
      ap or_new (lookup-insert path other s locks)
      ∙ elim (Bool-cases (e.beq path other)) [ inl h ↦ rw h refl | inr h ↦ rw h refl ]

  pub state_of-release :
      (locks : List (K × LockState)) (path other : K) (pid : ℕ)
      → state_of (release locks path pid).0 other ≡ (
          if e.beq path other
          then release_state (state_of locks path) pid
          else state_of locks other)
  unfolding release
  state_of-release locks path other pid = elim (Option-cases (lookup path locks)) [
    | inl l ↦
        rw (l, release)
          (elim (Bool-cases (e.beq path other)) [
            | inl h ↦
                let p = (e.beq_iff path other).0 h in
                rw h (ap or_new (subst (λ m. lookup m locks ≡ none) p l) ∙ release_new pid)
            | inr h ↦ rw h refl
          ])
    | inr (s, l) ↦
        rw (l, release)
          (ap or_new (lookup-insert path other (release_state s pid) locks)
            ∙ elim (Bool-cases (e.beq path other)) [ inl h ↦ rw h refl | inr h ↦ rw h refl ])
  ]

  AllSafe-step :
      (c : Call K) (locks : List (K × LockState)) → AllSafe locks → AllSafe (step c locks)
  unfolding step
  AllSafe-step (acquire path pid op) locks all other =
      rw (state_of-try_acquire locks path other pid op) (elim (Bool-cases (e.beq path other)) [
        | inl h ↦ rw h (acquire_state-IsSafe _ pid op (all path))
        | inr h ↦ rw h (all other)
      ])
  AllSafe-step (unlock path pid) locks all other =
      rw (state_of-release locks path other pid) (elim (Bool-cases (e.beq path other)) [
        | inl h ↦ rw h (release_state-IsSafe _ pid (all path))
        | inr h ↦ rw h (all other)
      ])

  AllSafe-run :
      (cs : List (Call K)) (locks : List (K × LockState)) → AllSafe locks → AllSafe (run cs locks)
  unfolding run
  AllSafe-run [] locks all = all
  AllSafe-run (c ∷ cs) locks all = AllSafe-run cs (step c locks) (AllSafe-step c locks all)

  -- After any calls on a new manager, a process that holds a path exclusively is the only one
  -- that holds it in any way.
  pub mutual_exclusion :
      (cs : List (Call K)) (path : K) (p q : ℕ)
      → held_by (state_of (run cs []) path).exclusive p ≡ true
      → holds (state_of (run cs []) path) q ≡ true
      → p ≡ q
  unfolding lookup
  mutual_exclusion cs path p q hp hq =
      exclusive_alone (state_of (run cs []) path) p q
        (AllSafe-run cs [] (λ other. record { unshared = tt; distinct = tt }) path) hp hq
