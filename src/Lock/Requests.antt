-- ===== src/Lock/Requests.antt =====
-- Every branch of `try_acquire` (crates/vrift-daemon/src/main.rs), on the state of the path.
use Prim.Native.Nat.{bit_and}
use velo_rift.Lock.{
  LockState, Acquired, granted, blocked, invalid, lock_sh, lock_ex, held_by, acquire_state,
}
use velo_rift.Lock.Grants.{
  OnlyHolder, Held, acquire_exclusive_iff, acquire_shared_iff, granted-Held, acquire_unchanged,
}
use velo_rift.Lock.State.{IsSafe}
use velo_rift.Prelude.{ℕ, ◌≡◌, ◌≢◌, ◌⊎◌, ◌↔◌, inl, inr, refl, Bool, true, false, ◌==◌, Bool-cases}

pub granted_or_not : (r : Acquired) → (r ≡ granted) ⊎ (r ≢ granted)
granted_or_not granted = inl refl
granted_or_not blocked = inr (λ e. cc e)
granted_or_not invalid = inr (λ e. cc e)

-- No other process holds the lock, for an exclusive request, or holds it exclusively, for a shared
-- one. No other request is granted.
abbrev pub Grantable : LockState → ℕ → Bool → Bool → Type 0
Grantable s pid false no_sh = OnlyHolder s pid
Grantable s pid true false = (q : ℕ) → q ≢ pid → held_by s.exclusive q ≡ false
Grantable s pid true true = ⊥

module _ (s : LockState) (pid op : ℕ) where
  never_granted :
      (bit_and op lock_ex == 0) ≡ true
      → (bit_and op lock_sh == 0) ≡ true
      → (acquire_state s pid op).1 ≢ granted
  unfolding acquire_state
  never_granted ex sh g = let bad : invalid ≡ granted = rw (ex, sh) at g in absurd (cc)

  granted_iff :
      IsSafe s
      → ((acquire_state s pid op).1 ≡ granted)
        ↔ Grantable s pid (bit_and op lock_ex == 0) (bit_and op lock_sh == 0)
  granted_iff safe = elim (Bool-cases (bit_and op lock_ex == 0)) [
    | inr ex ↦ rw ex (acquire_exclusive_iff s pid op safe ex)
    | inl ex ↦ elim (Bool-cases (bit_and op lock_sh == 0)) [
      | inr sh ↦ rw (ex, sh) (acquire_shared_iff s pid op ex sh)
      | inl sh ↦ rw (ex, sh) (λ g. never_granted ex sh g, λ no. absurd no)
    ]
  ]

  -- In a state that keeps the lock's invariant, an exclusive request is granted exactly if no other
  -- process holds the lock, a shared one exactly if none holds it exclusively, and no other request.
  -- A requester that is granted the lock then holds it alone, or shares it after a shared request,
  -- when it has given up an exclusive hold of its own. A request that is not granted changes
  -- nothing.
  pub acquire_state_iff :
      IsSafe s
      → (((acquire_state s pid op).1 ≡ granted)
          ↔ Grantable s pid (bit_and op lock_ex == 0) (bit_and op lock_sh == 0))
        × ((((acquire_state s pid op).1 ≡ granted) × Held s pid op)
            ⊎ (((acquire_state s pid op).1 ≢ granted) × ((acquire_state s pid op).0 ≡ s)))
  acquire_state_iff safe = (
    granted_iff safe,
    elim (granted_or_not ((acquire_state s pid op).1)) [
      | inl g ↦ inl (g, granted-Held s pid op g)
      | inr n ↦ inr (n, acquire_unchanged s pid op n)
    ],
  )
