-- ===== src/Tests/Lock.antt =====
-- Two processes at one lock.
use velo_rift.Lock.{
  LockState, granted, acquire_state, release_state, remove_pid, insert_pid, contains, try_acquire,
  release, wakes, state_of, held_by, lock_ex, lock_sh,
}
use velo_rift.Lock.Handler.{flock_ack, flock_round, flock_round-holds}
use velo_rift.Lock.Safety.{Call, acquire, unlock, step, run, mutual_exclusion}
use velo_rift.Lock.State.{holds, IsSafe}
use Prim.Native.Nat.{bit_and}
use velo_rift.Lock.Requests.{Grantable, acquire_state_iff}
use velo_rift.Lock.Grants.{Held, release_wakes}
use velo_rift.Prelude.Assoc.{lookup, insert, nat_eq}
use velo_rift.Prelude.{◌==◌, ◌⊎◌, ℕ, ◌≡◌, ◌≢◌, ◌↔◌, refl, some, true, List, [], ◌∷◌, arith}

abbrev writer : LockState
writer = record { exclusive = some 1; shared = [] }

writer-IsSafe : IsSafe writer
writer-IsSafe = record { unshared = refl; distinct = tt }

acquire_state_iff_example :
    (((acquire_state writer 2 1).1 ≡ granted)
      ↔ Grantable writer 2 (bit_and 1 lock_ex == 0) (bit_and 1 lock_sh == 0))
    × ((((acquire_state writer 2 1).1 ≡ granted) × Held writer 2 1)
        ⊎ (((acquire_state writer 2 1).1 ≢ granted) × ((acquire_state writer 2 1).0 ≡ writer)))
acquire_state_iff_example = acquire_state_iff writer 2 1 writer-IsSafe

release_wakes_example : wakes (release_state writer 1) ≡ true
release_wakes_example =
    release_wakes writer 1 2 2 writer-IsSafe (unfold acquire_state in refl)
      (λ e. absurd (omega arith)) (unfold acquire_state release_state remove_pid in refl)

-- process 2 shares path 7 and leaves, process 1 takes it, and process 2 asks for it
abbrev calls : List (Call ℕ)
calls = acquire 7 2 1 ∷ unlock 7 2 ∷ acquire 7 1 2 ∷ acquire 7 2 1 ∷ []

held_exclusively : held_by (state_of (run calls []) 7).exclusive 1 ≡ true
unfolding lookup insert contains insert_pid remove_pid
held_exclusively = unfold run step try_acquire release acquire_state release_state in refl

mutual_exclusion_example : ◌≡◌ {A = ℕ} 1 1
mutual_exclusion_example =
    mutual_exclusion calls 7 1 1 held_exclusively (ground (arith, held_exclusively))

abbrev locks_of_calls : List (ℕ × LockState)
locks_of_calls = run calls []

flock_round-holds_example :
    (((flock_round locks_of_calls 7 2 6).1 ≡ flock_ack)
      × (holds (state_of ((flock_round locks_of_calls 7 2 6).0) 7) 2 ≡ true))
    ⊎ (((flock_round locks_of_calls 7 2 6).1 ≢ flock_ack)
        × (state_of ((flock_round locks_of_calls 7 2 6).0) 8 ≡ state_of locks_of_calls 8))
flock_round-holds_example = flock_round-holds locks_of_calls 7 8 2 6
