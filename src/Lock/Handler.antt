-- ===== src/Lock/Handler.antt =====
-- One round of the loop of the `FlockAcquire` handler in crates/vrift-daemon/src/main.rs. A round
-- that waits ends the model's round: the handler awaits a notification and starts the next one.
use Prim.Native.Nat.{bit_and}
use velo_rift.Lock.{
  LockState, Acquired, granted, blocked, invalid, acquire_state, state_of, try_acquire,
}
use velo_rift.Lock.Safety.{state_of-try_acquire}
use velo_rift.Lock.Grants.{acquire_unchanged, granted-Held, Held}
use velo_rift.Lock.Requests.{granted_or_not}
use velo_rift.Lock.State.{holds}
use velo_rift.Prelude.{
  ℕ, ◌≡◌, ◌≢◌, ◌⊎◌, inl, inr, refl, ap, ◌∙◌, List, [], some, true, not, ◌==◌, if◌then◌else◌, arith,
  Bool-cases, ==_refl,
}
use velo_rift.Prelude.Assoc.{Eq, beq_refl}

abbrev pub lock_nb : ℕ
lock_nb = 4

pub data FlockReply : Type 0 where
  flock_ack would_block waits lock_failed : FlockReply

abbrev pub reply_to : Acquired → ℕ → FlockReply
reply_to granted op = flock_ack
reply_to blocked op = if not (bit_and op lock_nb == 0) then would_block else waits
reply_to invalid op = lock_failed

not_acked : (r : Acquired) (op : ℕ) → r ≢ granted → reply_to r op ≢ flock_ack
not_acked granted op n = absurd (n refl)
not_acked blocked op n = λ e. absurd (ground arith)
not_acked invalid op n = λ e. cc e

Held-holds :
    (s : LockState) (pid op : ℕ) → Held s pid op → holds (acquire_state s pid op).0 pid ≡ true
Held-holds s pid op (inl (ex, alone)) = ap (λ t. holds t pid) alone ∙ held_alone pid
  where
    held_alone : (pid : ℕ) → holds (record { exclusive = some pid; shared = [] }) pid ≡ true
    held_alone pid = rw (==_refl pid) refl
Held-holds s pid op (inr (sh, shares, free)) = ground (arith, shares)

module _ {K : Type 0} ⦃e : Eq K⦄ where
  unfoldable pub flock_round : List (K × LockState) → K → ℕ → ℕ → List (K × LockState) × FlockReply
  flock_round locks path pid op =
      let (locks', r) = try_acquire locks path pid op in (locks', reply_to r op)

  own_state :
      (locks : List (K × LockState)) (path : K) (pid op : ℕ)
      → state_of (try_acquire locks path pid op).0 path
        ≡ (acquire_state (state_of locks path) pid op).0
  own_state locks path pid op =
      state_of-try_acquire locks path path pid op ∙ rw (beq_refl path) refl

  kept_state :
      (locks : List (K × LockState)) (path other : K) (pid op : ℕ)
      → (acquire_state (state_of locks path) pid op).1 ≢ granted
      → state_of (try_acquire locks path pid op).0 other ≡ state_of locks other
  kept_state locks path other pid op n =
      state_of-try_acquire locks path other pid op ∙ elim (Bool-cases (e.beq path other)) [
        | inr f ↦ rw f refl
        | inl t ↦ rw t (
            acquire_unchanged (state_of locks path) pid op n
            ∙ ap (state_of locks) ((e.beq_iff path other).0 t))
      ]

  -- After an acknowledgement the requester holds the path. After any other reply every path's lock
  -- is as it was.
  pub flock_round-holds :
      (locks : List (K × LockState)) (path other : K) (pid op : ℕ)
      → (((flock_round locks path pid op).1 ≡ flock_ack)
          × (holds (state_of ((flock_round locks path pid op).0) path) pid ≡ true))
        ⊎ (((flock_round locks path pid op).1 ≢ flock_ack)
            × (state_of ((flock_round locks path pid op).0) other ≡ state_of locks other))
  unfolding flock_round try_acquire
  flock_round-holds locks path other pid op =
      let s = state_of locks path in
      elim (granted_or_not ((acquire_state s pid op).1)) [
        | inl g ↦ inl (
          ap (λ r. reply_to r op) g,
          ap (λ t. holds t pid) (own_state locks path pid op)
              ∙ Held-holds s pid op (granted-Held s pid op g),
        )
        | inr n ↦ inr (not_acked _ op n, unfold try_acquire in kept_state locks path other pid op n)
      ]
