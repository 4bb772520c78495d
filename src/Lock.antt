-- ===== src/Lock.antt =====
-- The lock manager of the daemon, for `flock` on virtual paths (crates/vrift-daemon/src/main.rs).
pub mod State
pub mod Grants
pub mod Requests
pub mod Safety
pub mod Handler
use Prim.Native.Nat.{bit_and}
use velo_rift.Prelude.{
  ℕ, ◌<◌, List, [], ◌∷◌, Option, none, some, Bool, true, false, not, ◌&&◌, ◌||◌, ◌==◌, ltb,
  if◌then◌else◌, length,
}
use velo_rift.Prelude.Assoc.{Eq, lookup, insert}

-- `LockState`; `shared` is the hash set, in some order
pub record LockState : Type 0 where
  pub exclusive : Option ℕ
  pub shared : List ℕ

abbrev pub lock_sh : ℕ
lock_sh = 1

abbrev pub lock_ex : ℕ
lock_ex = 2

-- `Ok(true)`, `Ok(false)` and `Err` of `try_acquire`
pub data Acquired : Type 0 where
  granted blocked invalid : Acquired

unfoldable pub contains : List ℕ → ℕ → Bool
contains [] p = false
contains (q ∷ qs) p = q == p || contains qs p

unfoldable pub insert_pid : ℕ → List ℕ → List ℕ
unfolding contains
insert_pid p qs = if contains qs p then qs else p ∷ qs

unfoldable pub remove_pid : ℕ → List ℕ → List ℕ
remove_pid p [] = []
remove_pid p (q ∷ qs) = let rest = remove_pid p qs in if q == p then rest else q ∷ rest

-- `exclusive.is_some() && exclusive != Some(pid)`
abbrev pub held_by_other : Option ℕ → ℕ → Bool
held_by_other none p = false
held_by_other (some q) p = not (q == p)

-- `exclusive == Some(pid)`
abbrev pub held_by : Option ℕ → ℕ → Bool
held_by none p = false
held_by (some q) p = q == p

abbrev pub new_state : LockState
new_state = record { exclusive = none; shared = [] }

abbrev pub or_new : Option LockState → LockState
or_new none = new_state
or_new (some s) = s

abbrev pub nonempty : List ℕ → Bool
nonempty [] = false
nonempty (p ∷ ps) = true

-- the part of `try_acquire` that works on the path's state
unfoldable pub acquire_state : LockState → ℕ → ℕ → LockState × Acquired
acquire_state s pid op =
    let is_ex = not (bit_and op lock_ex == 0) in
    let is_sh = not (bit_and op lock_sh == 0) in
    if is_ex
    then (if held_by_other s.exclusive pid
        then (s, blocked)
        else if nonempty s.shared && (ltb 1 (length s.shared) || not (contains s.shared pid))
        then (s, blocked)
        else (record { exclusive = some pid; shared = remove_pid pid s.shared }, granted))
    else if is_sh
    then (if held_by_other s.exclusive pid then (s, blocked) else (
      record {
        exclusive = if held_by s.exclusive pid then none else s.exclusive;
        shared = insert_pid pid s.shared;
      },
      granted,
    ))
    else (s, invalid)

unfoldable pub release_state : LockState → ℕ → LockState
release_state s pid = record {
  exclusive = if held_by s.exclusive pid then none else s.exclusive;
  shared = remove_pid pid s.shared;
}

-- whether `release` notifies the waiters of the path
abbrev pub wakes : LockState → Bool
wakes s = elim s.exclusive [ none ↦ true | some _ ↦ false ]

module _ {K : Type 0} ⦃e : Eq K⦄ where
  -- `entry(path).or_insert_with(…)`
  abbrev pub state_of : List (K × LockState) → K → LockState
  state_of locks path = or_new (lookup path locks)

  unfoldable pub try_acquire : List (K × LockState) → K → ℕ → ℕ → List (K × LockState) × Acquired
  try_acquire locks path pid op =
      let (s, r) = acquire_state (state_of locks path) pid op in (insert path s locks, r)

  -- the table, and whether the path's waiters were notified
  unfoldable pub release : List (K × LockState) → K → ℕ → List (K × LockState) × Bool
  release locks path pid = elim (lookup path locks) [
    | none ↦ (locks, false)
    | some s ↦ let s' = release_state s pid in (insert path s' locks, wakes s')
  ]
