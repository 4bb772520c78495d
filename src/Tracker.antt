-- ===== src/Tracker.antt =====
-- The tracker of files that are open for writing: `DirtyTracker` of
-- crates/vrift-inception-layer/src/state/mod.rs, run by one thread. A slot is the path's hash, 0
-- where it is empty, and `tombstone` where a path was cleared.
pub mod Walk
pub mod Laws
pub mod Marks
pub mod Paths
use Prim.Native.Nat.{bit_xor}
use velo_rift.Prelude.Loop.{for_return}
use velo_rift.Prelude.{
  ℕ, ◌+◌, ◌-◌, ◌*◌, ◌%◌, ◌^◌, List, [], ◌∷◌, Option, none, some, Bool, true, false, not, ◌&&◌, ◌||◌,
  ◌==◌, if◌then◌else◌, get_or, set, replicate, count_if,
}
use velo_rift.VDir.Table.{probe}

abbrev pub dirty_tracker_size : ℕ
dirty_tracker_size = 1024

-- `u64::MAX`
abbrev pub tombstone : ℕ
tombstone = 2 ^ 64 - 1

abbrev pub fnv_offset : ℕ
fnv_offset = 0xcbf29ce484222325

abbrev pub fnv_prime : ℕ
fnv_prime = 0x100000001b3

-- the loop of `fnv1a_hash` over the rest of the path's bytes
unfoldable pub fnv1a_from : ℕ → List ℕ → ℕ
fnv1a_from hash [] = hash
fnv1a_from hash (byte ∷ bytes) = fnv1a_from (bit_xor hash byte * fnv_prime % 2 ^ 64) bytes

unfoldable pub fnv1a_hash : List ℕ → ℕ
fnv1a_hash bytes = fnv1a_from fnv_offset bytes

abbrev pub slot_at : List ℕ → ℕ → ℕ
slot_at slots slot = get_or slots slot 0

-- `DirtyTracker::new`
unfoldable pub new : List ℕ
new = replicate dirty_tracker_size 0

-- The rounds of the loops: the start slot is the hash modulo the number `n` of slots. Each loop
-- ends at an empty slot or at the hash.
abbrev pub mark_round : ℕ → List ℕ → ℕ → ℕ → Option (List ℕ)
mark_round n slots hash i =
    let slot = probe n hash i in
    let current = slot_at slots slot in
    if current == 0
    then some (set slots slot hash)
    else if current == hash
    then some slots
    else none

unfoldable pub mark_hash : ℕ → List ℕ → ℕ → List ℕ × Bool
mark_hash n slots hash =
    if hash == 0 then (slots, false) else elim (for_return n 0 (mark_round n slots hash)) [
      | some slots' ↦ (slots', true)
      | none ↦ (slots, false)
    ]

abbrev pub clear_round : ℕ → List ℕ → ℕ → ℕ → Option (List ℕ)
clear_round n slots hash i =
    let slot = probe n hash i in
    let current = slot_at slots slot in
    if current == 0
    then some slots
    else if current == hash
    then some (set slots slot tombstone)
    else none

unfoldable pub clear_hash : ℕ → List ℕ → ℕ → List ℕ
clear_hash n slots hash =
    if hash == 0
    then slots
    else elim (for_return n 0 (clear_round n slots hash)) [ some slots' ↦ slots' | none ↦ slots ]

abbrev pub dirty_round : ℕ → List ℕ → ℕ → ℕ → Option Bool
dirty_round n slots hash i =
    let current = slot_at slots (probe n hash i) in
    if current == 0 then some false else if current == hash then some true else none

unfoldable pub is_dirty_hash : ℕ → List ℕ → ℕ → Bool
is_dirty_hash n slots hash =
    if hash == 0
    then false
    else elim (for_return n 0 (dirty_round n slots hash)) [ some b ↦ b | none ↦ false ]

unfoldable pub mark_dirty : List ℕ → List ℕ → List ℕ × Bool
mark_dirty slots path = mark_hash dirty_tracker_size slots (fnv1a_hash path)

unfoldable pub clear_dirty : List ℕ → List ℕ → List ℕ
clear_dirty slots path = clear_hash dirty_tracker_size slots (fnv1a_hash path)

unfoldable pub is_dirty : List ℕ → List ℕ → Bool
is_dirty slots path = is_dirty_hash dirty_tracker_size slots (fnv1a_hash path)

unfoldable pub count : List ℕ → ℕ
count slots = count_if (λ v. not (v == 0) && not (v == tombstone)) slots
