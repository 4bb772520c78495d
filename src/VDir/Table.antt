-- ===== src/VDir/Table.antt =====
-- Probing the slots: `find_slot` and `lookup` of crates/vrift-vdird/src/vdir.rs.
use velo_rift.Prelude.{ℕ, ◌+◌, ◌%◌, List, Option, none, some, ◌||◌, ◌==◌, if◌then◌else◌, get_or}
use velo_rift.Prelude.Loop.{for_return}
use velo_rift.VDir.Types.{VDirEntry, default_entry, is_empty}

-- `entries()[slot]`
abbrev pub entry_at : List VDirEntry → ℕ → VDirEntry
entry_at slots slot = get_or slots slot default_entry

-- `(start + i) % capacity` for the hash's start slot
abbrev pub probe : ℕ → ℕ → ℕ → ℕ
probe capacity path_hash i = (path_hash % capacity + i) % capacity

-- the body of the loop of `find_slot`
abbrev pub claims : List VDirEntry → ℕ → ℕ → ℕ → Option ℕ
claims slots capacity path_hash i =
    let slot = probe capacity path_hash i in
    let entry = entry_at slots slot in
    if is_empty entry || entry.path_hash == path_hash then some slot else none

unfoldable pub find_slot : List VDirEntry → ℕ → ℕ → Option ℕ
find_slot slots capacity path_hash = for_return capacity 0 (claims slots capacity path_hash)

-- the body of the loop of `lookup`
abbrev pub answers : List VDirEntry → ℕ → ℕ → ℕ → Option (Option VDirEntry)
answers slots capacity path_hash i =
    let entry = entry_at slots (probe capacity path_hash i) in
    if is_empty entry
    then some none
    else if entry.path_hash == path_hash
    then some (some entry)
    else none

-- what a function returns whose loop may return early, and else returns `None`
abbrev pub or_none {ℓ} : {A : Type ℓ} → Option (Option A) → Option A
or_none none = none
or_none (some r) = r

unfoldable pub lookup_slots : List VDirEntry → ℕ → ℕ → Option VDirEntry
lookup_slots slots capacity path_hash =
    or_none (for_return capacity 0 (answers slots capacity path_hash))
