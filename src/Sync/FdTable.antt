-- ===== src/Sync/FdTable.antt =====
-- `FdTable` of crates/vrift-inception-layer/src/sync/fd_table.rs, run by one thread: two tiers of
-- pointers, of which the second are allocated at their first use. `none` is the null pointer.
pub mod Laws
use velo_rift.Prelude.{
  ℕ, ◌*◌, ◌/◌, ◌%◌, List, [], ◌∷◌, ◌++◌, Option, none, some, if◌then◌else◌, leb, get_or, set,
  replicate,
}

abbrev pub tier1_size : ℕ
tier1_size = 256

abbrev pub tier2_size : ℕ
tier2_size = 1024

abbrev pub max_fds : ℕ
max_fds = tier1_size * tier2_size

abbrev pub Tier2 : Type 0 → Type 0
Tier2 FdEntry = List (Option FdEntry)

abbrev pub FdTable : Type 0 → Type 0
FdTable FdEntry = List (Option (Tier2 FdEntry))

unfoldable pub new : {FdEntry : Type 0} → FdTable FdEntry
new = replicate tier1_size none

-- the second tier that is there, or the one that is allocated
abbrev pub tier2_or_new : {FdEntry : Type 0} → Option (Tier2 FdEntry) → Tier2 FdEntry
tier2_or_new none = replicate tier2_size none
tier2_or_new (some tier2) = tier2

-- the table after `set`, and the entry that it returns
unfoldable pub set_entry :
    {FdEntry : Type 0} → ℕ → Option FdEntry → FdTable FdEntry → FdTable FdEntry × Option FdEntry
set_entry fd entry table =
    if leb max_fds fd
    then (table, none)
    else let i1 = fd / tier2_size in
      let i2 = fd % tier2_size in
      let tier2 = tier2_or_new (get_or table i1 none) in
      (set table i1 (some (set tier2 i2 entry)), get_or tier2 i2 none)

abbrev pub entry_in : {FdEntry : Type 0} → Option (Tier2 FdEntry) → ℕ → Option FdEntry
entry_in none i2 = none
entry_in (some tier2) i2 = get_or tier2 i2 none

unfoldable pub get_entry : {FdEntry : Type 0} → ℕ → FdTable FdEntry → Option FdEntry
get_entry fd table =
    if leb max_fds fd
    then none
    else entry_in (get_or table (fd / tier2_size) none) (fd % tier2_size)

unfoldable pub remove_entry :
    {FdEntry : Type 0} → ℕ → FdTable FdEntry → FdTable FdEntry × Option FdEntry
remove_entry fd table = set_entry fd none table

-- the entries that `for_each` visits in one tier, and in the table
unfoldable pub present : {A : Type 0} → List (Option A) → List A
present [] = []
present (none ∷ rest) = present rest
present (some a ∷ rest) = a ∷ present rest

unfoldable pub visited : {FdEntry : Type 0} → FdTable FdEntry → List FdEntry
unfolding present
visited [] = []
visited (none ∷ rest) = visited rest
visited (some tier2 ∷ rest) = present tier2 ++ visited rest
