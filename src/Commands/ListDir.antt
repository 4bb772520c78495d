-- ===== src/Commands/ListDir.antt =====
-- `handle_manifest_list_dir` of crates/vrift-vdird/src/commands.rs, over the rows that the
-- manifest's `iter` returns.
pub mod Child
pub mod Names
use Prim.Native.Nat.{bit_and}
use velo_rift.Ipc.Messages.{DirEntry}
use velo_rift.Manifest.Lmdb.Iter.{Row}
use velo_rift.Manifest.Types.{slash, ends_with_slash}
use velo_rift.Prelude.Text.{Text, text_beq, strip_prefix}
use velo_rift.Prelude.{
  ℕ, List, [], ◌∷◌, ◌++◌, Option, none, some, Bool, true, false, not, ◌||◌, ◌==◌, if◌then◌else◌,
}
use velo_rift.VDir.Types.{flag_dir}

unfoldable pub list_prefix : Text → Text
list_prefix path =
    if text_beq path [] || text_beq path (slash ∷ [])
    then []
    else if ends_with_slash path
    then path
    else path ++ (slash ∷ [])

-- the text before the first slash, and whether there is one
unfoldable pub first_component : Text → Text × Bool
first_component [] = ([], false)
first_component (c ∷ text) =
    let (name, deeper) = first_component text in
    if c == slash then ([], true) else (c ∷ name, deeper)

-- `HashSet::contains` over the names seen so far
unfoldable pub seen_name : Text → List Text → Bool
seen_name name [] = false
seen_name name (known ∷ seen) = let rest = seen_name name seen in text_beq known name || rest

-- what one row adds to the listing, unless its name was seen
unfoldable pub child_of : Text → Row → Option DirEntry
child_of prefix (path, entry) = elim (strip_prefix prefix path) [
  | none ↦ none
  | some relative ↦
      let (name, deeper) = first_component relative in
      if deeper
      then some (record { name = name; is_dir = true })
      else if text_beq name []
      then none
      else some (record { name = name; is_dir = not (bit_and entry.vnode.flags flag_dir == 0) })
]

-- the loop, with the names that it has seen
unfoldable pub list_from : Text → List Text → List Row → List DirEntry
list_from prefix seen [] = []
list_from prefix seen (row ∷ rows) = elim (child_of prefix row) [
  | none ↦ list_from prefix seen rows
  | some child ↦
      let skipped = list_from prefix seen rows in
      let pushed = list_from prefix (child.name ∷ seen) rows in
      if seen_name child.name seen then skipped else child ∷ pushed
]

unfoldable pub list_dir : Text → List Row → List DirEntry
list_dir path rows = list_from (list_prefix path) [] rows
