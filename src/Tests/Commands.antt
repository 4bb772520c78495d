-- ===== src/Tests/Commands.antt =====
-- A daemon with an empty table of changes over a manifest of one file.
use velo_rift.Commands.{CommandHandler, handle_manifest_upsert, handle_manifest_rename}
use velo_rift.Commands.Commit.{Reingests, handle_reingest-sees}
use velo_rift.Commands.Dispatch.{World, handle_request}
use velo_rift.Commands.Keeps.{Keeps, handle_request-Keeps}
use velo_rift.Commands.ListDir.{
  list_prefix, list_dir, list_from, child_of, first_component, seen_name,
}
use velo_rift.Commands.ListDir.Child.{IsListed}
use velo_rift.Commands.ListDir.Names.{Distinct, names, HasListed, list_dir-children}
use velo_rift.Commands.Reingest.{StoreAnswers, given, Metadata, handle_reingest}
use velo_rift.Commands.Rename.{Renames, handle_manifest_rename-Renames}
use velo_rift.Commands.Requests.{handle_manifest_upsert-Puts}
use velo_rift.Commands.Views.{visible, Puts}
use velo_rift.Ipc.Messages
use velo_rift.Ipc.Messages.{manifest_ack, ingest_ack}
use velo_rift.Manifest.Lmdb.{get, get_by_hash, insert, compute_path_hash}
use velo_rift.Manifest.Lmdb.Iter.{Row}
use velo_rift.Manifest.Types.{tier2_mutable, normalize_vfs_path, replace_doubles}
use velo_rift.Prelude.Assoc.{nat_eq, lookup as find_pair, insert as put_pair}
use velo_rift.Prelude.Loop.{for_return}
use velo_rift.Prelude.Text.{Text, codes, text_beq, strip_prefix}
use velo_rift.Prelude.{
  inl, inr, ◌≡◌, ◌≢◌, ◌↔◌, refl, List, [], ◌∷◌, none, some, true, false, All, Any, replicate, arith,
}
use velo_rift.Tests.Manifest.{backend, one_file, name_ab, some_file}
use velo_rift.Tests.VDir.{checksum, four_slots, four_slots-IsValid, working}
use velo_rift.Tracker.{fnv1a_hash, fnv1a_from}
use velo_rift.VDir.Store.{Fault}
use velo_rift.VDir.Table.{lookup_slots}

abbrev text_of : Fault → Text
text_of f = codes "fault"

abbrev daemon : CommandHandler backend
daemon = record {
  config = record {
    project_id = codes "id";
    vdir_path = codes "/v";
    socket_path = codes "/s";
    cas_path = codes "/c";
  };
  vdir = four_slots;
  manifest = one_file;
}

abbrev name_c : Text
name_c = codes "c"

name_c-hash : fnv1a_hash name_c ≢ 0
unfolding fnv1a_hash fnv1a_from
name_c-hash e = absurd (ground arith)

name_ab-hash : fnv1a_hash name_ab ≢ 0
unfolding fnv1a_hash fnv1a_from
name_ab-hash e = absurd (ground arith)

name_ab-visible : visible backend daemon name_ab ≡ some some_file
unfolding fnv1a_hash fnv1a_from lookup_slots for_return replicate
name_ab-visible =
    unfold get get_by_hash insert compute_path_hash normalize_vfs_path replace_doubles find_pair
      put_pair in
    refl

handle_manifest_upsert-Puts_example :
    Puts backend working text_of
      (manifest_ack (some some_file))
      (fnv1a_hash name_c)
      some_file
      daemon
      (handle_manifest_upsert backend checksum text_of working name_c some_file daemon)
handle_manifest_upsert-Puts_example =
    handle_manifest_upsert-Puts backend checksum text_of working name_c some_file daemon
      four_slots-IsValid name_c-hash (omega arith)

handle_manifest_rename-Renames_example :
    Renames backend working text_of
      (fnv1a_hash name_ab)
      (fnv1a_hash name_c)
      some_file
      daemon
      (handle_manifest_rename backend checksum text_of working name_ab name_c daemon)
handle_manifest_rename-Renames_example =
    handle_manifest_rename-Renames backend checksum text_of working name_ab name_c daemon some_file
      four_slots-IsValid name_c-hash (omega arith) name_ab-visible

abbrev meta : Metadata
meta = record { len = 3; mtime = 4; mtime_nsec = 5; mode = 0x1a4; is_dir = false }

abbrev store : StoreAnswers
store = record { opened = given tt; stored = given (1 ∷ []); blob = some (given meta) }

abbrev world : World
world = record {
  io = working;
  store = store;
  files = 0;
  results = [];
  saved = none;
  duration_ms = 0;
}

handle_request-Keeps_example :
    Keeps backend daemon
      (handle_request backend checksum text_of
        (codes "1")
        world
        (Messages.manifest_rename name_ab name_c)
        daemon).0
handle_request-Keeps_example =
    handle_request-Keeps backend checksum text_of (codes "1") world
      (Messages.manifest_rename name_ab name_c) daemon four_slots-IsValid name_c-hash (omega arith)

handle_reingest-sees_example :
    Reingests backend text_of working store.opened store.stored store.blob name_c daemon
      (handle_reingest backend checksum text_of working store name_c daemon)
handle_reingest-sees_example =
    handle_reingest-sees backend text_of checksum working store name_c daemon four_slots-IsValid
      name_c-hash (omega arith)

abbrev row_of : Text → Row
row_of path = (path, record { vnode = some_file; tier = tier2_mutable; stale = false })

abbrev three_rows : List Row
three_rows = row_of (codes "src/a") ∷ row_of (codes "src/d/b") ∷ row_of (codes "src/d/c") ∷ []

list_dir-children_example :
    let out = list_dir (codes "src") three_rows in
    let prefix = codes "src/" in
    Distinct out
    × All (λ c. Any (λ row. IsListed prefix row c) three_rows) out
    × ((name : Text) → (seen_name name (names out) ≡ true) ↔ Any (HasListed prefix name) three_rows)
list_dir-children_example =
    list_dir-children (codes "src") (codes "src/") three_rows
      (inr (codes "src", λ e. absurd (cc), inl (refl, refl), refl))

-- the root of absolute paths has the entry without a name, and no other
root_nameless :
    list_dir (codes "/") (row_of (codes "/a") ∷ row_of (codes "/b") ∷ [])
    ≡ record { name = []; is_dir = true } ∷ []
unfolding list_dir list_prefix list_from child_of first_component seen_name text_beq strip_prefix
root_nameless = refl
