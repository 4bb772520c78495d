-- ===== src/Tests/Manifest.antt =====
-- A manifest over association lists that hashes a path to itself.
use velo_rift.Manifest.Lmdb.{
  DashMap, Database, Backend, DeltaEntry, LmdbManifest, compute_path_hash, insert, get, apply_all,
  apply_delta, mark_stale, remove, commit, len, new_at, held_at,
}
use velo_rift.Manifest.Lmdb.Commit.{commit-get}
use velo_rift.Manifest.Lmdb.Iter.{iter, AllShown, iter-Shown}
use velo_rift.Manifest.Lmdb.View.{as_stale, get_updated}
use velo_rift.Manifest.Types.{tier2_mutable, VnodeEntry, ManifestEntry, normalize_vfs_path}
use velo_rift.Prelude.Assoc.{
  nat_eq, lookup, insert as put_pair, remove as drop_pair, IsMap, lookup-insert, lookup-remove,
  insert-IsMap, remove-IsMap, length-insert, length-remove,
}
use velo_rift.Prelude.{
  ℕ, ◌+◌, ◌≡◌, refl, sym, ap, ◌∙◌, List, [], ◌∷◌, Option, none, some, true, false, if◌then◌else◌,
  length,
}

abbrev pub Pairs : Type 0 → Type 0
Pairs V = (m : List (ℕ × V)) × IsMap m

pub lookup-nil : {V : Type 0} (k : ℕ) → lookup {V = V} k [] ≡ none
unfolding lookup
lookup-nil k = refl

abbrev pub pair_map : (V : Type 0) → DashMap ℕ V
pair_map V = record {
  Map = Pairs V;
  empty = ([], tt);
  get = λ k m. lookup k m.0;
  insert = λ k v m. (put_pair k v m.0, insert-IsMap k v m.0 m.1);
  remove = λ k m. (drop_pair k m.0, remove-IsMap k m.0 m.1);
  entries = λ m. m.0;
  get-empty = lookup-nil;
  get-insert = λ k j v m. lookup-insert k j v m.0;
  get-remove = λ k j m. lookup-remove k j m.0;
  entries-IsMap = λ m. m.1;
  lookup-entries = λ k m. refl;
}

abbrev pub or_pairs : {V : Type 0} → Pairs V → Option (Pairs V) → Pairs V
or_pairs a none = a
or_pairs a (some b) = b

pub list_same : {V : Type 0} (a b : Pairs V) → some a ≡ some b → b.0 ≡ a.0
list_same a b e = sym (ap (λ o. (or_pairs a o).0) e)

pub new_at_elim : {V : Type 0} (o : Option V) → elim o [ none ↦ 1 | some _ ↦ 0 ] ≡ new_at o
new_at_elim none = refl
new_at_elim (some v) = refl

pub held_at_elim : {V : Type 0} (o : Option V) → elim o [ none ↦ 0 | some _ ↦ 1 ] ≡ held_at o
held_at_elim none = refl
held_at_elim (some v) = refl

abbrev pub pair_database : (V : Type 0) → Database ℕ V
pair_database V = record {
  Db = Pairs V;
  get = λ k m. lookup k m.0;
  put = λ k v m. some (put_pair k v m.0, insert-IsMap k v m.0 m.1);
  delete = λ k m. some (drop_pair k m.0, remove-IsMap k m.0 m.1);
  len = λ m. length m.0;
  entries = λ m. m.0;
  entries-IsMap = λ m. m.1;
  lookup-entries = λ k m. refl;
  get-put = λ k j v db db' e. ap (lookup j) (list_same _ db' e) ∙ lookup-insert k j v db.0;
  get-delete = λ k j db db' e. ap (lookup j) (list_same _ db' e) ∙ lookup-remove k j db.0;
  len-put = λ k v db db' e.
      ap length (list_same _ db' e)
      ∙ length-insert k v db.0
      ∙ ap (λ n. length db.0 + n) (new_at_elim (lookup k db.0));
  len-delete = λ k db db' e. rw (list_same _ db' e) (
      ap (λ n. length (drop_pair k db.0) + n) (sym (held_at_elim (lookup k db.0)))
      ∙ length-remove k db.0 db.1);
}

-- the sum of the bytes, in place of a hash
abbrev pub sum_of : List ℕ → ℕ
sum_of [] = 0
sum_of (b ∷ path) = b + sum_of path

abbrev pub backend : Backend ℕ
backend = record {
  hash = sum_of;
  delta_map = pair_map DeltaEntry;
  path_map = pair_map (List ℕ);
  entries_type = pair_database ManifestEntry;
  paths_type = pair_database (List ℕ);
}

abbrev pub blank : LmdbManifest backend
blank = record {
  entries_db = ([], tt);
  paths_db = ([], tt);
  delta = ([], tt);
  delta_paths = ([], tt);
}

-- the name `a/b`
abbrev pub name_ab : List ℕ
name_ab = 0x61 ∷ 0x2f ∷ 0x62 ∷ []

abbrev pub some_file : VnodeEntry
some_file = record { content_hash = 1 ∷ []; size = 3; mtime = 4; mode = 0x1a4; flags = 0 }

abbrev pub one_file : LmdbManifest backend
one_file = insert backend name_ab some_file tier2_mutable blank

get_updated_example :
    (get backend name_ab one_file ≡ (
      if nat_eq.beq (compute_path_hash backend name_ab) (compute_path_hash backend name_ab)
      then some (record { vnode = some_file; tier = tier2_mutable; stale = false })
      else get backend name_ab blank))
    × (get backend name_ab (remove backend name_ab blank) ≡ (
        if nat_eq.beq (compute_path_hash backend name_ab) (compute_path_hash backend name_ab)
        then none
        else get backend name_ab blank))
    × (get backend name_ab (mark_stale backend name_ab blank) ≡ (
        if nat_eq.beq (compute_path_hash backend name_ab) (compute_path_hash backend name_ab)
        then as_stale (get backend name_ab blank)
        else get backend name_ab blank))
get_updated_example = get_updated backend blank name_ab name_ab some_file tier2_mutable

abbrev or_blank : Option (LmdbManifest backend) → LmdbManifest backend
or_blank none = blank
or_blank (some m) = m

abbrev committed : LmdbManifest backend
committed = or_blank (commit backend true one_file)

one_file_commits : commit backend true one_file ≡ some committed
unfolding lookup put_pair normalize_vfs_path
one_file_commits = unfold commit apply_all apply_delta insert compute_path_hash in refl

commit-get_example :
    (get backend name_ab committed ≡ get backend name_ab one_file)
    × (len backend committed ≡ len backend one_file)
    × ((pair_map DeltaEntry).get (compute_path_hash backend name_ab) committed.delta ≡ none)
commit-get_example = commit-get backend true one_file committed name_ab one_file_commits

iter-Shown_example : AllShown backend one_file (iter backend one_file)
iter-Shown_example = iter-Shown backend one_file
