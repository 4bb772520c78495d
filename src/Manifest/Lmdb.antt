-- ===== src/Manifest/Lmdb.antt =====
-- `LmdbManifest` of crates/vrift-manifest/src/lmdb.rs: a layer of changes over an LMDB database.
-- The maps of the crates dashmap and heed are parameters. A read of an open database is taken to
-- succeed. A write may fail, and a transaction that is not committed changes nothing.
pub mod View
pub mod Commit
pub mod Iter
use velo_rift.Manifest.Types.{
  AssetTier, tier1_immutable, tier2_mutable, VnodeEntry, ManifestEntry, normalize_vfs_path, is_dir,
}
use velo_rift.Prelude.{
  ℕ, ◌+◌, ◌-◌, ◌≡◌, List, [], ◌∷◌, ◌++◌, Option, none, some, Bool, true, false, not, ◌&&◌, ◌||◌,
  ◌==◌, if◌then◌else◌, length,
}
use velo_rift.Prelude.Assoc.{Eq, lookup, IsMap}

-- `DashMap`, of which the code uses these operations
pub record DashMap (K V : Type 0) ⦃e : Eq K⦄ : Type 1 where
  pub Map : Type 0
  pub empty : Map
  pub get : K → Map → Option V
  pub insert : K → V → Map → Map
  pub remove : K → Map → Map
  pub entries : Map → List (K × V)
  pub get-empty : (k : K) → get k empty ≡ none
  pub get-insert :
      (k j : K) (v : V) (m : Map) → get j (insert k v m) ≡ (if e.beq k j then some v else get j m)
  pub get-remove : (k j : K) (m : Map) → get j (remove k m) ≡ (if e.beq k j then none else get j m)
  pub entries-IsMap : (m : Map) → IsMap (entries m)
  pub lookup-entries : (k : K) (m : Map) → lookup k (entries m) ≡ get k m

abbrev pub new_at : {V : Type 0} → Option V → ℕ
new_at none = 1
new_at (some _) = 0

abbrev pub held_at : {V : Type 0} → Option V → ℕ
held_at none = 0
held_at (some _) = 1

abbrev pub is_nil : {A : Type 0} → List A → Bool
is_nil [] = true
is_nil (_ ∷ _) = false

-- `heed::Database` inside one write transaction
pub record Database (K V : Type 0) ⦃e : Eq K⦄ : Type 1 where
  pub Db : Type 0
  pub get : K → Db → Option V
  pub put : K → V → Db → Option Db
  pub delete : K → Db → Option Db
  pub len : Db → ℕ
  pub entries : Db → List (K × V)
  pub entries-IsMap : (db : Db) → IsMap (entries db)
  pub lookup-entries : (k : K) (db : Db) → lookup k (entries db) ≡ get k db
  pub get-put :
      (k j : K) (v : V) (db db' : Db)
      → put k v db ≡ some db'
      → get j db' ≡ (if e.beq k j then some v else get j db)
  pub get-delete :
      (k j : K) (db db' : Db)
      → delete k db ≡ some db'
      → get j db' ≡ (if e.beq k j then none else get j db)
  pub len-put :
      (k : K) (v : V) (db db' : Db) → put k v db ≡ some db' → len db' ≡ len db + new_at (get k db)
  pub len-delete :
      (k : K) (db db' : Db) → delete k db ≡ some db' → len db' + held_at (get k db) ≡ len db

abbrev pub made_stale : ManifestEntry → ManifestEntry
made_stale entry = record { vnode = entry.vnode; tier = entry.tier; stale = true }

pub data DeltaEntry : Type 0 where
  modified : ManifestEntry → DeltaEntry
  deleted : DeltaEntry

-- what `get_by_hash` makes of the answers of the two layers
abbrev pub overlay : Option DeltaEntry → Option ManifestEntry → Option ManifestEntry
overlay none below = below
overlay (some (modified entry)) below = some entry
overlay (some deleted) below = none

-- the code of other crates that the manifest stands on, `hash` for `blake3::hash`
pub record Backend (PathHash : Type 0) ⦃e : Eq PathHash⦄ : Type 1 where
  pub hash : List ℕ → PathHash
  pub delta_map : DashMap PathHash DeltaEntry
  pub path_map : DashMap PathHash (List ℕ)
  pub entries_type : Database PathHash ManifestEntry
  pub paths_type : Database PathHash (List ℕ)

module _ {PathHash : Type 0} ⦃e : Eq PathHash⦄ (b : Backend PathHash) where
  pub record LmdbManifest : Type 0 where
    pub entries_db : b.entries_type.Db
    pub paths_db : b.paths_type.Db
    pub delta : b.delta_map.Map
    pub delta_paths : b.path_map.Map

  -- `blake3::hash` of the normalized path
  unfoldable pub compute_path_hash : List ℕ → PathHash
  compute_path_hash path = b.hash (normalize_vfs_path path)

  unfoldable pub insert : List ℕ → VnodeEntry → AssetTier → LmdbManifest → LmdbManifest
  insert path vnode tier m =
      let h = compute_path_hash path in
      let entry : ManifestEntry = record { vnode = vnode; tier = tier; stale = false } in
      record {
        entries_db = m.entries_db;
        paths_db = m.paths_db;
        delta = b.delta_map.insert h (modified entry) m.delta;
        delta_paths = b.path_map.insert h path m.delta_paths;
      }

  unfoldable pub get_by_hash : PathHash → LmdbManifest → Option ManifestEntry
  get_by_hash h m = overlay (b.delta_map.get h m.delta) (b.entries_type.get h m.entries_db)

  unfoldable pub get : List ℕ → LmdbManifest → Option ManifestEntry
  get path m = get_by_hash (compute_path_hash path) m

  unfoldable pub get_path_by_hash : PathHash → LmdbManifest → Option (List ℕ)
  get_path_by_hash h m = elim (b.path_map.get h m.delta_paths) [
    | some path ↦ some path
    | none ↦ b.paths_type.get h m.paths_db
  ]

  unfoldable pub with_delta : PathHash → DeltaEntry → LmdbManifest → LmdbManifest
  with_delta h d m = record {
    entries_db = m.entries_db;
    paths_db = m.paths_db;
    delta = b.delta_map.insert h d m.delta;
    delta_paths = m.delta_paths;
  }

  unfoldable pub with_path : PathHash → Option (List ℕ) → LmdbManifest → LmdbManifest
  with_path h none m = m
  with_path h (some path) m = record {
    entries_db = m.entries_db;
    paths_db = m.paths_db;
    delta = m.delta;
    delta_paths = b.path_map.insert h path m.delta_paths;
  }

  unfoldable pub mark_stale : List ℕ → LmdbManifest → LmdbManifest
  mark_stale path m =
      let h = compute_path_hash path in
      elim (b.delta_map.get h m.delta) [
        | some d ↦ elim d [
          | modified entry ↦ with_delta h (modified (made_stale entry)) m
          | deleted ↦ m
        ]
        | none ↦ elim (get_by_hash h m) [
          | some entry ↦
              let m' = with_delta h (modified (made_stale entry)) m in
              with_path h (get_path_by_hash h m') m'
          | none ↦ m
        ]
      ]

  unfoldable pub remove : List ℕ → LmdbManifest → LmdbManifest
  remove path m =
      let h = compute_path_hash path in
      record {
        entries_db = m.entries_db;
        paths_db = m.paths_db;
        delta = b.delta_map.insert h deleted m.delta;
        delta_paths = b.path_map.remove h m.delta_paths;
      }

  -- one round of the loop of `commit`
  unfoldable pub apply_delta :
      b.path_map.Map
      → PathHash
      → DeltaEntry
      → b.entries_type.Db × b.paths_type.Db
      → Option (b.entries_type.Db × b.paths_type.Db)
  apply_delta known h (modified entry) (entries, paths) =
      elim (b.entries_type.put h entry entries) [
        | none ↦ none
        | some entries' ↦ elim (b.path_map.get h known) [
          | none ↦ some (entries', paths)
          | some path ↦ elim (b.paths_type.put h path paths) [
            | none ↦ none
            | some paths' ↦ some (entries', paths')
          ]
        ]
      ]
  apply_delta known h deleted (entries, paths) = elim (b.entries_type.delete h entries) [
    | none ↦ none
    | some entries' ↦ elim (b.paths_type.delete h paths) [
      | none ↦ none
      | some paths' ↦ some (entries', paths')
    ]
  ]

  unfoldable pub apply_all :
      b.path_map.Map
      → List (PathHash × DeltaEntry)
      → b.entries_type.Db × b.paths_type.Db
      → Option (b.entries_type.Db × b.paths_type.Db)
  apply_all known [] dbs = some dbs
  apply_all known ((h, d) ∷ rest) dbs = elim (apply_delta known h d dbs) [
    | none ↦ none
    | some dbs' ↦ apply_all known rest dbs'
  ]

  -- `none` is the error of LMDB, and the manifest stays as it was. `synced` is whether the
  -- transaction's own commit succeeds.
  unfoldable pub commit : Bool → LmdbManifest → Option LmdbManifest
  commit synced m =
      if is_nil (b.delta_map.entries m.delta)
      then some m
      else elim (apply_all m.delta_paths (b.delta_map.entries m.delta) (m.entries_db, m.paths_db)) [
        | none ↦ none
        | some dbs ↦
            if synced
            then some (record {
              entries_db = dbs.0;
              paths_db = dbs.1;
              delta = b.delta_map.empty;
              delta_paths = b.path_map.empty;
            })
            else none
      ]

  -- the counts `delta_added` and `delta_removed` of `len`
  unfoldable pub added : b.entries_type.Db → List (PathHash × DeltaEntry) → ℕ
  added db [] = 0
  added db ((h, modified _) ∷ rest) = new_at (b.entries_type.get h db) + added db rest
  added db ((h, deleted) ∷ rest) = added db rest

  unfoldable pub removed : b.entries_type.Db → List (PathHash × DeltaEntry) → ℕ
  removed db [] = 0
  removed db ((h, modified _) ∷ rest) = removed db rest
  removed db ((h, deleted) ∷ rest) = held_at (b.entries_type.get h db) + removed db rest

  unfoldable pub len : LmdbManifest → ℕ
  len m =
      let changes = b.delta_map.entries m.delta in
      b.entries_type.len m.entries_db + added m.entries_db changes - removed m.entries_db changes

  unfoldable pub is_empty : LmdbManifest → Bool
  is_empty m = len m == 0
