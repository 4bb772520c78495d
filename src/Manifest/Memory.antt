-- ===== src/Manifest/Memory.antt =====
-- `Manifest` of crates/vrift-manifest/src/lib.rs, in memory: two hash maps by the hash of the path.
-- `blake3::hash` is the parameter `hash`.
use velo_rift.Manifest.Types.{VnodeEntry, normalize_vfs_path}
use velo_rift.Prelude.Assoc.{
  Eq, lookup, insert as put_pair, remove as drop_pair, IsMap, lookup-insert, lookup-remove,
  insert-IsMap, remove-IsMap, length-insert,
}
use velo_rift.Prelude.{
  ℕ, ◌+◌, ◌≡◌, ◌∙◌, List, [], ◌∷◌, Option, none, some, Bool, true, false, ◌==◌, if◌then◌else◌,
  length, arith, refl, map,
}

pub record Manifest (PathHash : Type 0) : Type 0 where
  pub version : ℕ
  pub entries : List (PathHash × VnodeEntry)
  pub paths : List (PathHash × List ℕ)

unfoldable pub new : {PathHash : Type 0} → Manifest PathHash
new = record { version = 1; entries = []; paths = [] }

abbrev pub is_some : {A : Type 0} → Option A → Bool
is_some none = false
is_some (some a) = true

module _ {PathHash : Type 0} ⦃e : Eq PathHash⦄ (hash : List ℕ → PathHash) where
  abbrev pub key : List ℕ → PathHash
  key path = hash (normalize_vfs_path path)

  unfoldable pub insert : List ℕ → VnodeEntry → Manifest PathHash → Manifest PathHash
  insert path entry m = record {
    version = m.version;
    entries = put_pair (key path) entry m.entries;
    paths = put_pair (key path) (normalize_vfs_path path) m.paths;
  }

  unfoldable pub get : List ℕ → Manifest PathHash → Option VnodeEntry
  get path m = lookup (key path) m.entries

  unfoldable pub get_by_hash : PathHash → Manifest PathHash → Option VnodeEntry
  get_by_hash h m = lookup h m.entries

  unfoldable pub contains : List ℕ → Manifest PathHash → Bool
  contains path m = is_some (lookup (key path) m.entries)

  -- the manifest, and the entry that `remove` returns
  unfoldable pub remove : List ℕ → Manifest PathHash → Manifest PathHash × Option VnodeEntry
  remove path m = (
    record {
      version = m.version;
      entries = drop_pair (key path) m.entries;
      paths = drop_pair (key path) m.paths;
    },
    lookup (key path) m.entries,
  )

  unfoldable pub len : Manifest PathHash → ℕ
  len m = length m.entries

  unfoldable pub is_empty : Manifest PathHash → Bool
  is_empty m = len m == 0

  -- the rounds of `iter`: a path whose hash has no entry is passed over
  unfoldable pub iter_from :
      List (PathHash × VnodeEntry) → List (PathHash × List ℕ) → List (List ℕ × VnodeEntry)
  iter_from entries [] = []
  iter_from entries ((h, path) ∷ rest) = elim (lookup h entries) [
    | none ↦ iter_from entries rest
    | some entry ↦ (path, entry) ∷ iter_from entries rest
  ]

  unfoldable pub iter : Manifest PathHash → List (List ℕ × VnodeEntry)
  iter m = iter_from m.entries m.paths

  unfoldable pub all_paths : Manifest PathHash → List (List ℕ)
  all_paths m = map (λ p. p.1) m.paths

  -- both maps hold a hash once at most, and the same hashes
  pub record IsManifest (m : Manifest PathHash) : Type 0 where
    pub entries_map : IsMap m.entries
    pub paths_map : IsMap m.paths
    pub same_keys : (h : PathHash) → is_some (lookup h m.entries) ≡ is_some (lookup h m.paths)

  -- Inserting a path keeps the two maps in step, and then the paths with its hash read as the
  -- entry and all others as before. The number of entries grows by one if the path was absent.
  pub get-insert :
      (path other : List ℕ) (entry : VnodeEntry) (m : Manifest PathHash)
      → IsManifest m
      → IsManifest (insert path entry m)
        × (get other (insert path entry m)
            ≡ (if e.beq (key path) (key other) then some entry else get other m))
        × (len (insert path entry m) ≡ len m + (if contains path m then 0 else 1))
  unfolding get insert len contains
  get-insert path other entry m is = (
    record {
      entries_map = insert-IsMap (key path) entry m.entries is.entries_map;
      paths_map = insert-IsMap (key path) (normalize_vfs_path path) m.paths is.paths_map;
      same_keys = λ h.
          rw
            (
              lookup-insert (key path) h entry m.entries,
              lookup-insert (key path) h (normalize_vfs_path path) m.paths,
            )
            (ground (arith, is.same_keys h));
    },
    lookup-insert (key path) (key other) entry m.entries,
    length-insert (key path) entry m.entries
        ∙ counted (lookup (key path) m.entries) (length m.entries),
  )
    where
      counted :
          (o : Option VnodeEntry) (n : ℕ)
          → n + elim o [ none ↦ 1 | some _ ↦ 0 ] ≡ n + (if is_some o then 0 else 1)
      counted none n = refl
      counted (some v) n = refl

  -- Removing a path returns the entry that it read as and keeps the two maps in step, and then the
  -- paths with its hash are absent and all others read as before.
  pub get-remove :
      (path other : List ℕ) (m : Manifest PathHash)
      → IsManifest m
      → IsManifest ((remove path m).0)
        × ((remove path m).1 ≡ get path m)
        × (get other ((remove path m).0)
            ≡ (if e.beq (key path) (key other) then none else get other m))
  unfolding get remove
  get-remove path other m is = (
    record {
      entries_map = remove-IsMap (key path) m.entries is.entries_map;
      paths_map = remove-IsMap (key path) m.paths is.paths_map;
      same_keys = λ h.
          rw (lookup-remove (key path) h m.entries, lookup-remove (key path) h m.paths)
            (ground (arith, is.same_keys h));
    },
    refl,
    lookup-remove (key path) (key other) m.entries,
  )
