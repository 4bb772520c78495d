-- ===== src/Ingest/Handler.antt =====
-- `IngestHandler` of crates/vrift-vdird/src/ingest.rs over the LMDB manifest. What the content
-- store and the file system answer for an event is an argument.
use velo_rift.Ingest.{IngestEvent, file_changed, dir_created, removed, symlink_created}
use velo_rift.Manifest.Lmdb.{Backend, LmdbManifest, insert, remove}
use velo_rift.Manifest.Tier.{matches_any}
use velo_rift.Manifest.Types.{AssetTier, tier1_immutable, tier2_mutable, VnodeEntry, slash}
use velo_rift.Prelude.Assoc.{Eq}
use velo_rift.Prelude.Text.{Text, strip_prefix, trim_end}
use velo_rift.Prelude.{
  ℕ, List, [], ◌∷◌, Option, none, some, replicate, if◌then◌else◌, ◌==◌, length, map,
}

-- `stored` is the hash and the size of the content that the store has taken, `metadata` the time
-- and the mode of the file; each is none on failure.
pub record Answers : Type 0 where
  pub stored : Option (List ℕ × ℕ)
  pub metadata : Option (ℕ × ℕ)

pub record TierPatterns : Type 0 where
  pub tier1_patterns : List Text
  pub tier2_patterns : List Text

pub record IngestHandler : Type 0 where
  pub project_root : Text
  pub patterns : TierPatterns

unfoldable pub classify_tier : TierPatterns → Text → AssetTier
classify_tier patterns path =
    if matches_any (map trim_end patterns.tier1_patterns) path
    then tier1_immutable
    else if matches_any (map trim_end patterns.tier2_patterns) path
    then tier2_mutable
    else tier2_mutable

-- `Path::strip_prefix` of the root, for a root that does not end in a slash and paths without empty
-- components: the components below it
unfoldable pub below_root : Text → Text → Option Text
below_root root path = elim (strip_prefix root path) [
  | none ↦ none
  | some [] ↦ some []
  | some (c ∷ rest) ↦ if c == slash then some rest else none
]

unfoldable pub to_manifest_key : IngestHandler → Text → Text
to_manifest_key h path = elim (below_root h.project_root path) [
  | some rest ↦ slash ∷ rest
  | none ↦ path
]

abbrev pub zero_hash : List ℕ
zero_hash = replicate 32 0

-- The entry that an event inserts, with its tier, or none where the handler only logs.
unfoldable pub changed_entry : IngestHandler → Answers → Text → Option (VnodeEntry × AssetTier)
changed_entry h a path = elim a.stored [
  | none ↦ none
  | some (hash, size) ↦ elim a.metadata [
    | none ↦ none
    | some (mtime, mode) ↦ some (
      record { content_hash = hash; size = size; mtime = mtime; mode = mode; flags = 0 },
      classify_tier h.patterns (to_manifest_key h path),
    )
  ]
]

unfoldable pub dir_entry : Answers → Option (VnodeEntry × AssetTier)
dir_entry a = elim a.metadata [
  | none ↦ none
  | some (mtime, mode) ↦ some (
    record { content_hash = zero_hash; size = 0; mtime = mtime; mode = mode; flags = 1 },
    tier2_mutable,
  )
]

unfoldable pub symlink_entry : Answers → Text → Option (VnodeEntry × AssetTier)
symlink_entry a target = elim a.metadata [
  | none ↦ none
  | some (mtime, _) ↦ elim a.stored [
    | none ↦ none
    | some (hash, _) ↦ some (
      record { content_hash = hash; size = length target; mtime = mtime; mode = 0x1ff; flags = 2 },
      tier2_mutable,
    )
  ]
]

module _ {PathHash : Type 0} ⦃e : Eq PathHash⦄ (b : Backend PathHash) where
  abbrev pub insert_some : Text → Option (VnodeEntry × AssetTier) → LmdbManifest b → LmdbManifest b
  insert_some key none m = m
  insert_some key (some (vnode, tier)) m = insert b key vnode tier m

  unfoldable pub handle : IngestHandler → Answers → IngestEvent → LmdbManifest b → LmdbManifest b
  handle h a (file_changed path) m = insert_some (to_manifest_key h path) (changed_entry h a path) m
  handle h a (dir_created path) m = insert_some (to_manifest_key h path) (dir_entry a) m
  handle h a (removed path) m = remove b (to_manifest_key h path) m
  handle h a (symlink_created path target) m =
      insert_some (to_manifest_key h path) (symlink_entry a target) m
