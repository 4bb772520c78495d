-- ===== src/Inception/Resolve.antt =====
-- `PathResolver` and `resolve_path_at` of crates/vrift-inception-layer/src/path.rs, without the
-- branches for macOS.
pub mod Laws
use velo_rift.Inception.FixedString.{
  FixedString, fixed, as_str, is_empty, is_utf8, text_or_empty, write_str,
}
use velo_rift.Inception.Normalize.{raw_path_normalize}
use velo_rift.Manifest.Types.{slash, starts_with_slash, ends_with_slash}
use velo_rift.Prelude.Text.{Text, strip_prefix}
use velo_rift.Prelude.{
  ℕ, List, [], ◌∷◌, Option, none, some, Bool, true, false, not, ◌&&◌, ◌||◌, ltb, ◌==◌,
  if◌then◌else◌, length, get_or,
}
use velo_rift.Tracker.{fnv1a_hash}

pub record VfsPath : Type 0 where
  pub absolute : FixedString
  pub manifest_key : FixedString
  pub manifest_key_hash : ℕ

pub record PathResolver : Type 0 where
  pub vfs_prefix : FixedString
  pub project_root : FixedString

abbrev pub path_size : ℕ
path_size = 1024

unfoldable pub new : Text → Text → PathResolver
new vfs_prefix project_root = record {
  vfs_prefix = fixed 256 vfs_prefix;
  project_root = fixed path_size project_root;
}

abbrev pub is_some : {A : Type 0} → Option A → Bool
is_some none = false
is_some (some _) = true

abbrev pub starts_with : Text → Text → Bool
starts_with text prefix = is_some (strip_prefix prefix text)

-- step 1: `write!` of the root, a slash and the path, or of the path
unfoldable pub absolute_text : PathResolver → Text → Option Text
absolute_text r path =
    if starts_with_slash path
    then some (text_or_empty (write_str path_size [] path))
    else if is_empty r.project_root
    then none
    else some (
        text_or_empty (
          write_str path_size
            (write_str path_size (write_str path_size [] (as_str r.project_root)) (slash ∷ []))
            path))

-- step 3: the prefix, and after it the end or a slash, unless the prefix ends in one
unfoldable pub applies : PathResolver → Text → Bool
applies r normalized =
    starts_with normalized (as_str r.vfs_prefix)
    && not (
        ltb (length r.vfs_prefix.bytes) (length normalized)
        && (not (ends_with_slash (as_str r.vfs_prefix))
            && not (get_or normalized (length r.vfs_prefix.bytes) 0 == slash)))

-- `unwrap_or("")`
abbrev pub or_none : Option Text → Text
or_none none = []
or_none (some text) = text

-- the key behind a stripped prefix
unfoldable pub rooted_key : Option Text → FixedString
rooted_key stripped =
    let key = or_none stripped in
    if starts_with_slash key
    then fixed path_size key
    else fixed path_size
        (text_or_empty (write_str path_size (write_str path_size [] (slash ∷ [])) key))

-- step 4
unfoldable pub key_of : PathResolver → Text → FixedString
key_of r normalized =
    let root = as_str r.project_root in
    let prefix = as_str r.vfs_prefix in
    if not (length normalized == 0)
      && (not (is_empty r.project_root)
          && (starts_with normalized root
              && (length normalized == length root
                  || (ends_with_slash root || get_or normalized (length root) 0 == slash))))
    then rooted_key (strip_prefix root normalized)
    else if starts_with_slash prefix && (is_empty r.project_root || not (starts_with prefix root))
    then fixed path_size normalized
    else rooted_key (strip_prefix prefix normalized)

unfoldable pub resolve_normalized : PathResolver → Text → Option VfsPath
resolve_normalized r normalized =
    let key = key_of r normalized in
    if applies r normalized
    then some (record {
      absolute = fixed path_size normalized;
      manifest_key = key;
      manifest_key_hash = fnv1a_hash (as_str key);
    })
    else none

-- steps 2 to 4
unfoldable pub resolve_text : PathResolver → Option Text → Option VfsPath
resolve_text r none = none
resolve_text r (some text) = elim (raw_path_normalize path_size text) [
  | none ↦ none
  | some normalized ↦ if is_utf8 normalized then resolve_normalized r normalized else none
]

unfoldable pub resolve : PathResolver → Text → Option VfsPath
resolve r path = if is_empty r.vfs_prefix then none else resolve_text r (absolute_text r path)

-- `dirfd` is whether the directory is the current one, and `path` the C string, none if it is not
-- UTF-8.
unfoldable pub resolve_path_at : Bool → Option Text → ℕ → Option Text
resolve_path_at at_cwd none n = none
resolve_path_at at_cwd (some path) n =
    if starts_with_slash path
    then raw_path_normalize n path
    else if at_cwd
    then raw_path_normalize n path
    else none
