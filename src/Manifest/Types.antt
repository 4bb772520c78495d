-- ===== src/Manifest/Types.antt =====
-- `VnodeEntry`, `AssetTier`, `ManifestEntry` and the normalization of paths.
use Prim.Native.Nat.{bit_and}
use velo_rift.Prelude.{ℕ, List, [], ◌∷◌, Bool, false, not, ◌&&◌, ◌==◌, ltb, if◌then◌else◌, length}

pub data AssetTier : Type 0 where
  tier1_immutable tier2_mutable : AssetTier

-- `VnodeFlags`, as the numbers that they are stored as
abbrev pub flag_file : ℕ
flag_file = 0

abbrev pub flag_directory : ℕ
flag_directory = 1

abbrev pub flag_symlink : ℕ
flag_symlink = 2

abbrev pub flag_executable : ℕ
flag_executable = 3

pub record VnodeEntry : Type 0 where
  pub content_hash : List ℕ
  pub size : ℕ
  pub mtime : ℕ
  pub mode : ℕ
  pub flags : ℕ

unfoldable pub new_file : List ℕ → ℕ → ℕ → ℕ → VnodeEntry
new_file hash size mtime mode = record {
  content_hash = hash;
  size = size;
  mtime = mtime;
  mode = mode;
  flags = flag_file;
}

unfoldable pub new_directory : List ℕ → ℕ → ℕ → VnodeEntry
new_directory zero_hash mtime mode = record {
  content_hash = zero_hash;
  size = 0;
  mtime = mtime;
  mode = mode;
  flags = flag_directory;
}

unfoldable pub new_symlink : List ℕ → ℕ → ℕ → VnodeEntry
new_symlink target_hash target_len mtime = record {
  content_hash = target_hash;
  size = target_len;
  mtime = mtime;
  mode = 0x1ff;
  flags = flag_symlink;
}

unfoldable pub is_dir : VnodeEntry → Bool
is_dir v = not (bit_and v.flags flag_directory == 0)

unfoldable pub is_file : VnodeEntry → Bool
is_file v = v.flags == flag_file

unfoldable pub is_symlink : VnodeEntry → Bool
is_symlink v = not (bit_and v.flags flag_symlink == 0)

unfoldable pub is_executable : VnodeEntry → Bool
is_executable v = not (bit_and v.flags flag_executable == 0)

pub record ManifestEntry : Type 0 where
  pub vnode : VnodeEntry
  pub tier : AssetTier
  pub stale : Bool

abbrev pub slash : ℕ
slash = 0x2f

-- `path.replace("//", "/")`: each pair that the scan from the left meets
unfoldable pub replace_doubles : List ℕ → List ℕ
replace_doubles [] = []
replace_doubles (a ∷ []) = a ∷ []
replace_doubles (a ∷ b ∷ path) =
    let after_pair = replace_doubles path in
    let after_one = replace_doubles (b ∷ path) in
    if a == slash && b == slash then slash ∷ after_pair else a ∷ after_one

abbrev pub ends_with_slash : List ℕ → Bool
ends_with_slash [] = false
ends_with_slash (a ∷ []) = a == slash
ends_with_slash (a ∷ b ∷ path) = ends_with_slash (b ∷ path)

abbrev pub starts_with_slash : List ℕ → Bool
starts_with_slash [] = false
starts_with_slash (a ∷ path) = a == slash

-- `String::pop`
abbrev pub pop : List ℕ → List ℕ
pop [] = []
pop (a ∷ []) = []
pop (a ∷ b ∷ path) = a ∷ pop (b ∷ path)

unfoldable pub normalize_vfs_path : List ℕ → List ℕ
unfolding replace_doubles
normalize_vfs_path path =
    let replaced = replace_doubles path in
    let trimmed =
      if ltb 1 (length replaced) && ends_with_slash replaced then pop replaced else replaced in
    if starts_with_slash trimmed then trimmed else slash ∷ trimmed
