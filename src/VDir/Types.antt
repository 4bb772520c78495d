-- ===== src/VDir/Types.antt =====
-- The layout of the VDir file: crates/vrift-ipc/src/vdir_types.rs.
use Prim.Native.Nat.{bit_and}
use velo_rift.Prelude.{ℕ, List, Bool, not, replicate, ◌==◌}

abbrev pub vdir_magic : ℕ
vdir_magic = 0x5652_4654

abbrev pub vdir_version : ℕ
vdir_version = 2

-- kept shut in proofs by its users: they take the capacity as a variable
abbrev pub vdir_default_capacity : ℕ
vdir_default_capacity = 65536

abbrev pub vdir_header_size : ℕ
vdir_header_size = 64

abbrev pub flag_dirty : ℕ
flag_dirty = 0x0001

abbrev pub flag_deleted : ℕ
flag_deleted = 0x0002

abbrev pub flag_symlink : ℕ
flag_symlink = 0x0004

abbrev pub flag_dir : ℕ
flag_dir = 0x0008

-- `VDirHeader`, without its padding. Each field is a word of the width in the source.
pub record VDirHeader : Type 0 where
  pub magic : ℕ
  pub version : ℕ
  pub generation : ℕ
  pub entry_count : ℕ
  pub table_capacity : ℕ
  pub table_offset : ℕ
  pub crc32 : ℕ

-- `VDirEntry`, without its padding. The signed `mtime_sec` is its 64-bit pattern.
pub record VDirEntry : Type 0 where
  pub path_hash : ℕ
  pub cas_hash : List ℕ
  pub size : ℕ
  pub mtime_sec : ℕ
  pub mtime_nsec : ℕ
  pub mode : ℕ
  pub flags : ℕ

-- a slot of zeros
abbrev pub default_entry : VDirEntry
default_entry = record {
  path_hash = 0;
  cas_hash = replicate 32 0;
  size = 0;
  mtime_sec = 0;
  mtime_nsec = 0;
  mode = 0;
  flags = 0;
}

abbrev pub is_empty : VDirEntry → Bool
is_empty e = e.path_hash == 0

abbrev pub has_flag : ℕ → VDirEntry → Bool
has_flag flag e = not (bit_and e.flags flag == 0)

unfoldable pub is_dirty : VDirEntry → Bool
is_dirty = has_flag flag_dirty

unfoldable pub is_dir : VDirEntry → Bool
is_dir = has_flag flag_dir

unfoldable pub is_deleted : VDirEntry → Bool
is_deleted = has_flag flag_deleted

unfoldable pub is_symlink : VDirEntry → Bool
is_symlink = has_flag flag_symlink
