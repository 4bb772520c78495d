-- ===== src/Commands.antt =====
-- `CommandHandler` of crates/vrift-vdird/src/commands.rs: the requests that read and change the
-- table of changes (`VDir`), over the LMDB manifest. What the operating system answers while a
-- request grows the table is an argument, `io`, and `describe` is the text of a fault.
pub mod ListDir
pub mod Reingest
pub mod Scan
pub mod ScanLaws
pub mod Dispatch
pub mod Views
pub mod Requests
pub mod Rename
pub mod Keeps
pub mod Commit
use velo_rift.Ipc.Messages.{VeloResponse, manifest_ack, error, internal, new_error}
use velo_rift.Manifest.Lmdb.{Backend, LmdbManifest, get}
use velo_rift.Manifest.Types.{VnodeEntry, ManifestEntry}
use velo_rift.Prelude.Assoc.{Eq}
use velo_rift.Prelude.Text.{Text}
use velo_rift.Prelude.{ℕ, ◌/◌, ◌%◌, ◌^◌, List, Option, none, some, false}
use velo_rift.Tracker.{fnv1a_hash}
use velo_rift.VDir.Store.{VDir, Io, Fault, Result, ok, err, lookup, upsert, mark_dirty}
use velo_rift.VDir.Types.{VDirEntry}

-- the part of `ProjectConfig` that the handlers read
pub record ProjectConfig : Type 0 where
  pub project_id : Text
  pub vdir_path : Text
  pub socket_path : Text
  pub cas_path : Text

-- A conversion between u64 and i64 keeps the bit pattern.
unfoldable pub to_vnode : VDirEntry → VnodeEntry
to_vnode entry = record {
  content_hash = entry.cas_hash;
  size = entry.size;
  mtime = entry.mtime_sec;
  mode = entry.mode;
  flags = entry.flags;
}

unfoldable pub from_vnode : ℕ → VnodeEntry → VDirEntry
from_vnode path_hash vnode = record {
  path_hash = path_hash;
  cas_hash = vnode.content_hash;
  size = vnode.size;
  mtime_sec = vnode.mtime;
  mtime_nsec = 0;
  mode = vnode.mode;
  flags = vnode.flags;
}

-- the answer of `upsert`, turned into the response `sent` or an error
unfoldable pub after_upsert : (Fault → Text) → VeloResponse → Result (Unit {0}) → VeloResponse
after_upsert describe sent (ok _) = sent
after_upsert describe sent (err f) = error (new_error internal (describe f))

module _ {PathHash : Type 0} ⦃e : Eq PathHash⦄ (b : Backend PathHash) where
  pub record CommandHandler : Type 0 where
    pub config : ProjectConfig
    pub vdir : VDir
    pub manifest : LmdbManifest b

  unfoldable pub handle_manifest_get : Text → CommandHandler → VeloResponse
  handle_manifest_get path s = elim (lookup s.vdir (fnv1a_hash path)) [
    | some entry ↦ manifest_ack (some (to_vnode entry))
    | none ↦ elim (get b path s.manifest) [
      | some entry ↦ manifest_ack (some entry.vnode)
      | none ↦ manifest_ack none
    ]
  ]

  -- the entry that `rename` and `update_mtime` start from
  unfoldable pub existing : Text → CommandHandler → Option VDirEntry
  existing path s = elim (lookup s.vdir (fnv1a_hash path)) [
    | some entry ↦ some entry
    | none ↦ elim (get b path s.manifest) [
      | some entry ↦ some (from_vnode (fnv1a_hash path) entry.vnode)
      | none ↦ none
    ]
  ]

  unfoldable pub with_vdir : CommandHandler → VDir → CommandHandler
  with_vdir s v = record { config = s.config; vdir = v; manifest = s.manifest }

  module _ (crc32 : List ℕ → ℕ) (describe : Fault → Text) where
    -- `upsert`, and the response to what it returns
    unfoldable pub put_entry :
        Io → CommandHandler → VDirEntry → VeloResponse → CommandHandler × VeloResponse
    put_entry io s entry sent =
        let out = upsert crc32 io s.vdir entry in
        (with_vdir s out.0, after_upsert describe sent out.1)

    unfoldable pub handle_manifest_upsert :
        Io → Text → VnodeEntry → CommandHandler → CommandHandler × VeloResponse
    handle_manifest_upsert io path entry s =
        put_entry io s (from_vnode (fnv1a_hash path) entry) (manifest_ack (some entry))

    -- Both branches of the test on `mark_dirty` answer the same.
    unfoldable pub handle_manifest_remove : Text → CommandHandler → CommandHandler × VeloResponse
    handle_manifest_remove path s =
        (with_vdir s (mark_dirty crc32 s.vdir (fnv1a_hash path) false).0, manifest_ack none)

    unfoldable pub handle_manifest_rename :
        Io → Text → Text → CommandHandler → CommandHandler × VeloResponse
    handle_manifest_rename io old_path new_path s = elim (existing old_path s) [
      | some entry ↦
          let marked = with_vdir s (mark_dirty crc32 s.vdir (fnv1a_hash old_path) false).0 in
          put_entry io marked (record entry { path_hash = fnv1a_hash new_path }) (manifest_ack none)
      | none ↦ (s, manifest_ack none)
    ]

    unfoldable pub handle_manifest_update_mtime :
        Io → Text → ℕ → CommandHandler → CommandHandler × VeloResponse
    handle_manifest_update_mtime io path mtime_ns s = elim (existing path s) [
      | some entry ↦
          let updated = record entry {
            mtime_sec = mtime_ns / 1000000000;
            mtime_nsec = mtime_ns % 1000000000;
          } in
          put_entry io s updated (manifest_ack none)
      | none ↦ (s, manifest_ack none)
    ]
