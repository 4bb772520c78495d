-- ===== src/Commands/Reingest.antt =====
-- `handle_reingest` of crates/vrift-vdird/src/commands.rs. What the content store and the file
-- system answer is an argument.
use velo_rift.Commands.{CommandHandler, with_vdir}
use velo_rift.Ipc.Messages.{
  VeloResponse, manifest_ack, error, internal, io_error, ingest_failed, new_error,
}
use velo_rift.Manifest.Lmdb.{Backend}
use velo_rift.Manifest.Types.{VnodeEntry}
use velo_rift.Prelude.Assoc.{Eq}
use velo_rift.Prelude.Text.{Text, codes}
use velo_rift.Prelude.{ℕ, ◌%◌, ◌^◌, List, Option, none, some, Bool, ◌++◌, if◌then◌else◌}
use velo_rift.Tracker.{fnv1a_hash}
use velo_rift.VDir.Store.{Io, Fault, Result, ok, err, upsert}
use velo_rift.VDir.Types.{VDirEntry, flag_dir}

-- an answer, or the text of the error
pub data Answer (A : Type 0) : Type 0 where
  given : A → Answer A
  failed : Text → Answer A

-- `fs::Metadata`, the signed numbers as bit patterns
pub record Metadata : Type 0 where
  pub len : ℕ
  pub mtime : ℕ
  pub mtime_nsec : ℕ
  pub mode : ℕ
  pub is_dir : Bool

-- `blob` is none when `blob_path_for_hash` finds no blob, and its answer is that of `fs::metadata`.
pub record StoreAnswers : Type 0 where
  pub opened : Answer (Unit {0})
  pub stored : Answer (List ℕ)
  pub blob : Option (Answer Metadata)

-- the end of a request: a response, or the panic of `unwrap`
pub data Outcome : Type 0 where
  replied : VeloResponse → Outcome
  panicked : Outcome

unfoldable pub reingested : ℕ → List ℕ → Metadata → VDirEntry
reingested path_hash cas_hash meta = record {
  path_hash = path_hash;
  cas_hash = cas_hash;
  size = meta.len;
  mtime_sec = meta.mtime;
  mtime_nsec = meta.mtime_nsec % 2 ^ 32;
  mode = meta.mode;
  flags = if meta.is_dir then flag_dir else 0;
}

unfoldable pub reingest_vnode : List ℕ → Metadata → VnodeEntry
reingest_vnode cas_hash meta = record {
  content_hash = cas_hash;
  size = meta.len;
  mtime = meta.mtime;
  mode = meta.mode;
  flags = 0;
}

unfoldable pub after_reingest :
    (Fault → Text) → List ℕ → Metadata → Result (Unit {0}) → VeloResponse
after_reingest describe cas_hash meta (ok _) = manifest_ack (some (reingest_vnode cas_hash meta))
after_reingest describe cas_hash meta (err f) =
    error (new_error io_error (codes "VDir update error: " ++ describe f))

module _ {PathHash : Type 0} ⦃e : Eq PathHash⦄ (b : Backend PathHash) (crc32 : List ℕ → ℕ)
    (describe : Fault → Text) where
  unfoldable pub handle_reingest :
      Io → StoreAnswers → Text → CommandHandler b → CommandHandler b × Outcome
  handle_reingest io store vpath s = elim store.opened [
    | failed text ↦ (s, replied (error (new_error internal (codes "CAS init error: " ++ text))))
    | given _ ↦ elim store.stored [
      | failed text ↦
          (s, replied (error (new_error ingest_failed (codes "Ingest error: " ++ text))))
      | given cas_hash ↦ elim store.blob [
        | none ↦ (s, panicked)
        | some (failed text) ↦
            (s, replied (error (new_error io_error (codes "Metadata error: " ++ text))))
        | some (given meta) ↦
            let out = upsert crc32 io s.vdir (reingested (fnv1a_hash vpath) cas_hash meta) in
            (with_vdir b s out.0, replied (after_reingest describe cas_hash meta out.1))
      ]
    ]
  ]
