-- ===== src/Commands/Dispatch.antt =====
-- `handle_request` of crates/vrift-vdird/src/commands.rs.
use velo_rift.Commands.{
  CommandHandler, handle_manifest_get, handle_manifest_upsert, handle_manifest_remove,
  handle_manifest_rename, handle_manifest_update_mtime,
}
use velo_rift.Commands.ListDir.{list_dir}
use velo_rift.Commands.Reingest.{StoreAnswers, Outcome, replied, handle_reingest}
use velo_rift.Commands.Scan.{IngestResult, handle_ingest_full_scan}
use velo_rift.Ipc.Header.{protocol_version, is_version_compatible}
use velo_rift.Ipc.Messages
use velo_rift.Ipc.Messages.{
  VeloRequest, VeloResponse, handshake_ack, status_ack, register_ack, manifest_list_ack, error,
  internal, new_error,
}
use velo_rift.Manifest.Lmdb.{Backend}
use velo_rift.Manifest.Lmdb.Iter.{iter}
use velo_rift.Prelude.Assoc.{Eq}
use velo_rift.Prelude.Text.{Text, codes}
use velo_rift.Prelude.{ℕ, List, Option}
use velo_rift.VDir.Store.{Io, Fault}

-- what the rest of the system answers while a request is handled: the growth of the table, the
-- content store, and a full scan
pub record World : Type 0 where
  pub io : Io
  pub store : StoreAnswers
  pub files : ℕ
  pub results : List (Option IngestResult)
  pub saved : Option Text
  pub duration_ms : ℕ

module _ {PathHash : Type 0} ⦃e : Eq PathHash⦄ (b : Backend PathHash) (crc32 : List ℕ → ℕ)
    (describe : Fault → Text) (server_version : Text) where
  -- the request that a handler takes without changing its state
  abbrev keeps : CommandHandler b → VeloResponse → CommandHandler b × Outcome
  keeps s response = (s, replied response)

  abbrev done : CommandHandler b × VeloResponse → CommandHandler b × Outcome
  done out = (out.0, replied out.1)

  unfoldable pub handle_request :
      World → VeloRequest → CommandHandler b → CommandHandler b × Outcome
  handle_request w request s = elim request [
    | Messages.handshake _ version ↦
        keeps s (handshake_ack server_version protocol_version (is_version_compatible version))
    | Messages.status ↦ keeps s (status_ack (codes "ready"))
    | Messages.register_workspace _ ↦
        keeps s (register_ack s.config.project_id s.config.socket_path s.config.vdir_path)
    | Messages.manifest_get path ↦ keeps s (handle_manifest_get b path s)
    | Messages.manifest_upsert path entry ↦
        done (handle_manifest_upsert b crc32 describe w.io path entry s)
    | Messages.manifest_remove path ↦ done (handle_manifest_remove b crc32 describe path s)
    | Messages.manifest_rename old_path new_path ↦
        done (handle_manifest_rename b crc32 describe w.io old_path new_path s)
    | Messages.manifest_update_mtime path mtime_ns ↦
        done (handle_manifest_update_mtime b crc32 describe w.io path mtime_ns s)
    | Messages.manifest_list_dir path ↦
        keeps s (manifest_list_ack (list_dir path (iter b s.manifest)))
    | Messages.manifest_reingest vpath _ ↦ handle_reingest b crc32 describe w.io w.store vpath s
    | Messages.ingest_full_scan _ manifest_path _ _ _ prefix _ _ ↦
        keeps s
          (handle_ingest_full_scan b.hash w.files w.results w.saved w.duration_ms manifest_path
            prefix).1
    | _ ↦ keeps s (error (new_error internal (codes "Not implemented")))
  ]
