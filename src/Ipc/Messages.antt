-- ===== src/Ipc/Messages.antt =====
-- The messages of crates/vrift-ipc/src/lib.rs: `VeloRequest`, `VeloResponse` and `VeloError`. A text
-- is the list of its bytes, and a signed number of the protocol its bit pattern.
use velo_rift.Manifest.Types.{VnodeEntry}
use velo_rift.Prelude.{ℕ, List, Option, none, some, Bool}
use velo_rift.Prelude.Text.{Text}

pub data VeloRequest : Type 0 where
  handshake : (client_version : Text) → (protocol_version : ℕ) → VeloRequest
  status : VeloRequest
  spawn : (command : List Text) → (env : List (Text × Text)) → (cwd : Text) → VeloRequest
  cas_insert : (hash : List ℕ) → (size : ℕ) → VeloRequest
  cas_get : (hash : List ℕ) → VeloRequest
  protect : (path : Text) → (immutable : Bool) → (owner : Option Text) → VeloRequest
  manifest_get : (path : Text) → VeloRequest
  manifest_upsert : (path : Text) → (entry : VnodeEntry) → VeloRequest
  manifest_remove : (path : Text) → VeloRequest
  manifest_rename : (old_path new_path : Text) → VeloRequest
  manifest_update_mtime : (path : Text) → (mtime_ns : ℕ) → VeloRequest
  manifest_reingest : (vpath temp_path : Text) → VeloRequest
  manifest_list_dir : (path : Text) → VeloRequest
  flock_acquire : (path : Text) → (operation : ℕ) → VeloRequest
  flock_release : (path : Text) → VeloRequest
  cas_sweep : (bloom_filter : List ℕ) → VeloRequest
  register_workspace : (project_root : Text) → VeloRequest
  ingest_full_scan :
      (path manifest_path : Text)
      → (threads : Option ℕ) → (phantom tier1 : Bool) → (prefix cas_root : Option Text)
      → (force_hash : Bool) → VeloRequest

pub record DirEntry : Type 0 where
  pub name : Text
  pub is_dir : Bool

pub data VeloErrorKind : Type 0 where
  not_found permission_denied invalid_path workspace_not_registered : VeloErrorKind
  ingest_failed io_error lock_failed internal : VeloErrorKind

pub record VeloError : Type 0 where
  pub kind : VeloErrorKind
  pub message : Text
  pub path : Option Text

-- `VeloError::new`, which `io_error` and `internal` call
unfoldable pub new_error : VeloErrorKind → Text → VeloError
new_error kind message = record { kind = kind; message = message; path = none }

unfoldable pub with_path : VeloErrorKind → Text → Text → VeloError
with_path kind message path = record { kind = kind; message = message; path = some path }

-- `set_path`
unfoldable pub located : Text → VeloError → VeloError
located path e = record e { path = some path }

unfoldable pub exit_code : VeloError → ℕ
exit_code e = elim e.kind [
  | not_found ↦ 2
  | workspace_not_registered ↦ 2
  | invalid_path ↦ 22
  | permission_denied ↦ 77
  | lock_failed ↦ 78
  | ingest_failed ↦ 79
  | io_error ↦ 1
  | internal ↦ 1
]

pub record IngestStats : Type 0 where
  pub files : ℕ
  pub blobs : ℕ
  pub new_bytes : ℕ
  pub total_bytes : ℕ
  pub duration_ms : ℕ
  pub manifest_path : Text

pub data VeloResponse : Type 0 where
  handshake_ack :
      (server_version : Text) → (protocol_version : ℕ) → (compatible : Bool) → VeloResponse
  status_ack : (status : Text) → VeloResponse
  spawn_ack : (pid : ℕ) → VeloResponse
  cas_ack : VeloResponse
  cas_found : (size : ℕ) → VeloResponse
  cas_not_found : VeloResponse
  manifest_ack : (entry : Option VnodeEntry) → VeloResponse
  manifest_list_ack : (entries : List DirEntry) → VeloResponse
  protect_ack : VeloResponse
  cas_sweep_ack : (deleted_count reclaimed_bytes : ℕ) → VeloResponse
  flock_ack : VeloResponse
  register_ack : (workspace_id vdird_socket vdir_mmap_path : Text) → VeloResponse
  ingest_ack : IngestStats → VeloResponse
  error : VeloError → VeloResponse
