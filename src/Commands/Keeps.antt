-- ===== src/Commands/Keeps.antt =====
-- What every request keeps: the well-formed table and the manifest below it.
use velo_rift.Commands.{
  CommandHandler, from_vnode, existing, with_vdir, put_entry, handle_manifest_upsert,
  handle_manifest_remove, handle_manifest_rename, handle_manifest_update_mtime,
}
use velo_rift.Commands.Dispatch.{World, handle_request}
use velo_rift.Commands.Reingest.{Answer, Metadata, given, failed, reingested, handle_reingest}
use velo_rift.Commands.Requests.{mark_dirty-capacity, existing_hash}
use velo_rift.Ipc.Messages
use velo_rift.Ipc.Messages.{VeloRequest, VeloResponse, manifest_ack}
use velo_rift.Manifest.Lmdb.{Backend}
use velo_rift.Prelude.Assoc.{Eq}
use velo_rift.Prelude.Text.{Text}
use velo_rift.Prelude.{
  ◌≡◌, ◌≢◌, refl, sym, ◌∙◌, ℕ, ◌*◌, ◌/◌, ◌%◌, ◌^◌, ◌<◌, List, Option, none, some, false, arith,
  Option-cases, inl, inr,
}
use velo_rift.Tracker.{fnv1a_hash}
use velo_rift.VDir.Dirty.{mark_dirty-Marks}
use velo_rift.VDir.Store.{Io, Fault, mark_dirty}
use velo_rift.VDir.Types.{VDirEntry}
use velo_rift.VDir.Upsert.{upsert-Upserts}
use velo_rift.VDir.Write.{IsValid}

-- No path that the request may store has the hash 0, which marks an empty slot.
abbrev pub HasHashes : VeloRequest → Type 0
HasHashes (Messages.manifest_upsert path _) = fnv1a_hash path ≢ 0
HasHashes (Messages.manifest_rename _ new_path) = fnv1a_hash new_path ≢ 0
HasHashes (Messages.manifest_update_mtime path _) = fnv1a_hash path ≢ 0
HasHashes (Messages.manifest_reingest vpath _) = fnv1a_hash vpath ≢ 0
HasHashes _ = Unit {0}

module _ {PathHash : Type 0} ⦃e : Eq PathHash⦄ (b : Backend PathHash) where
  pub record Keeps (s s' : CommandHandler b) : Type 0 where
    pub valid : IsValid s'.vdir
    pub manifest : s'.manifest ≡ s.manifest
    pub config : s'.config ≡ s.config

  Keeps-refl : (s : CommandHandler b) → IsValid s.vdir → Keeps s s
  Keeps-refl s valid = record { valid = valid; manifest = refl; config = refl }

  module _ (crc32 : List ℕ → ℕ) (describe : Fault → Text) where
    Keeps-put_entry :
        (io : Io) (s : CommandHandler b) (entry : VDirEntry) (sent : VeloResponse)
        → IsValid s.vdir
        → entry.path_hash ≢ 0
        → 2 * s.vdir.capacity < 2 ^ 32
        → Keeps s (put_entry b crc32 describe io s entry sent).0
    unfolding put_entry with_vdir
    Keeps-put_entry io s entry sent valid nz small = record {
      valid = (upsert-Upserts crc32 io entry valid nz small).valid;
      manifest = refl;
      config = refl;
    }

    Keeps-rename :
        (io : Io) (old_path new_path : Text) (s : CommandHandler b)
        → IsValid s.vdir
        → fnv1a_hash new_path ≢ 0
        → 2 * s.vdir.capacity < 2 ^ 32
        → Keeps s (handle_manifest_rename b crc32 describe io old_path new_path s).0
    unfolding handle_manifest_rename with_vdir
    Keeps-rename io old_path new_path s valid nz small =
        elim (Option-cases (existing b old_path s)) [
          | inl n ↦ rw (n, handle_manifest_rename) (Keeps-refl s valid)
          | inr (entry, x) ↦
              let h = fnv1a_hash old_path in
              let m = mark_dirty-Marks crc32 h false valid in
              let marked = with_vdir b s (mark_dirty crc32 s.vdir h false).0 in
              let cap = mark_dirty-capacity crc32 s.vdir h false in
              let k =
                Keeps-put_entry io marked (record entry { path_hash = fnv1a_hash new_path })
                  (manifest_ack none) m.valid nz (omega (arith, cap)) in
              rw (x, handle_manifest_rename)
                (record { valid = k.valid; manifest = k.manifest; config = k.config })
        ]

    Keeps-update_mtime :
        (io : Io) (path : Text) (mtime_ns : ℕ) (s : CommandHandler b)
        → IsValid s.vdir
        → fnv1a_hash path ≢ 0
        → 2 * s.vdir.capacity < 2 ^ 32
        → Keeps s (handle_manifest_update_mtime b crc32 describe io path mtime_ns s).0
    unfolding handle_manifest_update_mtime
    Keeps-update_mtime io path mtime_ns s valid nz small = elim (Option-cases (existing b path s)) [
      | inl n ↦ rw (n, handle_manifest_update_mtime) (Keeps-refl s valid)
      | inr (entry, x) ↦
          let eh = existing_hash b path s entry x in
          rw (x, handle_manifest_update_mtime)
            (Keeps-put_entry io s
              (record entry {
                mtime_sec = mtime_ns / 1000000000;
                mtime_nsec = mtime_ns % 1000000000;
              })
              (manifest_ack none) valid (λ z. nz (sym eh ∙ z)) small)
    ]

    Keeps-answers :
        (io : Io) (opened : Answer (Unit {0})) (stored : Answer (List ℕ))
        (blob : Option (Answer Metadata)) (vpath : Text) (s : CommandHandler b)
        → IsValid s.vdir
        → fnv1a_hash vpath ≢ 0
        → 2 * s.vdir.capacity < 2 ^ 32
        → Keeps s
            (handle_reingest b crc32 describe io
              (record { opened = opened; stored = stored; blob = blob })
              vpath
              s).0
    unfolding handle_reingest with_vdir reingested
    Keeps-answers io (failed t) stored blob vpath s valid nz small = Keeps-refl s valid
    Keeps-answers io (given _) (failed t) blob vpath s valid nz small = Keeps-refl s valid
    Keeps-answers io (given _) (given h) none vpath s valid nz small = Keeps-refl s valid
    Keeps-answers io (given _) (given h) (some (failed t)) vpath s valid nz small =
        Keeps-refl s valid
    Keeps-answers io (given _) (given h) (some (given meta)) vpath s valid nz small = record {
      valid = (upsert-Upserts crc32 io (reingested (fnv1a_hash vpath) h meta) valid nz small).valid;
      manifest = refl;
      config = refl;
    }

    -- Every request, failing or not, that reaches a valid table whose capacity is below 2 ^ 31 and
    -- that stores no path of the hash 0, leaves the table valid, and does not change the manifest.
    pub handle_request-Keeps :
        (server_version : Text) (w : World) (request : VeloRequest) (s : CommandHandler b)
        → IsValid s.vdir
        → HasHashes request
        → 2 * s.vdir.capacity < 2 ^ 32
        → Keeps s (handle_request b crc32 describe server_version w request s).0
    unfolding handle_request handle_manifest_upsert handle_manifest_remove with_vdir from_vnode
    handle_request-Keeps sv w (Messages.manifest_upsert path entry) s valid nz small =
        Keeps-put_entry w.io s (from_vnode (fnv1a_hash path) entry) (manifest_ack (some entry))
          valid nz small
    handle_request-Keeps sv w (Messages.manifest_remove path) s valid nz small = record {
      valid = (mark_dirty-Marks crc32 (fnv1a_hash path) false valid).valid;
      manifest = refl;
      config = refl;
    }
    handle_request-Keeps sv w (Messages.manifest_rename old_path new_path) s valid nz small =
        Keeps-rename w.io old_path new_path s valid nz small
    handle_request-Keeps sv w (Messages.manifest_update_mtime path mtime_ns) s valid nz small =
        Keeps-update_mtime w.io path mtime_ns s valid nz small
    handle_request-Keeps sv w (Messages.manifest_reingest vpath temp_path) s valid nz small =
        Keeps-answers w.io w.store.opened w.store.stored w.store.blob vpath s valid nz small
    handle_request-Keeps sv w _ s valid nz small = Keeps-refl s valid
