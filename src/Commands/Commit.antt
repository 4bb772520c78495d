-- ===== src/Commands/Commit.antt =====
-- What a reingest leaves visible (crates/vrift-vdird/src/commands.rs).
use velo_rift.Commands.{CommandHandler, to_vnode, with_vdir}
use velo_rift.Commands.Reingest.{
  StoreAnswers, Answer, given, failed, Metadata, Outcome, replied, panicked, reingested,
  reingest_vnode, after_reingest, handle_reingest,
}
use velo_rift.Ipc.Messages.{
  VeloErrorKind, manifest_ack, error, internal, io_error, ingest_failed, new_error,
}
use velo_rift.Manifest.Types.{VnodeEntry}
use velo_rift.Commands.Views.{shown, seen_after, visible, reads_visible}
use velo_rift.Manifest.Lmdb.{Backend, get}
use velo_rift.Prelude.Assoc.{Eq}
use velo_rift.Prelude.Text.{Text, codes}
use velo_rift.Prelude.{
  ◌⊎◌, ◌≡◌, ◌≢◌, refl, ap, ◌∙◌, ℕ, ◌*◌, ◌^◌, ◌<◌, List, ◌++◌, Option, none, some, false, ◌&&◌,
  if◌then◌else◌,
}
use velo_rift.Tracker.{fnv1a_hash}
use velo_rift.VDir.Store.{Io, Fault, Result, ok, err, upsert}
use velo_rift.VDir.Upsert.{upsert-Upserts}
use velo_rift.VDir.Write.{IsValid}

-- the entry that a reingest makes visible
abbrev pub reingested_vnode : List ℕ → Metadata → VnodeEntry
reingested_vnode cas_hash meta = record {
  content_hash = cas_hash;
  size = meta.len;
  mtime = meta.mtime;
  mode = meta.mode;
  flags = if meta.is_dir then 8 else 0;
}

abbrev pub failure : VeloErrorKind → Text → Outcome
failure kind message = replied (error (record { kind = kind; message = message; path = none }))

-- the response after the answer of the table; it reports no flags
abbrev pub answered : (Fault → Text) → List ℕ → Metadata → Result (Unit {0}) → Outcome
answered describe cas_hash meta (ok _) = replied (
    manifest_ack (
      some (record {
        content_hash = cas_hash;
        size = meta.len;
        mtime = meta.mtime;
        mode = meta.mode;
        flags = 0;
      })))
answered describe cas_hash meta (err f) =
    failure io_error (codes "VDir update error: " ++ describe f)

after_reingest-answered :
    (describe : Fault → Text) (cas_hash : List ℕ) (meta : Metadata) (r : Result (Unit {0}))
    → replied (after_reingest describe cas_hash meta r) ≡ answered describe cas_hash meta r
unfolding after_reingest reingest_vnode new_error
after_reingest-answered describe cas_hash meta (ok _) = refl
after_reingest-answered describe cas_hash meta (err f) = refl

module _ {PathHash : Type 0} ⦃e : Eq PathHash⦄ (b : Backend PathHash)
    (describe : Fault → Text) where
  abbrev pub Stored :
      Io → List ℕ → Metadata → Text → CommandHandler b → CommandHandler b × Outcome → Type 0
  Stored io cas_hash meta vpath s out =
      (answer : Result (Unit {0})) × (out.1 ≡ answered describe cas_hash meta answer)
      × IsValid out.0.vdir
      × ((q : Text)
          → visible b out.0 q
            ≡ seen_after answer (fnv1a_hash vpath) (reingested_vnode cas_hash meta) (fnv1a_hash q)
                (visible b s q))
      × ((answer ≡ ok tt) ⊎ ((io.remap && io.flush) ≡ false))

  -- what a reingest promises, by what the store and the file system answer
  abbrev pub Reingests :
      Io
      → Answer (Unit {0})
      → Answer (List ℕ)
      → Option (Answer Metadata)
      → Text
      → CommandHandler b
      → CommandHandler b × Outcome
      → Type 0
  Reingests io (failed text) stored blob vpath s out =
      out ≡ (s, failure internal (codes "CAS init error: " ++ text))
  Reingests io (given _) (failed text) blob vpath s out =
      out ≡ (s, failure ingest_failed (codes "Ingest error: " ++ text))
  Reingests io (given _) (given cas_hash) none vpath s out = out ≡ (s, panicked)
  Reingests io (given _) (given cas_hash) (some (failed text)) vpath s out =
      out ≡ (s, failure io_error (codes "Metadata error: " ++ text))
  Reingests io (given _) (given cas_hash) (some (given meta)) vpath s out =
      Stored io cas_hash meta vpath s out

  module _ (crc32 : List ℕ → ℕ) where
    reingest-Stored :
        (io : Io) (cas_hash : List ℕ) (meta : Metadata) (vpath : Text) (s : CommandHandler b)
        → IsValid s.vdir
        → fnv1a_hash vpath ≢ 0
        → 2 * s.vdir.capacity < 2 ^ 32
        → let out = upsert crc32 io s.vdir (reingested (fnv1a_hash vpath) cas_hash meta) in
          Stored io cas_hash meta vpath s
            (with_vdir b s out.0, replied (after_reingest describe cas_hash meta out.1))
    unfolding with_vdir reingested to_vnode
    reingest-Stored io cas_hash meta vpath s valid nz small =
        let entry = reingested (fnv1a_hash vpath) cas_hash meta in
        let u = upsert-Upserts crc32 io entry valid nz small in
        let out = upsert crc32 io s.vdir entry in
        (
          out.1,
          after_reingest-answered describe cas_hash meta out.1,
          u.valid,
          λ q.
              ap (λ o. shown o (get b q s.manifest)) (u.reads (fnv1a_hash q))
              ∙ reads_visible out.1 s.vdir entry (fnv1a_hash q) (get b q s.manifest),
          u.succeeds,
        )

    -- A reingest under the conditions of an `upsert`. If the content store and the file system
    -- answer, it makes the content's hash, size, time, mode and kind visible at the paths of this
    -- hash alone, and answers with them, but without the flags. Only when the operating system fails
    -- it answers with an I/O error instead, and nothing visible changes. If the store cannot be
    -- opened, does not take the content or has no metadata of it, the reingest answers with that
    -- error, or panics where the store has lost the content, and changes nothing.
    pub handle_reingest-sees :
        (io : Io) (store : StoreAnswers) (vpath : Text) (s : CommandHandler b)
        → IsValid s.vdir
        → fnv1a_hash vpath ≢ 0
        → 2 * s.vdir.capacity < 2 ^ 32
        → Reingests io store.opened store.stored store.blob vpath s
            (handle_reingest b crc32 describe io store vpath s)
    unfolding handle_reingest new_error
    handle_reingest-sees io store vpath s valid nz small =
        by_answers store.opened store.stored store.blob
      where
        by_answers :
            (opened : Answer (Unit {0})) (stored : Answer (List ℕ))
            (blob : Option (Answer Metadata))
            → Reingests io opened stored blob vpath s (
                handle_reingest b crc32 describe io
                  (record { opened = opened; stored = stored; blob = blob })
                  vpath
                  s)
        by_answers (failed text) stored blob = refl
        by_answers (given _) (failed text) blob = refl
        by_answers (given _) (given cas_hash) none = refl
        by_answers (given _) (given cas_hash) (some (failed text)) = refl
        by_answers (given _) (given cas_hash) (some (given meta)) =
            reingest-Stored io cas_hash meta vpath s valid nz small
