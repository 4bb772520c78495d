-- ===== src/Commands/Scan.antt =====
-- `handle_ingest_full_scan` and `write_manifest` of crates/vrift-vdird/src/commands.rs. The files
-- that the walk found, the results of the parallel ingest, the metadata of the sources and the
-- answer of the manifest's `save` are arguments.
use velo_rift.Ipc.Messages.{VeloResponse, ingest_ack, error, io_error, new_error}
use velo_rift.Manifest.Memory.{Manifest, new, insert}
use velo_rift.Manifest.Types.{VnodeEntry, slash}
use velo_rift.Prelude.Assoc.{Eq}
use velo_rift.Prelude.Text.{Text, codes, text_beq, trim_end}
use velo_rift.Prelude.{
  ℕ, ◌+◌, ◌%◌, ◌^◌, List, [], ◌∷◌, ◌++◌, Option, none, some, Bool, ◌||◌, ◌==◌, if◌then◌else◌,
}

-- `IngestMode`
pub data IngestMode : Type 0 where
  phantom solid_tier1 solid_tier2 : IngestMode

unfoldable pub scan_mode : Bool → Bool → IngestMode
scan_mode is_phantom tier1 =
    if is_phantom then phantom else if tier1 then solid_tier1 else solid_tier2

-- `IngestResult`, with what the file system says of its source: the path below the root of the
-- scan, and the time and the mode if the metadata can be read
pub record IngestResult : Type 0 where
  pub hash : List ℕ
  pub size : ℕ
  pub was_new : Bool
  pub relative : Text
  pub metadata : Option (ℕ × ℕ)

abbrev pub or_empty : Option Text → Text
or_empty none = []
or_empty (some text) = text

unfoldable pub manifest_key : Option Text → Text → Text
manifest_key prefix relative =
    let p = or_empty prefix in
    if text_beq p (slash ∷ []) || text_beq p []
    then slash ∷ relative
    else trim_end p ++ (slash ∷ relative)

unfoldable pub scanned : IngestResult → VnodeEntry
scanned r = elim r.metadata [
  | some (mtime, mode) ↦ record {
    content_hash = r.hash;
    size = r.size;
    mtime = mtime;
    mode = mode;
    flags = 0;
  }
  | none ↦ record { content_hash = r.hash; size = r.size; mtime = 0; mode = 0x1a4; flags = 0 }
]

-- The counts of the loop over the results that are not errors. The sums are of 64 bits.
pub record ScanCounts : Type 0 where
  pub total_bytes : ℕ
  pub new_bytes : ℕ
  pub unique_blobs : ℕ

unfoldable pub count_results : List (Option IngestResult) → ScanCounts → ScanCounts
count_results [] c = c
count_results (none ∷ results) c = count_results results c
count_results (some r ∷ results) c = count_results results (record {
  total_bytes = (c.total_bytes + r.size) % 2 ^ 64;
  new_bytes = if r.was_new then (c.new_bytes + r.size) % 2 ^ 64 else c.new_bytes;
  unique_blobs = if r.was_new then (c.unique_blobs + 1) % 2 ^ 64 else c.unique_blobs;
})

module _ {PathHash : Type 0} ⦃e : Eq PathHash⦄ (hash : List ℕ → PathHash) where
  -- the loop of `write_manifest`
  unfoldable pub insert_results :
      Option Text → List (Option IngestResult) → Manifest PathHash → Manifest PathHash
  insert_results prefix [] m = m
  insert_results prefix (none ∷ results) m = insert_results prefix results m
  insert_results prefix (some r ∷ results) m =
      insert_results prefix results (insert hash (manifest_key prefix r.relative) (scanned r) m)

  -- the manifest that `write_manifest` saves
  unfoldable pub scan_manifest : Option Text → List (Option IngestResult) → Manifest PathHash
  scan_manifest prefix results = insert_results prefix results new

  -- The manifest that was written, if any, and the response. `files` is the number of files that
  -- the walk found, and `saved` the text of the error of `save`.
  unfoldable pub handle_ingest_full_scan :
      ℕ
      → List (Option IngestResult)
      → Option Text
      → ℕ
      → Text
      → Option Text
      → Option (Manifest PathHash) × VeloResponse
  handle_ingest_full_scan files results saved duration_ms manifest_path prefix =
      let c = count_results results (record { total_bytes = 0; new_bytes = 0; unique_blobs = 0 }) in
      if files == 0
      then (
        none,
        ingest_ack (record {
          files = 0;
          blobs = 0;
          new_bytes = 0;
          total_bytes = 0;
          duration_ms = 0;
          manifest_path = manifest_path;
        }),
      )
      else elim saved [
        | some text ↦ (
          none,
          error (
              new_error io_error (
                codes "Failed to write manifest: " ++ (codes "Failed to save manifest: " ++ text))),
        )
        | none ↦ (
          some (scan_manifest prefix results),
          ingest_ack (record {
            files = files;
            blobs = c.unique_blobs;
            new_bytes = c.new_bytes;
            total_bytes = c.total_bytes;
            duration_ms = duration_ms;
            manifest_path = manifest_path;
          }),
        )
      ]
