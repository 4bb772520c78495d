-- ===== src/Commands/ScanLaws.antt =====
-- The manifest and the counts of a full scan (crates/vrift-vdird/src/commands.rs).
use velo_rift.Commands.Scan.{
  IngestResult, manifest_key, scanned, ScanCounts, count_results, insert_results, scan_manifest,
  handle_ingest_full_scan,
}
use velo_rift.Ipc.Messages.{ingest_ack}
use velo_rift.Manifest.Memory.{Manifest, new, insert, get, key, IsManifest, get-insert}
use velo_rift.Manifest.Types.{VnodeEntry}
use velo_rift.Prelude.Assoc.{Eq, lookup}
use velo_rift.Prelude.Text.{Text}
use velo_rift.Prelude.{
  ◌≡◌, refl, ap, ◌∙◌, ℕ, ◌+◌, ◌%◌, ◌^◌, ◌≤◌, ◌<◌, ◌==◌, List, [], ◌∷◌, Option, none, some, false,
  if◌then◌else◌, arith, length, Bool-cases, inl, inr,
}

-- the sizes of the results that are not errors, without overflow
abbrev pub sum_sizes : List (Option IngestResult) → ℕ
sum_sizes [] = 0
sum_sizes (none ∷ results) = sum_sizes results
sum_sizes (some r ∷ results) = r.size + sum_sizes results

abbrev pub sum_new : List (Option IngestResult) → ℕ
sum_new [] = 0
sum_new (none ∷ results) = sum_new results
sum_new (some r ∷ results) = (if r.was_new then r.size else 0) + sum_new results

abbrev pub count_new : List (Option IngestResult) → ℕ
count_new [] = 0
count_new (none ∷ results) = count_new results
count_new (some r ∷ results) = (if r.was_new then 1 else 0) + count_new results

new-le : (results : List (Option IngestResult)) → sum_new results ≤ sum_sizes results
new-le [] = omega arith
new-le (none ∷ results) = new-le results
new-le (some r ∷ results) = ground (arith, new-le results)

blobs-le : (results : List (Option IngestResult)) → count_new results ≤ length results
blobs-le [] = omega arith
blobs-le (none ∷ results) = omega (arith, blobs-le results)
blobs-le (some r ∷ results) = ground (arith, blobs-le results)

count_results-sums :
    (results : List (Option IngestResult)) (c : ScanCounts)
    → c.total_bytes + sum_sizes results < 2 ^ 64
    → c.new_bytes + sum_new results < 2 ^ 64
    → c.unique_blobs + length results < 2 ^ 64
    → ((count_results results c).total_bytes ≡ c.total_bytes + sum_sizes results)
      × ((count_results results c).new_bytes ≡ c.new_bytes + sum_new results)
      × ((count_results results c).unique_blobs ≡ c.unique_blobs + count_new results)
unfolding count_results
count_results-sums [] c total new_sum blobs = (omega arith, omega arith, omega arith)
count_results-sums (none ∷ results) c total new_sum blobs =
    count_results-sums results c total new_sum (omega arith)
count_results-sums (some r ∷ results) c total new_sum blobs = elim (Bool-cases r.was_new) [
  | inl t ↦
      let (a, b, n) =
        count_results-sums results
          (record {
            total_bytes = (c.total_bytes + r.size) % 2 ^ 64;
            new_bytes = (c.new_bytes + r.size) % 2 ^ 64;
            unique_blobs = (c.unique_blobs + 1) % 2 ^ 64;
          })
          (omega arith) (ground arith) (omega arith) in
      rw t (omega (arith, a), ground (arith, b), ground (arith, n))
  | inr f ↦
      let (a, b, n) =
        count_results-sums results
          (record {
            total_bytes = (c.total_bytes + r.size) % 2 ^ 64;
            new_bytes = c.new_bytes;
            unique_blobs = c.unique_blobs;
          })
          (omega arith) (ground arith) (omega arith) in
      rw f (omega (arith, a), ground (arith, b), ground (arith, n))
]

module _ {PathHash : Type 0} ⦃e : Eq PathHash⦄ (hash : List ℕ → PathHash) where
  -- the last result whose key has this hash
  abbrev pub last_scanned :
      PathHash → Option Text → List (Option IngestResult) → Option VnodeEntry → Option VnodeEntry
  last_scanned h prefix [] before = before
  last_scanned h prefix (none ∷ results) before = last_scanned h prefix results before
  last_scanned h prefix (some r ∷ results) before =
      last_scanned h prefix results
        (if e.beq (key hash (manifest_key prefix r.relative)) h then some (scanned r) else before)

  insert_results-get :
      (prefix : Option Text) (results : List (Option IngestResult)) (m : Manifest PathHash)
      (path : Text)
      → IsManifest hash m
      → IsManifest hash (insert_results hash prefix results m)
        × (get hash path (insert_results hash prefix results m)
            ≡ last_scanned (key hash path) prefix results (get hash path m))
  unfolding insert_results
  insert_results-get prefix [] m path is = (is, refl)
  insert_results-get prefix (none ∷ results) m path is = insert_results-get prefix results m path is
  insert_results-get prefix (some r ∷ results) m path is =
      let k = manifest_key prefix r.relative in
      let (is', seen, _) = get-insert hash k path (scanned r) m is in
      let (done, last) = insert_results-get prefix results (insert hash k (scanned r) m) path is' in
      (done, last ∙ ap (last_scanned (key hash path) prefix results) seen)

  -- The manifest that a full scan writes has its two maps in step, and a path reads as the last
  -- result whose key has the hash of the path, and as absent if there is none.
  pub scan_manifest-get :
      (prefix : Option Text) (results : List (Option IngestResult)) (path : Text)
      → IsManifest hash (scan_manifest hash prefix results)
        × (get hash path (scan_manifest hash prefix results)
            ≡ last_scanned (key hash path) prefix results none)
  unfolding scan_manifest new get lookup
  scan_manifest-get prefix results path =
      let empty_is : IsManifest hash new = record {
        entries_map = tt;
        paths_map = tt;
        same_keys = λ h. refl;
      } in
      let (is, seen) = insert_results-get prefix results new path empty_is in (is, seen)

  -- A scan of some files whose manifest is saved answers with the sums of the sizes, of the new
  -- sizes and of the new blobs, if the sizes fit 64 bits together. There are at most as many new
  -- bytes as bytes.
  pub handle_ingest_full_scan-sums :
      (files : ℕ) (results : List (Option IngestResult)) (duration_ms : ℕ) (path : Text)
      (prefix : Option Text)
      → 0 < files
      → length results ≤ files
      → files < 2 ^ 64
      → sum_sizes results < 2 ^ 64
      → (handle_ingest_full_scan hash files results none duration_ms path prefix ≡ (
        some (scan_manifest hash prefix results),
        ingest_ack (record {
          files = files;
          blobs = count_new results;
          new_bytes = sum_new results;
          total_bytes = sum_sizes results;
          duration_ms = duration_ms;
          manifest_path = path;
        }),
      ))
        × (sum_new results ≤ sum_sizes results)
        × (count_new results ≤ files)
  unfolding handle_ingest_full_scan
  handle_ingest_full_scan-sums files results duration_ms path prefix some_files all fits sizes =
      let start : ScanCounts = record { total_bytes = 0; new_bytes = 0; unique_blobs = 0 } in
      let le = new-le results in
      let (a, b, n) =
        count_results-sums results start (omega arith) (omega (arith, le)) (omega arith) in
      let found : (files == 0) ≡ false = ground arith in
      let total : (count_results results start).total_bytes ≡ sum_sizes results =
        omega (arith, a) in
      let fresh : (count_results results start).new_bytes ≡ sum_new results = omega (arith, b) in
      let blobs : (count_results results start).unique_blobs ≡ count_new results =
        omega (arith, n) in
      (rw (found, total, fresh, blobs) refl, le, omega (arith, blobs-le results))
