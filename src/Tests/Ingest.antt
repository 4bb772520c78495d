-- ===== src/Tests/Ingest.antt =====
-- The queue and the handler of events at concrete inputs.
use mathlib.Core.Bool.{Bool-set}
use mathlib.Core.List.{Permᴰ, Pairwise, Mem, not-mem-nil, eq-or-mem_of_mem-cons}
use mathlib.Core.Logic.Or
use velo_rift.Ingest.{event_path, IngestEvent, file_changed, removed, IngestQueue, is_recent}
use velo_rift.Ingest.Events.{IsKey, shown_after, handle-shown}
use velo_rift.Ingest.Batch.{Job, IsApart, process_batch, process_batch-order}
use velo_rift.Ingest.Consumer.{
  Poll, got, timed_out, run_consumer, received, processed, joined, IsBatch, run_consumer-batches,
}
use velo_rift.Ingest.Deduplication.{deliver, deliver-once}
use velo_rift.Ingest.Handler.{Answers, IngestHandler, handle, to_manifest_key, below_root}
use velo_rift.Manifest.Lmdb.{compute_path_hash, get}
use velo_rift.Manifest.Types.{normalize_vfs_path}
use velo_rift.Prelude.Assoc.{nat_eq}
use velo_rift.Prelude.Text.{Text, codes, text_beq, strip_prefix}
use velo_rift.Prelude.{◌≡◌, refl, sym, subst, List, [], ◌∷◌, ◌++◌, All, arith, some, if◌then◌else◌}
use velo_rift.Tests.Manifest.{backend, name_ab, one_file}

abbrev on_a : IngestEvent
on_a = file_changed (codes "/p/a")

abbrev on_b : IngestEvent
on_b = removed (codes "/p/b")

abbrev two_paths : IngestQueue
two_paths = record { rx = on_a ∷ on_b ∷ on_a ∷ []; state = 0; recent = [] }

-- of `a`, `b` and `a` again the first two are delivered
two_delivered : deliver 3 two_paths ≡ on_a ∷ on_b ∷ []
unfolding is_recent text_beq
two_delivered = (deliver-once two_paths).0

abbrev handler : IngestHandler
handler = record {
  project_root = codes "/p";
  patterns = record { tier1_patterns = []; tier2_patterns = [] };
}

abbrev answers : Answers
answers = record { stored = some (1 ∷ [], 3); metadata = some (4, 0x1a4) }

handle-shown_example :
    (key : Text) × IsKey handler.project_root (event_path on_a) key
    × (get backend name_ab (handle backend handler answers on_a one_file) ≡ (
        if nat_eq.beq (compute_path_hash backend key) (compute_path_hash backend name_ab)
        then shown_after handler answers key on_a (get backend name_ab one_file)
        else get backend name_ab one_file))
handle-shown_example = handle-shown backend handler answers on_a one_file name_ab

abbrev jobs : List Job
jobs = (answers, on_a) ∷ (answers, on_b) ∷ []

abbrev jobs_swapped : List Job
jobs_swapped = (answers, on_b) ∷ (answers, on_a) ∷ []

jobs-IsApart : Pairwise (IsApart backend handler) jobs
jobs-IsApart = Pairwise.cons each (Pairwise.cons (λ y m. absurd (not-mem-nil m)) Pairwise.nil)
  where
    apart : IsApart backend handler (answers, on_a) (answers, on_b)
    apart =
        unfold compute_path_hash normalize_vfs_path to_manifest_key below_root strip_prefix in refl

    each :
        (job : Job) → Mem job ((answers, on_b) ∷ []) → IsApart backend handler (answers, on_a) job
    each job m =
        Or.elim (Bool-set _ _) (eq-or-mem_of_mem-cons m)
          (λ same. subst (IsApart backend handler (answers, on_a)) (sym same) apart)
          (λ m'. absurd (not-mem-nil m'))

process_batch-order_example :
    get backend name_ab (process_batch backend handler jobs one_file)
    ≡ get backend name_ab (process_batch backend handler jobs_swapped one_file)
process_batch-order_example =
    process_batch-order backend handler jobs jobs_swapped one_file name_ab jobs-IsApart
      (Permᴰ.swap refl refl)

abbrev polls : List Poll
polls = got on_a ∷ got on_b ∷ got on_a ∷ timed_out ∷ got on_b ∷ []

run_consumer-batches_example :
    let out = run_consumer 2 [] polls in
    (joined out.batches ++ out.batch ≡ received polls) × All (IsBatch 2) out.batches
run_consumer-batches_example = run_consumer-batches 2 polls (omega arith)

-- the first batch is full, the second ends with the time, and the third is being filled
three_batches :
    run_consumer 2 [] polls
    ≡ record { batches = (on_a ∷ on_b ∷ []) ∷ (on_a ∷ []) ∷ []; batch = on_b ∷ [] }
unfolding run_consumer processed
three_batches = refl
