-- ===== src/Ingest/Consumer.antt =====
-- `run_consumer` of crates/vrift-vdird/src/ingest.rs: how the delivered events are cut into batches.
-- What each wait for the queue ends in is an argument; with a batch size of 0 the source never
-- waits, and the loop runs without an end.
use mathlib.Core.List.{append_assoc, append-nil}
use velo_rift.Ingest.{IngestEvent}
use velo_rift.Prelude.{
  ℕ, ◌+◌, ◌≤◌, ◌<◌, ◌≡◌, refl, sym, ap, ◌∙◌, subst, List, [], ◌∷◌, ◌++◌, if◌then◌else◌, ltb, length,
  All, arith, Bool-cases, inl, inr, length-append,
}

-- `timeout(remaining, queue.next())`: an event, the end of the channel, or the end of the time
pub data Poll : Type 0 where
  got : IngestEvent → Poll
  closed : Poll
  timed_out : Poll

-- the batches that were processed, and the events of the one that is being filled
pub record Consumed : Type 0 where
  pub batches : List (List IngestEvent)
  pub batch : List IngestEvent

-- `process_batch` unless the batch is empty
unfoldable pub processed : List IngestEvent → Consumed → Consumed
processed [] out = out
processed (event ∷ batch) out = record {
  batches = (event ∷ batch) ∷ out.batches;
  batch = out.batch;
}

unfoldable pub run_consumer : ℕ → List IngestEvent → List Poll → Consumed
run_consumer size batch [] = record { batches = []; batch = batch }
run_consumer size batch (got event ∷ polls) =
    let full = batch ++ (event ∷ []) in
    let go_on = run_consumer size full polls in
    let next = run_consumer size [] polls in
    if ltb (length full) size then go_on else processed full next
run_consumer size batch (timed_out ∷ polls) = processed batch (run_consumer size [] polls)
run_consumer size batch (closed ∷ polls) = processed batch (record { batches = []; batch = [] })

-- the events that the queue delivers until the channel is closed
abbrev pub received : List Poll → List IngestEvent
received [] = []
received (got event ∷ polls) = event ∷ received polls
received (timed_out ∷ polls) = received polls
received (closed ∷ polls) = []

abbrev pub joined : List (List IngestEvent) → List IngestEvent
joined [] = []
joined (batch ∷ batches) = batch ++ joined batches

abbrev pub IsBatch : ℕ → List IngestEvent → Type 0
IsBatch size batch = (0 < length batch) × (length batch ≤ size)

-- all events that came are in the batches, or in the one that is being filled
abbrev Holds : ℕ → List IngestEvent → Consumed → Type 0
Holds size events out = (joined out.batches ++ out.batch ≡ events) × All (IsBatch size) out.batches

processed-Holds :
    (size : ℕ) (batch rest : List IngestEvent) (out : Consumed)
    → length batch ≤ size
    → Holds size rest out
    → Holds size (batch ++ rest) (processed batch out)
unfolding processed
processed-Holds size [] rest out le h = h
processed-Holds size (event ∷ batch) rest out le h = (
  append_assoc (event ∷ batch) (joined out.batches) out.batch
      ∙ ap (λ (l : List IngestEvent). (event ∷ batch) ++ l) h.0,
  ((omega arith, le), h.1),
)

run_consumer-Holds :
    (size : ℕ) (batch : List IngestEvent) (polls : List Poll)
    → length batch < size
    → Holds size (batch ++ received polls) (run_consumer size batch polls)
unfolding run_consumer
run_consumer-Holds size batch [] lt = (sym (append-nil batch), tt)
run_consumer-Holds size batch (closed ∷ polls) lt =
    processed-Holds size batch [] (record { batches = []; batch = [] }) (omega arith) (refl, tt)
run_consumer-Holds size batch (timed_out ∷ polls) lt =
    processed-Holds size batch (received polls) (run_consumer size [] polls) (omega arith)
      (run_consumer-Holds size [] polls (omega arith))
run_consumer-Holds size batch (got event ∷ polls) lt =
    let full = batch ++ (event ∷ []) in
    let len : length full ≡ length batch + 1 = length-append batch (event ∷ []) in
    let regroup = append_assoc batch (event ∷ []) (received polls) in
    elim (Bool-cases (ltb (length full) size)) [
      | inl t ↦ rw t (
          subst (λ l. Holds size l (run_consumer size full polls)) regroup
            (run_consumer-Holds size full polls (ground (arith, t))))
      | inr f ↦ rw f (
          subst (λ l. Holds size l (processed full (run_consumer size [] polls))) regroup
            (processed-Holds size full (received polls) (run_consumer size [] polls)
              (omega (arith, len)) (run_consumer-Holds size [] polls (omega arith))))
    ]

-- With a batch size above 0 the consumer loses no event and keeps their order: the batches that it
-- has processed, and the one that it fills, are together the events that the queue delivered until
-- the channel was closed. No batch is empty, and none is larger than the batch size.
pub run_consumer-batches :
    (size : ℕ) (polls : List Poll)
    → 0 < size
    → let out = run_consumer size [] polls in
      (joined out.batches ++ out.batch ≡ received polls) × All (IsBatch size) out.batches
run_consumer-batches size polls pos = run_consumer-Holds size [] polls (omega arith)
