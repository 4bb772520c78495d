-- ===== src/Ingest/Batch.antt =====
-- A batch of events, which `process_batch` of crates/vrift-vdird/src/ingest.rs handles in
-- concurrent tasks: in the order in which the tasks reach the manifest.
use mathlib.Core.Bool.{Bool-set}
use mathlib.Core.List.Permᴰ as Permutation
use mathlib.Core.List.{Permᴰ, Pairwise, mem-cons_self}
use velo_rift.Ingest.{IngestEvent}
use velo_rift.Ingest.Applied.{event_hash, entry_after, handle-get, handle-commute}
use velo_rift.Ingest.Handler.{Answers, IngestHandler, handle}
use velo_rift.Manifest.Lmdb.{Backend, LmdbManifest, compute_path_hash, get}
use velo_rift.Manifest.Types.{ManifestEntry}
use velo_rift.Prelude.Assoc.{Eq}
use velo_rift.Prelude.Text.{Text}
use velo_rift.Prelude.{
  ◌≡◌, refl, sym, ap, ◌∙◌, List, [], ◌∷◌, Option, false, if◌then◌else◌, Bool-cases, inl, inr,
}

-- an event, with what the content store and the file system answer
abbrev pub Job : Type 0
Job = Answers × IngestEvent

module _ {PathHash : Type 0} ⦃e : Eq PathHash⦄ (b : Backend PathHash) (h : IngestHandler) where
  unfoldable pub process_batch : List Job → LmdbManifest b → LmdbManifest b
  process_batch [] m = m
  process_batch ((a, event) ∷ jobs) m = process_batch jobs (handle b h a event m)

  -- the keys of the two events have different hashes
  abbrev pub IsApart : Job → Job → Type 0
  IsApart x y = e.beq (event_hash b h x.1) (event_hash b h y.1) ≡ false

  -- every path shows the same
  abbrev pub Shows : LmdbManifest b → LmdbManifest b → Type 0
  Shows m m' = (q : Text) → get b q m ≡ get b q m'

  IsApart-sym : (x y : Job) → IsApart x y → IsApart y x
  IsApart-sym x y apart = elim (Bool-cases (e.beq (event_hash b h y.1) (event_hash b h x.1))) [
    | inr f ↦ f
    | inl t ↦
        let same = sym ((e.beq_iff (event_hash b h y.1) (event_hash b h x.1)).0 t) in
        let met = (e.beq_iff (event_hash b h x.1) (event_hash b h y.1)).1 same in absurd (cc)
  ]

  process_batch-Shows :
      (jobs : List Job) (m m' : LmdbManifest b)
      → Shows m m'
      → Shows (process_batch jobs m) (process_batch jobs m')
  unfolding process_batch
  process_batch-Shows [] m m' same q = same q
  process_batch-Shows ((a, event) ∷ jobs) m m' same p =
      process_batch-Shows jobs (handle b h a event m) (handle b h a event m')
        (λ q.
          handle-get b h a event m q
          ∙ ap
              (λ (o : Option ManifestEntry).
                if e.beq (event_hash b h event) (compute_path_hash b q)
                then entry_after h a event o
                else o)
              (same q)
          ∙ sym (handle-get b h a event m' q))
        p

  -- Of a batch in which the keys of any two events have different hashes, the tasks may reach the
  -- manifest in any order: every path shows the same afterwards.
  pub process_batch-order :
      (jobs jobs' : List Job) (m : LmdbManifest b) (q : Text)
      → Pairwise IsApart jobs
      → Permᴰ jobs jobs'
      → get b q (process_batch jobs m) ≡ get b q (process_batch jobs' m)
  unfolding process_batch
  process_batch-order _ _ m q apart Permᴰ.nil = refl
  process_batch-order _ _ m q (Pairwise.cons _ rest)
        (Permᴰ.cons {a = x} {l₁ = jobs} {l₂ = jobs'} same order) =
      process_batch-order jobs jobs' (handle b h x.0 x.1 m) q rest order
      ∙ ap (λ (j : Job). get b q (process_batch jobs' (handle b h j.0 j.1 m))) same
  process_batch-order _ _ m q (Pairwise.cons first _)
        (Permᴰ.swap {a = x} {b = y} {a' = y'} {b' = x'} {l = jobs} same same') =
      process_batch-Shows jobs (handle b h y.0 y.1 (handle b h x.0 x.1 m))
        (handle b h x.0 x.1 (handle b h y.0 y.1 m))
        (λ p. handle-commute b h x.0 y.0 x.1 y.1 m p (first y mem-cons_self)) q
      ∙ ap (λ (j : Job). get b q (process_batch jobs (handle b h j.0 j.1 (handle b h y.0 y.1 m))))
          same
      ∙ ap (λ (j : Job). get b q (process_batch jobs (handle b h x'.0 x'.1 (handle b h j.0 j.1 m))))
          same'
  process_batch-order jobs jobs' m q apart (Permᴰ.trans {l₂ = between} order order') =
      process_batch-order jobs between m q apart order
      ∙ process_batch-order between jobs' m q
          (Permutation.pairwise (λ x y. Bool-set _ _) IsApart-sym order apart) order'
