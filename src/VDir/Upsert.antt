-- ===== src/VDir/Upsert.antt =====
-- `upsert`: every branch, the growth of the table and its failures included.
use velo_rift.Prelude.{
  ◌⊎◌, subst, Bool, ℕ, ◌+◌, ◌*◌, ◌^◌, ◌≤◌, ◌<◌, ◌≡◌, ◌≢◌, refl, ap, ◌∙◌, true, false, ◌&&◌, List,
  Option, some, arith, ◌==◌, if◌then◌else◌, Bool-cases, inl, inr,
}
use velo_rift.VDir.Resize.{Resized, resize-no_remap, resize-Resized}
use velo_rift.VDir.Store.{
  VDir, Io, io_error, vdir_full, is_none, lookup, insert_found, insert_after, resize, upsert,
  over_loaded, Result, ok, err,
}
use velo_rift.VDir.Types.{VDirEntry, is_empty}
use velo_rift.VDir.Write.{IsValid, added, Writes, insert_found-Writes}

-- what a hash reads after an `upsert` of `e` into `v` with this result
abbrev pub reads_after : Result (Unit {0}) → VDir → VDirEntry → ℕ → Option VDirEntry
reads_after (ok _) v e g = if e.path_hash == g then some e else lookup v g
reads_after (err _) v e g = lookup v g

abbrev pub count_after : Result (Unit {0}) → VDir → VDirEntry → ℕ
count_after (ok _) v e = v.header.entry_count + added v e
count_after (err _) v e = v.header.entry_count

pub record Upserts (io : Io) (v : VDir) (e : VDirEntry) (out : VDir × Result (Unit {0}))
    : Type 0 where
  pub valid : IsValid out.0
  pub reads : (g : ℕ) → lookup out.0 g ≡ reads_after out.1 v e g
  pub count : out.0.header.entry_count ≡ count_after out.1 v e
  pub never_full : out.1 ≢ err vdir_full
  pub succeeds : (out.1 ≡ ok tt) ⊎ ((io.remap && io.flush) ≡ false)

module _ (crc32 : List ℕ → ℕ) where
  Writes-IsValid :
      {v w : VDir} {e : VDirEntry}
      → IsValid v
      → Writes v e w
      → 4 * (v.header.entry_count + added v e) ≤ 3 * v.capacity
      → IsValid w
  Writes-IsValid valid d load = record {
    table = d.table;
    quiet = omega (arith, d.generation, valid.quiet);
    recorded = omega (arith, d.recorded, d.capacity, valid.recorded);
    load = omega (arith, d.count, d.capacity, load);
  }

  insert_found-Upserts :
      (io : Io) {v : VDir} (e : VDirEntry)
      → IsValid v
      → is_empty e ≡ false
      → 4 * (v.header.entry_count + added v e) ≤ 3 * v.capacity
      → Upserts io v e (insert_found crc32 v e)
  insert_found-Upserts io {v} e valid new load =
      let t = valid.table in
      let (w, run, d) =
        insert_found-Writes crc32 t e new (omega (arith, t.counted, valid.load, t.pos)) in
      rw run (record {
        valid = Writes-IsValid valid d load;
        reads = d.reads;
        count = d.count;
        never_full = λ h. cc h;
        succeeds = inl refl;
      })

  upsert_grows :
      (io : Io) (v : VDir) (e : VDirEntry)
      → (is_none (lookup v e.path_hash) && over_loaded v.header.entry_count v.capacity) ≡ true
      → upsert crc32 io v e ≡ insert_after crc32 e (resize crc32 io v (v.capacity * 2))
  unfolding upsert
  upsert_grows io v e h = rw (h, upsert) refl

  upsert_fits :
      (io : Io) (v : VDir) (e : VDirEntry)
      → (is_none (lookup v e.path_hash) && over_loaded v.header.entry_count v.capacity) ≡ false
      → upsert crc32 io v e ≡ insert_found crc32 v e
  unfolding upsert
  upsert_fits io v e h = rw (h, upsert) refl

  -- the failed and the successful growth, for a table that reads as `v`
  failed-Upserts :
      (io : Io) {v w : VDir} (e : VDirEntry) (out : VDir × Result (Unit {0}))
      → out ≡ (w, err io_error)
      → IsValid w
      → ((g : ℕ) → lookup w g ≡ lookup v g)
      → w.header.entry_count ≡ v.header.entry_count
      → (io.remap ≡ true → io.flush ≡ true → ⊥)
      → Upserts io v e out
  failed-Upserts io e out run valid reads count faulty = rw run (record {
    valid = valid;
    reads = reads;
    count = count;
    never_full = λ h. cc h;
    succeeds = elim (Bool-cases (io.remap && io.flush)) [
      | inl t ↦ absurd (faulty (ground arith) (ground arith))
      | inr f ↦ inr f
    ];
  })

  grown-Upserts :
      (io : Io) {v w : VDir} (e : VDirEntry)
      → IsValid v
      → is_empty e ≡ false
      → Resized v (v.capacity * 2) w
      → Upserts io v e (insert_found crc32 w e)
  grown-Upserts io {v} {w} e valid new r =
      let absent = r.reads e.path_hash in
      let more : 4 * (w.header.entry_count + added w e) ≤ 3 * w.capacity =
        ground (arith, valid.load, valid.table.pos, r.count, r.capacity) in
      let u = insert_found-Upserts io e r.valid new more in
      record {
        valid = u.valid;
        reads = λ g. u.reads g ∙ reads_same (insert_found crc32 w e).1 g r;
        count = u.count ∙ count_same (insert_found crc32 w e).1 r;
        never_full = u.never_full;
        succeeds = u.succeeds;
      }
    where
      reads_same :
          (x : Result (Unit {0})) (g : ℕ)
          → Resized v (v.capacity * 2) w
          → reads_after x w e g ≡ reads_after x v e g
      reads_same (ok _) g r = rw (r.reads g) refl
      reads_same (err _) g r = r.reads g

      count_same :
          (x : Result (Unit {0}))
          → Resized v (v.capacity * 2) w
          → count_after x w e ≡ count_after x v e
      count_same (ok _) r = rw (r.reads e.path_hash, r.count) refl
      count_same (err _) r = r.count

  -- An `upsert` of a hash other than 0 into a valid table, while twice its capacity fits 32 bits,
  -- keeps the table valid on every branch, never finds it full, and either stores the entry under
  -- its hash or, when the operating system fails, changes no lookup.
  pub upsert-Upserts :
      (io : Io) {v : VDir} (e : VDirEntry)
      → IsValid v
      → e.path_hash ≢ 0
      → 2 * v.capacity < 2 ^ 32
      → Upserts io v e (upsert crc32 io v e)
  unfolding insert_after
  upsert-Upserts io {v} e valid nz small =
      let new : is_empty e ≡ false = ground arith in
      elim (Bool-cases
        (is_none (lookup v e.path_hash) && over_loaded v.header.entry_count v.capacity)) [
          | inr fits ↦
              rw (upsert_fits io v e fits)
                (insert_found-Upserts io e valid new (ground (arith, valid.load)))
          | inl grows ↦ elim (Bool-cases io.remap) [
            | inr no_map ↦
                failed-Upserts io e (upsert crc32 io v e)
                  (upsert_grows io v e grows
                    ∙ ap (insert_after crc32 e)
                        (resize-no_remap crc32 io v (v.capacity * 2) no_map))
                  valid (λ g. refl) refl (λ a b. cc)
            | inl map ↦
                let (w, run, r) =
                  resize-Resized crc32 io (v.capacity * 2) valid (omega arith) (omega arith) map in
                let answer : (b : Bool)
                    → io.flush ≡ b
                    → resize crc32 io v (v.capacity * 2) ≡ (w, if b then ok tt else err io_error) =
                  λ b h.
                    subst
                      (λ m.
                        resize crc32 io v (v.capacity * 2) ≡ (w, if m then ok tt else err io_error))
                      h run in
                elim (Bool-cases io.flush) [
                  | inl flushed ↦
                      let run' : upsert crc32 io v e ≡ insert_found crc32 w e =
                        upsert_grows io v e grows
                        ∙ ap (insert_after crc32 e) (answer true flushed) in
                      rw run' (grown-Upserts io e valid new r)
                  | inr lost ↦
                      failed-Upserts io e (upsert crc32 io v e)
                        (upsert_grows io v e grows ∙ ap (insert_after crc32 e) (answer false lost))
                        r.valid r.reads r.count (λ a b. cc)
                ]
          ]
        ]
