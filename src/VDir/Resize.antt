-- ===== src/VDir/Resize.antt =====
-- `resize` keeps every entry.
use velo_rift.Prelude.{
  ℕ, ◌+◌, ◌%◌, ◌^◌, ◌≤◌, ◌<◌, ◌≡◌, refl, sym, ap, ◌∙◌, subst, true, false, List, [], ◌∷◌, Option,
  none, some, arith, ==_refl, if◌then◌else◌, Option-cases, inl, inr, length, set, replicate,
  length-replicate, get_or-replicate, count_if-replicate, take, take-length, length-filter_if,
}
use velo_rift.VDir.Placed.{is_occupied, IsPlaced, find_slot_total, lookup_slots_sound}
use velo_rift.VDir.Snapshot.{
  occurs, find_hash, occupied, occurs-occupied_zero, find_hash-eq_none, occupied_once,
  find_hash-lookup,
}
use velo_rift.VDir.Store.{
  VDir, Io, io_error, succ_u32, lookup, begin_write, end_write, reinsert, resize, snapshot,
  remapped, finish_resize, ok, err,
}
use velo_rift.VDir.Table.{find_slot, lookup_slots}
use velo_rift.VDir.Types.{VDirEntry, default_entry, is_empty}
use velo_rift.VDir.Write.{IsTable, IsValid, added, set-IsTable}

abbrev pub or_else : Option VDirEntry → Option VDirEntry → Option VDirEntry
or_else (some a) b = some a
or_else none b = b

-- the result of re-inserting `es`
pub record Filled (v : VDir) (es : List VDirEntry) (w : VDir) : Type 0 where
  pub table : IsTable w
  pub reads : (g : ℕ) → lookup w g ≡ or_else (lookup v g) (find_hash g es)
  pub capacity : w.capacity ≡ v.capacity
  pub count : w.header.entry_count ≡ v.header.entry_count + length es
  pub recorded : w.header.table_capacity ≡ v.header.table_capacity
  pub generation : w.header.generation ≡ v.header.generation

-- what a `resize` to `n` slots that maps the file leaves behind
pub record Resized (v : VDir) (n : ℕ) (w : VDir) : Type 0 where
  pub valid : IsValid w
  pub reads : (g : ℕ) → lookup w g ≡ lookup v g
  pub capacity : w.capacity ≡ n
  pub count : w.header.entry_count ≡ v.header.entry_count
  pub generation : w.header.generation ≡ (v.header.generation + 2) % 2 ^ 64

module _ (crc32 : List ℕ → ℕ) where
  -- Entries of different hashes that the table does not hold all find a slot.
  reinsert-Filled :
      (es : List VDirEntry) (v : VDir)
      → IsTable v
      → v.header.entry_count + length es < v.capacity
      → ((g : ℕ) → occurs g es ≤ 1)
      → occurs 0 es ≡ 0
      → ((g : ℕ) → 0 < occurs g es → lookup v g ≡ none)
      → (w : VDir) × (reinsert crc32 es v ≡ (w, ok tt)) × Filled v es w
  unfolding reinsert find_hash occurs
  reinsert-Filled [] v t room once nz fresh = (
    v,
    refl,
    record {
      table = t;
      reads = λ g. ground arith;
      capacity = refl;
      count = omega arith;
      recorded = refl;
      generation = refl;
    },
  )
  reinsert-Filled (e ∷ es) v t room once nz fresh =
      let (s, f) = find_slot_total v.slots e.path_hash (omega (arith, t.counted, t.width)) in
      let f' : find_slot v.slots v.capacity e.path_hash ≡ some s =
        subst (λ m. find_slot v.slots m e.path_hash ≡ some s) t.width f in
      let new : is_empty e ≡ false = ground arith in
      let absent : lookup v e.path_hash ≡ none =
        fresh e.path_hash (ground (arith, ==_refl e.path_hash)) in
      let w : VDir = record {
        header = record v.header { entry_count = succ_u32 v.header.entry_count };
        slots = set v.slots s e;
        capacity = v.capacity;
      } in
      let n : w.header.entry_count ≡ v.header.entry_count + added v e =
        rw absent (omega (arith, t.small)) in
      let (table, reads) = set-IsTable t e s w new f' refl refl n in
      let (u, run, rest) =
        reinsert-Filled es w table (rw n (rw absent (omega arith)))
          (λ g. let o = once g in ground arith) (ground arith)
          (λ g lt. let o = once g in let a = fresh g in let r = reads g in ground arith) in
      (
        u,
        rw (f', reinsert) run,
        record {
          table = rest.table;
          reads = λ g.
              let r = rest.reads g in
              let r' = reads g in
              let z = find_hash-eq_none g es in let o = once g in let a = fresh g in ground arith;
          capacity = rest.capacity;
          count = let c = rest.count in rw (c, n, absent) (omega arith);
          recorded = rest.recorded;
          generation = rest.generation;
        },
      )

  pub cleared-IsTable :
      (v : VDir) (n : ℕ)
      → 0 < n
      → n < 2 ^ 32
      → v.slots ≡ replicate n default_entry
      → v.capacity ≡ n
      → v.header.entry_count ≡ 0
      → IsTable v × ((g : ℕ) → lookup v g ≡ none)
  cleared-IsTable v n pos small sl c z = (
    record {
      pos = omega arith;
      small = omega arith;
      width = rw (sl, c) (length-replicate n default_entry);
      counted = rw (sl, z) (sym (count_if-replicate is_occupied n default_entry refl));
      placed =
          rw sl λ s lt full. let d = get_or-replicate n s default_entry in absurd (ground arith);
    },
    rw (sl, c)
        λ g. elim (Option-cases (lookup_slots (replicate n default_entry) n g)) [
          | inl e ↦ e
          | inr (x, e) ↦
              let (s, lt, at, full, h) = lookup_slots_sound (replicate n default_entry) n g x e in
              let d = get_or-replicate n s default_entry in absurd (ground arith)
        ],
  )

  pub resize-no_remap :
      (io : Io) (v : VDir) (n : ℕ) → io.remap ≡ false → resize crc32 io v n ≡ (v, err io_error)
  unfolding resize
  resize-no_remap io v n e = rw (e, resize)

  snapshot-occupied : {v : VDir} → IsTable v → snapshot v ≡ occupied v.slots
  unfolding snapshot
  snapshot-occupied {v} t =
      ap occupied (subst (λ m. take m v.slots ≡ v.slots) t.width (take-length v.slots))

  resize_run :
      (io : Io) (v : VDir) (n : ℕ)
      → io.remap ≡ true
      → resize crc32 io v n
        ≡ finish_resize crc32 io (reinsert crc32 (snapshot v) (remapped crc32 v n))
  unfolding resize
  resize_run io v n e = rw (e, resize) refl

  -- closing the write of a filled table
  end_write-Resized :
      {v : VDir} (n : ℕ) (w : VDir)
      → IsValid v
      → v.capacity ≤ n
      → n < 2 ^ 32
      → Filled (remapped crc32 v n) (occupied v.slots) w
      → ((g : ℕ) → lookup (remapped crc32 v n) g ≡ none)
      → Resized v n (end_write crc32 w)
  unfolding remapped begin_write end_write
  end_write-Resized {v} n w valid grows small f blank =
      let t = valid.table in
      let size = length-filter_if is_occupied v.slots in
      let placed : IsPlaced v.slots (length v.slots) = rw t.width t.placed in
      record {
        valid = record {
          table = record {
            pos = f.table.pos;
            small = f.table.small;
            width = f.table.width;
            counted = f.table.counted;
            placed = f.table.placed;
          };
          quiet = omega (arith, f.generation, valid.quiet);
          recorded = omega (arith, f.recorded, f.capacity);
          load = omega (arith, f.count, f.capacity, size, t.counted, valid.load);
        };
        reads = λ g. f.reads g ∙ rw (blank g) (find_hash-lookup v.slots placed g ∙ rw t.width refl);
        capacity = f.capacity;
        count = omega (arith, f.count, size, t.counted);
        generation = omega (arith, f.generation);
      }

  -- A growing `resize` that maps the file leaves a valid table that reads as before.
  pub resize-Resized :
      (io : Io) {v : VDir} (n : ℕ)
      → IsValid v
      → v.capacity ≤ n
      → n < 2 ^ 32
      → io.remap ≡ true
      → (w : VDir) × (resize crc32 io v n ≡ (w, if io.flush then ok tt else err io_error))
        × Resized v n w
  unfolding finish_resize
  resize-Resized io {v} n valid grows small remap =
      let t = valid.table in
      let placed : IsPlaced v.slots (length v.slots) = rw t.width t.placed in
      let size = length-filter_if is_occupied v.slots in
      let c = remapped crc32 v n in
      let (table, blank) =
        cleared-IsTable c n (omega (arith, t.pos)) small (unfold remapped in refl)
          (unfold remapped in refl) (unfold remapped in refl) in
      let zero_count : c.header.entry_count ≡ 0 = unfold remapped in refl in
      let wide : c.capacity ≡ n = unfold remapped in refl in
      let (w, run, f) =
        reinsert-Filled (occupied v.slots) c table
          (omega (arith, size, t.counted, valid.load, t.pos, zero_count, wide))
          (occupied_once v.slots placed) (occurs-occupied_zero v.slots) (λ g _. blank g) in
      (
        end_write crc32 w,
        resize_run io v n remap
            ∙ ap (λ l. finish_resize crc32 io (reinsert crc32 l c)) (snapshot-occupied t)
            ∙ ap (finish_resize crc32 io) run,
        end_write-Resized n w valid grows small f blank,
      )
