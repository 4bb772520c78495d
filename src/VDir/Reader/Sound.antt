-- ===== src/VDir/Reader/Sound.antt =====
-- What the seqlock reader returns, beside a writer and without one.
use velo_rift.Prelude.{
  ℕ, zero, suc, ◌+◌, ◌-◌, ◌*◌, ◌%◌, ◌≤◌, ◌<◌, ◌≡◌, refl, sym, ap, ◌∙◌, subst, true, false, Option,
  none, some, arith, ◌==◌, ==_iff, Bool-cases, inl, inr, ltb,
}
use velo_rift.Prelude.Loop.{for_return, for_return_congr, for_return-map, map_option}
use velo_rift.VDir.Probe.{probe-lt}
use velo_rift.VDir.Table.{probe, answers, or_none, lookup_slots}
use velo_rift.VDir.Types.{VDirEntry, vdir_magic, vdir_header_size}
use velo_rift.VDir.Reader.{
  Mapping, VDirStatResult, stat_of, vdir_entry_size, max_seqlock_spins, reads_per_round,
  probe_entry, scan, seqlock_read, vdir_lookup, WriterStep, idle, begin_write, store, end_write,
}

-- One step either keeps the generation, and then the slots unless it is odd, or raises it.
step_facts :
    (m n : Mapping)
    → WriterStep m n
    → (m.generation ≤ n.generation)
      × (m.generation % 2 ≡ 0 → n.generation ≡ m.generation → n.slots ≡ m.slots)
step_facts m n (idle e) = (ground arith, λ _ _. ap (λ (x : Mapping). x.slots) e)
step_facts m n (begin_write p e) = (ground arith, λ _ q. absurd (ground arith))
step_facts m n (store p e) = (ground arith, λ q _. absurd (ground arith))
step_facts m n (end_write p e) = (ground arith, λ q _. absurd (ground arith))

module _ (memory : ℕ → Mapping) (runs : (s : ℕ) → WriterStep (memory s) (memory (suc s))) where
  generation_mono : (k s : ℕ) → (memory s).generation ≤ (memory (s + k)).generation
  generation_mono zero s = ap_le s
    where
      ap_le : (s : ℕ) → (memory s).generation ≤ (memory (s + 0)).generation
      ap_le s = let e : s + 0 ≡ s = omega arith in rw e (omega arith)
  generation_mono (suc k) s =
      let e : s + suc k ≡ suc (s + k) = omega arith in
      let f = (step_facts _ _ (runs (s + k))).0 in rw e (omega (arith, generation_mono k s))

  -- While the generation is even and stays, so do the slots.
  slots_kept :
      (k s : ℕ)
      → (memory s).generation % 2 ≡ 0
      → (memory (s + k)).generation ≡ (memory s).generation
      → (memory (s + k)).slots ≡ (memory s).slots
  slots_kept zero s even same = let e : s + 0 ≡ s = omega arith in rw e
  slots_kept (suc k) s even same =
      let e : s + suc k ≡ suc (s + k) = omega arith in
      let (up, keep) = step_facts _ _ (runs (s + k)) in
      let low = generation_mono k s in
      let same' : (memory (suc (s + k))).generation ≡ (memory s).generation = rw e at same in
      let mid : (memory (s + k)).generation ≡ (memory s).generation = omega arith in
      rw e (keep (rw mid even) (omega arith) ∙ slots_kept k s even mid)

  -- A scan during which the generation is even and stays is a lookup of one instant.
  scan-lookup :
      (mmap_size capacity table_offset h s : ℕ)
      → table_offset + capacity * vdir_entry_size ≤ mmap_size
      → (memory s).generation % 2 ≡ 0
      → (memory (s + 1 + reads_per_round * capacity)).generation ≡ (memory s).generation
      → scan memory mmap_size capacity table_offset h (s + 1)
        ≡ map_option stat_of (lookup_slots (memory s).slots capacity h)
  unfolding scan lookup_slots
  scan-lookup mmap_size capacity table_offset h s fits even same =
      ap or_none (
        for_return_congr _ _ capacity 0 (λ i lo hi. round i (omega arith))
        ∙ for_return-map (map_option stat_of) (answers (memory s).slots capacity h) capacity 0)
      ∙ joined (for_return capacity 0 (answers (memory s).slots capacity h))
    where
      still :
          (i : ℕ) → i < reads_per_round * capacity → (memory (s + 1 + i)).slots ≡ (memory s).slots
      still i lt =
          let c = reads_per_round * capacity in
          let e : s + 1 + i ≡ s + (1 + i) = omega arith in
          let f : s + 1 + c ≡ s + (1 + i) + (c - i) = omega arith in
          let up = generation_mono (c - i) (s + (1 + i)) in
          let low = generation_mono (1 + i) s in
          let same' : (memory (s + (1 + i) + (c - i))).generation ≡ (memory s).generation =
            subst (λ m. (memory m).generation ≡ (memory s).generation) f same in
          rw e (slots_kept (1 + i) s even (omega arith))

      inside :
          (slot : ℕ)
          → slot < capacity
          → ltb mmap_size (table_offset + slot * vdir_entry_size + vdir_entry_size) ≡ false
      inside slot lt = ground arith

      round :
          (i : ℕ)
          → i < capacity
          → probe_entry mmap_size table_offset
              (λ k. (memory (s + 1 + (reads_per_round * i + k))).slots)
              h
              (probe capacity h i)
            ≡ map_option (map_option stat_of) (answers (memory s).slots capacity h i)
      round i lt =
          let b = inside (probe capacity h i) (probe-lt capacity h i (omega arith)) in
          let now = λ (k : ℕ) (small : k < reads_per_round).
            still (reads_per_round * i + k) (omega arith) in
          rw
            (
              now 0 (omega arith),
              now 1 (omega arith),
              now 2 (omega arith),
              now 3 (omega arith),
              now 4 (omega arith),
              now 5 (omega arith),
              now 6 (omega arith),
              now 7 (omega arith),
              b,
            )
            (ground arith)

      joined :
          (x : Option (Option VDirEntry))
          → or_none (map_option (map_option stat_of) x) ≡ map_option stat_of (or_none x)
      joined none = refl
      joined (some y) = refl

  -- what a read of the seqlock rests on: an instant between writes
  abbrev pub Reads : ℕ → ℕ → VDirStatResult → Type 0
  Reads capacity h r =
      (s : ℕ) × ((memory s).generation % 2 ≡ 0)
      × (map_option stat_of (lookup_slots (memory s).slots capacity h) ≡ some r)

  seqlock_read_sound :
      (mmap_size capacity table_offset h spins t : ℕ) (r : VDirStatResult)
      → table_offset + capacity * vdir_entry_size ≤ mmap_size
      → seqlock_read memory mmap_size capacity table_offset h spins t ≡ some r
      → Reads capacity h r
  unfolding seqlock_read
  seqlock_read_sound mmap_size capacity table_offset h zero t r fits e = cc
  seqlock_read_sound mmap_size capacity table_offset h (suc spins) t r fits e =
      elim (Bool-cases ((memory t).generation % 2 == 1)) [
        | inl odd ↦
            seqlock_read_sound mmap_size capacity table_offset h spins (t + 1) r fits (ground arith)
        | inr even ↦
            elim (Bool-cases
              ((memory t).generation == (memory (t + 1 + reads_per_round * capacity)).generation)) [
                | inr changed ↦
                    seqlock_read_sound mmap_size capacity table_offset h spins
                      (t + 2 + reads_per_round * capacity) r fits (ground arith)
                | inl same ↦
                    let even' : (memory t).generation % 2 ≡ 0 = ground arith in
                    let same' : (memory (t + 1 + reads_per_round * capacity)).generation
                        ≡ (memory t).generation =
                      sym ((==_iff _ _).0 same) in
                    (
                      t,
                      even',
                      sym (scan-lookup mmap_size capacity table_offset h t fits even' same')
                          ∙ ground arith,
                    )
              ]
      ]

  -- Beside a writer that changes slots only while the generation is odd, and with the whole table
  -- inside the mapping, a reader never returns a torn entry: what it returns is what a lookup
  -- gives at some instant between writes, at the capacity that it read first.
  pub vdir_lookup_sound :
      (mmap_size h : ℕ) (r : VDirStatResult)
      → (memory 0).table_offset + (memory 0).table_capacity * vdir_entry_size ≤ mmap_size
      → vdir_lookup memory mmap_size h ≡ some r
      → Reads (memory 0).table_capacity h r
  unfolding vdir_lookup
  vdir_lookup_sound mmap_size h r fits e =
      seqlock_read_sound mmap_size (memory 0).table_capacity (memory 0).table_offset h
        (max_seqlock_spins + 1) 1 r fits (ground arith)

seqlock_read_now :
    (memory : ℕ → Mapping) (mmap_size capacity table_offset h spins t : ℕ)
    → (memory t).generation % 2 ≡ 0
    → (memory (t + 1 + reads_per_round * capacity)).generation ≡ (memory t).generation
    → seqlock_read memory mmap_size capacity table_offset h (suc spins) t
      ≡ scan memory mmap_size capacity table_offset h (t + 1)
unfolding seqlock_read
seqlock_read_now memory mmap_size capacity table_offset h spins t even same = ground arith

-- With no writer at work, an even generation, a valid magic number and a table that is not empty
-- and lies inside the mapping, the reader returns what `lookup` stores, absent entries included.
pub vdir_lookup_quiet :
    (m : Mapping) (mmap_size h : ℕ)
    → m.magic ≡ vdir_magic
    → m.generation % 2 ≡ 0
    → 0 < m.table_capacity
    → m.table_offset ≡ vdir_header_size
    → m.table_offset + m.table_capacity * vdir_entry_size ≤ mmap_size
    → vdir_lookup (λ _. m) mmap_size h
      ≡ map_option stat_of (lookup_slots m.slots m.table_capacity h)
unfolding vdir_lookup
vdir_lookup_quiet m mmap_size h magic even pos off fits =
    let c = m.table_capacity in
    let off = m.table_offset in
    let roomy : ltb mmap_size vdir_header_size ≡ false = ground arith in
    let some_slots : (c == 0) ≡ false = ground arith in
    let right : (m.magic == vdir_magic) ≡ true = (==_iff m.magic vdir_magic).1 magic in
    rw (roomy, right, some_slots)
      (seqlock_read_now (λ _. m) mmap_size c off h max_seqlock_spins 1 even refl
        ∙ scan-lookup (λ _. m) (λ _. WriterStep.idle refl) mmap_size c off h 1 fits even refl)
