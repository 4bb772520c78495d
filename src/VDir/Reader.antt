-- ===== src/VDir/Reader.antt =====
-- The seqlock reader `vdir_lookup` of crates/vrift-inception-layer/src/state/mod.rs, beside a
-- writer in another process.
pub mod Sound
use velo_rift.Prelude.{
  ℕ, zero, suc, ◌+◌, ◌-◌, ◌*◌, ◌%◌, ◌≤◌, ◌<◌, ◌≡◌, refl, sym, ap, ◌∙◌, subst, true, false, not,
  ◌||◌, List, Option, none, some, arith, ◌==◌, ==_iff, if◌then◌else◌, Bool-cases, inl, inr, ltb,
}
use velo_rift.Prelude.Loop.{for_return, for_return_congr, for_return-map, map_option}
use velo_rift.VDir.Probe.{probe-lt}
use velo_rift.VDir.Table.{entry_at, probe, answers, or_none, lookup_slots}
use velo_rift.VDir.Types.{VDirEntry, is_empty, vdir_magic, vdir_header_size}

-- The mapping at one instant. The header's other fields are not read.
pub record Mapping : Type 0 where
  pub magic : ℕ
  pub generation : ℕ
  pub table_capacity : ℕ
  pub table_offset : ℕ
  pub slots : List VDirEntry

-- the fields that the reader returns
pub record VDirStatResult : Type 0 where
  pub size : ℕ
  pub mtime_sec : ℕ
  pub mtime_nsec : ℕ
  pub mode : ℕ
  pub flags : ℕ
  pub cas_hash : List ℕ

abbrev pub stat_of : VDirEntry → VDirStatResult
stat_of e = record {
  size = e.size;
  mtime_sec = e.mtime_sec;
  mtime_nsec = e.mtime_nsec;
  mode = e.mode;
  flags = e.flags;
  cas_hash = e.cas_hash;
}

abbrev pub vdir_entry_size : ℕ
vdir_entry_size = 72

abbrev pub max_seqlock_spins : ℕ
max_seqlock_spins = 1000

-- the entry's fields, each as its own read finds it; the 32 bytes of `cas_hash` are one read
abbrev pub stat_read : (ℕ → VDirEntry) → VDirStatResult
stat_read entry = record {
  size = (entry 2).size;
  mtime_sec = (entry 3).mtime_sec;
  mtime_nsec = (entry 4).mtime_nsec;
  mode = (entry 5).mode;
  flags = (entry 6).flags;
  cas_hash = (entry 7).cas_hash;
}

-- how many reads of an entry one round makes
abbrev pub reads_per_round : ℕ
reads_per_round = 8

-- The probe of one slot, where `seen k` is the table at the round's read `k`. `some none` leaves
-- the loop with no result.
abbrev pub probe_entry : ℕ → ℕ → (ℕ → List VDirEntry) → ℕ → ℕ → Option (Option VDirStatResult)
probe_entry mmap_size table_offset seen path_hash slot =
    let entry = λ (k : ℕ). entry_at (seen k) slot in
    if ltb mmap_size (table_offset + slot * vdir_entry_size + vdir_entry_size)
    then some none
    else if is_empty (entry 0)
    then some none
    else if (entry 1).path_hash == path_hash
    then some (some (stat_read entry))
    else none

-- The memory that the reader sees is a function of time. The reads of round `i` of a scan that
-- starts at `t` are made at the instants from `t + reads_per_round * i` on.
module _ (memory : ℕ → Mapping) (mmap_size capacity table_offset path_hash : ℕ) where
  unfoldable pub scan : ℕ → Option VDirStatResult
  scan t = or_none (
      for_return capacity 0 (λ i.
        probe_entry mmap_size table_offset (λ k. (memory (t + (reads_per_round * i + k))).slots)
          path_hash (probe capacity path_hash i)))

  -- The loop, over the spins that are left. A scan is over at
  -- `t + 1 + reads_per_round * capacity`.
  unfoldable pub seqlock_read : ℕ → ℕ → Option VDirStatResult
  seqlock_read zero t = none
  seqlock_read (suc spins) t =
      let g1 = (memory t).generation in
      let wait = seqlock_read spins (t + 1) in
      let retry = seqlock_read spins (t + 2 + reads_per_round * capacity) in
      let result = scan (t + 1) in
      if g1 % 2 == 1
      then wait
      else if g1 == (memory (t + 1 + reads_per_round * capacity)).generation
      then result
      else retry

-- The header's fields are read once, before the loop.
unfoldable pub vdir_lookup : (ℕ → Mapping) → ℕ → ℕ → Option VDirStatResult
vdir_lookup memory mmap_size path_hash =
    let m = memory 0 in
    if ltb mmap_size vdir_header_size || not (m.magic == vdir_magic)
    then none
    else if m.table_capacity == 0
    then none
    else seqlock_read memory mmap_size m.table_capacity m.table_offset path_hash
        (max_seqlock_spins + 1) 1

-- What the writer's process does to the mapping: `begin_write`, stores while the generation is
-- odd, `end_write`, or nothing. (`resize` only adds slots before its `begin_write`.) The 64-bit
-- generation is taken not to wrap.
pub data WriterStep (m n : Mapping) : Type 0 where
  idle : n ≡ m → WriterStep m n
  begin_write :
      m.generation % 2 ≡ 0 → n ≡ record m { generation = m.generation + 1 } → WriterStep m n
  store : m.generation % 2 ≡ 1 → n.generation ≡ m.generation → WriterStep m n
  end_write : m.generation % 2 ≡ 1 → n ≡ record m { generation = m.generation + 1 } → WriterStep m n
