-- ===== src/VDir/Store.antt =====
-- The manager `VDir` of crates/vrift-vdird/src/vdir.rs and its operations.
use Prim.Native.Nat.{bit_and, bit_or}
use velo_rift.Prelude.{
  ℕ, ◌+◌, ◌*◌, ◌%◌, ◌^◌, List, [], ◌∷◌, ◌++◌, Option, none, some, Bool, true, false, not, ◌&&◌,
  ◌||◌, ◌-◌, ◌==◌, ltb, if◌then◌else◌, set, take, replicate, filter_if,
}
use velo_rift.Prelude.Bytes.{le_bytes}
use velo_rift.VDir.Table.{entry_at, find_slot, lookup_slots}
use velo_rift.VDir.Types.{
  VDirHeader, VDirEntry, default_entry, is_empty, flag_dirty, vdir_magic, vdir_version,
  vdir_default_capacity, vdir_header_size,
}

-- `slots` is the table in the mapping, from byte `VDIR_HEADER_SIZE` on, which every header that this
-- code writes has as its `table_offset`. A file with another offset is not modelled. `entries()` is
-- the first `capacity` slots.
pub record VDir : Type 0 where
  pub header : VDirHeader
  pub slots : List VDirEntry
  pub capacity : ℕ

pub data Fault : Type 0 where
  io_error vdir_full bad_magic : Fault

pub data Result {ℓ} (A : Type ℓ) : Type ℓ where
  ok : A → Result A
  err : Fault → Result A

-- What the operating system answers while the table grows: opening, extending and mapping the
-- file, and flushing it.
pub record Io : Type 0 where
  pub remap : Bool
  pub flush : Bool

abbrev pub succ_u32 : ℕ → ℕ
succ_u32 n = (n + 1) % 2 ^ 32

abbrev pub succ_u64 : ℕ → ℕ
succ_u64 n = (n + 1) % 2 ^ 64

abbrev pub is_none {ℓ} : {A : Type ℓ} → Option A → Bool
is_none none = true
is_none (some a) = false

abbrev pub lookup : VDir → ℕ → Option VDirEntry
lookup v path_hash = lookup_slots v.slots v.capacity path_hash

-- `set_len`: the file is cut, or extended by zeros
abbrev pub set_len : ℕ → List VDirEntry → List VDirEntry
set_len n slots = take n (slots ++ replicate n default_entry)

-- the occupied entries, before the file is mapped again
unfoldable pub snapshot : VDir → List VDirEntry
snapshot v = filter_if (λ e. not (is_empty e)) (take v.capacity v.slots)

-- `(count + 1) as f64 / capacity as f64 > 0.75`; below 2 ^ 32 the division does not round the
-- comparison away
abbrev pub over_loaded : ℕ → ℕ → Bool
over_loaded count capacity = ltb (3 * capacity) (4 * (count + 1))

-- `flags |= FLAG_DIRTY` or `flags &= !FLAG_DIRTY`
unfoldable pub flagged : Bool → VDirEntry → VDirEntry
flagged dirty e = record e {
  flags = if dirty then bit_or e.flags flag_dirty else bit_and e.flags (0xffff - flag_dirty);
}

unfoldable pub open_readonly : VDirHeader → List VDirEntry → Result VDir
open_readonly h slots =
    if h.magic == vdir_magic
    then ok (record { header = h; slots = slots; capacity = h.table_capacity })
    else err bad_magic

-- `crc32fast::hash` is a parameter.
module _ (crc32 : List ℕ → ℕ) where
  -- over the first 28 bytes of the header
  unfoldable pub compute_header_crc : VDirHeader → ℕ
  compute_header_crc h = crc32 (
      le_bytes 4 h.magic
      ++ (le_bytes 4 h.version
          ++ (le_bytes 8 h.generation
              ++ (le_bytes 4 h.entry_count
                  ++ (le_bytes 4 h.table_capacity ++ le_bytes 4 h.table_offset)))))

  unfoldable pub begin_write : VDir → VDir
  begin_write v = record v {
    header = record v.header { generation = succ_u64 v.header.generation };
  }

  unfoldable pub end_write : VDir → VDir
  end_write v = record v {
    header = record v.header {
      crc32 = compute_header_crc v.header;
      generation = succ_u64 v.header.generation;
    };
  }

  -- the header that `create_or_open` writes into a file that is not a VDir of this version
  unfoldable pub fresh_header : VDirHeader
  fresh_header =
      let h : VDirHeader = record {
        magic = vdir_magic;
        version = vdir_version;
        generation = 0;
        entry_count = 0;
        table_capacity = vdir_default_capacity;
        table_offset = vdir_header_size;
        crc32 = 0;
      } in
      record h { crc32 = compute_header_crc h }

  -- an odd generation is left by a writer that crashed
  unfoldable pub recover : VDirHeader → VDirHeader
  recover h =
      if h.generation % 2 == 1
      then (let h' = record h { generation = succ_u64 h.generation } in
          record h' { crc32 = compute_header_crc h' })
      else h

  -- The argument is the file's header and slots, all zeros if the file is new. The mapping is
  -- used with the default capacity, whatever the header says. The slots are at least as many: of a
  -- file that is shorter, `entries()` reaches past the mapping, which is not modelled.
  unfoldable pub create_or_open : VDirHeader → List VDirEntry → VDir
  create_or_open h slots =
      let needs_init = not (h.magic == vdir_magic) || not (h.version == vdir_version) in
      record {
        header = if needs_init then fresh_header else recover h;
        slots = slots;
        capacity = vdir_default_capacity;
      }

  -- the check of `create_or_open`, whose failure is logged
  unfoldable pub crc_matches : VDirHeader → Bool
  crc_matches h = h.crc32 == compute_header_crc h

  -- the re-insertion loop of `resize`
  unfoldable pub reinsert : List VDirEntry → VDir → VDir × Result (Unit {0})
  reinsert [] v = (v, ok tt)
  reinsert (e ∷ es) v = elim (find_slot v.slots v.capacity e.path_hash) [
    | none ↦ (v, err vdir_full)
    | some slot ↦ reinsert es (record {
      header = record v.header { entry_count = succ_u32 v.header.entry_count };
      slots = set v.slots slot e;
      capacity = v.capacity;
    })
  ]

  -- the file mapped at the new size, a write begun, the header updated and the table zeroed
  unfoldable pub remapped : VDir → ℕ → VDir
  remapped v new_capacity =
      let mapped = record v { slots = set_len new_capacity v.slots; capacity = new_capacity } in
      let writing = begin_write mapped in
      record {
        header = record writing.header { table_capacity = new_capacity % 2 ^ 32; entry_count = 0 };
        slots = replicate new_capacity default_entry;
        capacity = new_capacity;
      }

  -- the end of `resize`: a full table leaves the write open
  unfoldable pub finish_resize : Io → VDir × Result (Unit {0}) → VDir × Result (Unit {0})
  finish_resize io (filled, err f) = (filled, err f)
  finish_resize io (filled, ok _) = (end_write filled, if io.flush then ok tt else err io_error)

  unfoldable pub resize : Io → VDir → ℕ → VDir × Result (Unit {0})
  resize io v new_capacity =
      if io.remap
      then finish_resize io (reinsert (snapshot v) (remapped v new_capacity))
      else (v, err io_error)

  -- the write of an entry into the slot that was found
  unfoldable pub write_slot : VDir → ℕ → VDirEntry → VDir
  write_slot v slot entry =
      let is_new = is_empty (entry_at v.slots slot) in
      let w = begin_write v in
      let count = w.header.entry_count in
      end_write (record {
        header = record w.header { entry_count = if is_new then succ_u32 count else count };
        slots = set w.slots slot entry;
        capacity = w.capacity;
      })

  unfoldable pub insert_found : VDir → VDirEntry → VDir × Result (Unit {0})
  insert_found v entry = elim (find_slot v.slots v.capacity entry.path_hash) [
    | none ↦ (v, err vdir_full)
    | some slot ↦ (write_slot v slot entry, ok tt)
  ]

  -- what `upsert` does after the growth, which `?` leaves on failure
  unfoldable pub insert_after : VDirEntry → VDir × Result (Unit {0}) → VDir × Result (Unit {0})
  insert_after entry (v, err f) = (v, err f)
  insert_after entry (v, ok _) = insert_found v entry

  unfoldable pub upsert : Io → VDir → VDirEntry → VDir × Result (Unit {0})
  upsert io v entry =
      let is_new = is_none (lookup v entry.path_hash) in
      if is_new && over_loaded v.header.entry_count v.capacity
      then insert_after entry (resize io v (v.capacity * 2))
      else insert_found v entry

  unfoldable pub mark_dirty : VDir → ℕ → Bool → VDir × Bool
  mark_dirty v path_hash dirty = elim (find_slot v.slots v.capacity path_hash) [
    | none ↦ (v, false)
    | some slot ↦
        let entry = entry_at v.slots slot in
        if not (is_empty entry) && entry.path_hash == path_hash
        then (let w = begin_write v in
            (end_write (record w { slots = set w.slots slot (flagged dirty entry) }), true))
        else (v, false)
  ]
