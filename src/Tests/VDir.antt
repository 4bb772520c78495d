-- ===== src/Tests/VDir.antt =====
-- Small tables, a file that was reopened, and a reader with no writer.
use velo_rift.Prelude.{
  ℕ, ◌+◌, ◌*◌, ◌%◌, ◌^◌, ◌≡◌, refl, ◌∙◌, true, false, List, [], ◌∷◌, ◌++◌, none, some, replicate,
  arith,
}
use velo_rift.Prelude.Loop.{for_return, map_option}
use velo_rift.VDir.Dirty.{Marks, mark_dirty-Marks}
use velo_rift.VDir.Reader.{Mapping, stat_of, vdir_lookup, WriterStep}
use velo_rift.VDir.Reader.Sound.{Reads, vdir_lookup_sound, vdir_lookup_quiet}
use velo_rift.VDir.Reopen.{
  DetectsByte, create_or_open-IsValid, create_or_open_loses, end_write_stale,
}
use velo_rift.VDir.Resize.{cleared-IsTable}
use velo_rift.VDir.Store.{
  VDir, Io, lookup, upsert, mark_dirty, crc_matches, create_or_open, end_write,
}
use velo_rift.VDir.Table.{lookup_slots}
use velo_rift.VDir.Types.{
  VDirHeader, VDirEntry, default_entry, vdir_magic, vdir_version, vdir_default_capacity,
  vdir_header_size,
}
use velo_rift.VDir.Upsert.{Upserts, upsert-Upserts}
use velo_rift.VDir.Write.{IsValid}

-- the sum of the bytes, in place of CRC-32
abbrev pub sum_of : List ℕ → ℕ
sum_of [] = 0
sum_of (b ∷ bytes) = b + sum_of bytes

abbrev pub checksum : List ℕ → ℕ
checksum bytes = sum_of bytes % 2 ^ 32

sum_of-append : (xs ys : List ℕ) → sum_of (xs ++ ys) ≡ sum_of xs + sum_of ys
sum_of-append [] ys = omega arith
sum_of-append (x ∷ xs) ys = omega (arith, sum_of-append xs ys)

checksum-DetectsByte : DetectsByte checksum
checksum-DetectsByte xs ys a b la lb ne same =
    ne (omega (arith, same, sum_of-append xs (a ∷ ys), sum_of-append xs (b ∷ ys)))

abbrev pub header_of : ℕ → ℕ → ℕ → VDirHeader
header_of generation count capacity = record {
  magic = vdir_magic;
  version = vdir_version;
  generation = generation;
  entry_count = count;
  table_capacity = capacity;
  table_offset = vdir_header_size;
  crc32 = 0;
}

abbrev pub four_slots : VDir
four_slots = record { header = header_of 2 0 4; slots = replicate 4 default_entry; capacity = 4 }

pub four_slots-IsValid : IsValid four_slots
four_slots-IsValid = record {
  table = (cleared-IsTable checksum four_slots 4 (omega arith) (omega arith) refl refl refl).0;
  quiet = refl;
  recorded = refl;
  load = omega arith;
}

abbrev entry_of : ℕ → VDirEntry
entry_of h = record {
  path_hash = h;
  cas_hash = 1 ∷ [];
  size = 10;
  mtime_sec = 11;
  mtime_nsec = 12;
  mode = 0x1a4;
  flags = 0;
}

abbrev pub working : Io
working = record { remap = true; flush = true }

upsert-Upserts_example :
    Upserts working four_slots (entry_of 6) (upsert checksum working four_slots (entry_of 6))
upsert-Upserts_example =
    upsert-Upserts checksum working (entry_of 6) four_slots-IsValid (λ e. absurd (omega arith))
      (omega arith)

abbrev with_six : VDir
with_six = (upsert checksum working four_slots (entry_of 6)).0

mark_dirty-Marks_example : Marks with_six 6 true (mark_dirty checksum with_six 6 true)
mark_dirty-Marks_example = mark_dirty-Marks checksum 6 true (upsert-Upserts_example.valid)

-- a file of the default capacity with no entries, left in the middle of a write
abbrev default_file : VDir
default_file = record {
  header = header_of 5 0 vdir_default_capacity;
  slots = replicate vdir_default_capacity default_entry;
  capacity = vdir_default_capacity;
}

create_or_open-IsValid_example :
    IsValid (create_or_open checksum default_file.header default_file.slots)
    × ((g : ℕ)
        → lookup (create_or_open checksum default_file.header default_file.slots) g
          ≡ lookup default_file g)
create_or_open-IsValid_example =
    create_or_open-IsValid checksum default_file (refl, refl)
      ((cleared-IsTable checksum default_file vdir_default_capacity (omega arith) (omega arith) refl
        refl refl).0)
      refl refl (omega arith)

end_write_stale_example : crc_matches checksum (end_write checksum four_slots).header ≡ false
end_write_stale_example =
    end_write_stale checksum four_slots checksum-DetectsByte (omega arith)
      (λ e. absurd (omega arith))

-- one slot, which holds the hash 6
abbrev one_slot : Mapping
one_slot = record {
  magic = vdir_magic;
  generation = 4;
  table_capacity = 1;
  table_offset = vdir_header_size;
  slots = entry_of 6 ∷ [];
}

vdir_lookup_quiet_example :
    vdir_lookup (λ _. one_slot) 1000 6 ≡ map_option stat_of (lookup_slots one_slot.slots 1 6)
vdir_lookup_quiet_example =
    vdir_lookup_quiet one_slot 1000 6 refl refl (omega arith) refl (omega arith)

one_slot_found : vdir_lookup (λ _. one_slot) 1000 6 ≡ some (stat_of (entry_of 6))
one_slot_found =
    vdir_lookup_quiet one_slot 1000 6 refl refl (omega arith) refl (omega arith)
    ∙ unfold lookup_slots for_return in refl

vdir_lookup_sound_example :
    Reads (λ _. one_slot) (λ _. WriterStep.idle refl) 1 6 (stat_of (entry_of 6))
vdir_lookup_sound_example =
    vdir_lookup_sound (λ _. one_slot) (λ _. WriterStep.idle refl) 1000 6 (stat_of (entry_of 6))
      (omega arith) one_slot_found

-- a table that has grown, whose entry of the hash 65537 stands at that slot
abbrev grown_file : VDir
grown_file = record {
  header = header_of 8 1 (2 * vdir_default_capacity);
  slots = replicate 65537 default_entry ++ (entry_of 65537 ∷ []);
  capacity = 2 * vdir_default_capacity;
}

create_or_open_loses_example :
    ((create_or_open checksum grown_file.header grown_file.slots).header.table_capacity
      ≡ grown_file.header.table_capacity)
    × ((create_or_open checksum grown_file.header grown_file.slots).capacity
        ≡ vdir_default_capacity)
    × (lookup (create_or_open checksum grown_file.header grown_file.slots) 65537 ≡ none)
create_or_open_loses_example =
    create_or_open_loses checksum grown_file 65537 (refl, refl) (unfold replicate in refl)
