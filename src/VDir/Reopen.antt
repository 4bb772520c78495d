-- ===== src/VDir/Reopen.antt =====
-- Opening a file that another manager wrote: `create_or_open` and `open_readonly`.
use velo_rift.Prelude.{
  ℕ, ◌+◌, ◌*◌, ◌/◌, ◌%◌, ◌^◌, ◌≤◌, ◌<◌, ◌≡◌, ◌≢◌, refl, sym, ap, ◌∙◌, subst, true, false, List, ◌∷◌,
  none, arith, ==_iff, ==_refl, replicate,
}
use mathlib.Core.List.{append_assoc}
use mathlib.Core.Path.{ap₂}
use velo_rift.Prelude.{◌++◌}
use velo_rift.Prelude.Bytes.{le_bytes}
use velo_rift.VDir.Resize.{cleared-IsTable}
use velo_rift.VDir.Placed.{IsPlaced}
use velo_rift.VDir.Probe.{Found-find_slot, stored_at, lookup-find_slot}
use velo_rift.VDir.Store.{
  VDir, lookup, end_write, compute_header_crc, crc_matches, fresh_header, recover, create_or_open,
  succ_u64,
}
use velo_rift.VDir.Table.{entry_at, lookup_slots}
use velo_rift.VDir.Types.{
  VDirHeader, VDirEntry, default_entry, is_empty, vdir_magic, vdir_version, vdir_default_capacity,
}
use velo_rift.VDir.Write.{IsTable, IsValid}

abbrev pub zero_header : VDirHeader
zero_header = record {
  magic = 0;
  version = 0;
  generation = 0;
  entry_count = 0;
  table_capacity = 0;
  table_offset = 0;
  crc32 = 0;
}

-- the file keeps a header of this version
abbrev pub IsCurrent : VDirHeader → Type 0
IsCurrent h = (h.magic ≡ vdir_magic) × (h.version ≡ vdir_version)

-- A checksum that tells apart two texts that differ in one byte. CRC-32 detects every change
-- within 32 adjacent bits.
abbrev pub DetectsByte : (List ℕ → ℕ) → Type 0
DetectsByte crc32 =
    (xs ys : List ℕ) (a b : ℕ)
    → a < 256
    → b < 256
    → a ≢ b
    → crc32 (xs ++ (a ∷ ys)) ≢ crc32 (xs ++ (b ∷ ys))

module _ (crc32 : List ℕ → ℕ) where
  opened :
      (h : VDirHeader) (slots : List VDirEntry)
      → IsCurrent h
      → (create_or_open crc32 h slots).header ≡ recover crc32 h
  unfolding create_or_open
  opened h slots c =
      let a = (==_iff h.magic vdir_magic).1 c.0 in
      let b = (==_iff h.version vdir_version).1 c.1 in rw (a, b) refl

  -- The file of a table of the default capacity, of this version and at most three quarters full,
  -- whose slots and count agree, is opened as a valid table with an even generation, and reads as
  -- it did. Its generation may be odd, but a file that was left with the count behind the slots, or
  -- during a resize, is not covered.
  pub create_or_open-IsValid :
      (v : VDir)
      → IsCurrent v.header
      → IsTable v
      → v.capacity ≡ vdir_default_capacity
      → v.header.table_capacity ≡ v.capacity
      → 4 * v.header.entry_count ≤ 3 * v.capacity
      → let w = create_or_open crc32 v.header v.slots in
        IsValid w × ((g : ℕ) → lookup w g ≡ lookup v g)
  unfolding create_or_open recover
  create_or_open-IsValid v c t cap rec load =
      let w = create_or_open crc32 v.header v.slots in
      let o = opened v.header v.slots c in
      let a = (==_iff v.header.magic vdir_magic).1 c.0 in
      let b = (==_iff v.header.version vdir_version).1 c.1 in
      (
        record {
          table = record {
            pos = omega arith;
            small = omega arith;
            width = t.width ∙ cap;
            counted = rw (a, b) (ground (arith, t.counted));
            placed = subst (IsPlaced v.slots) cap t.placed;
          };
          quiet = rw (a, b) (ground arith);
          recorded = rw (a, b) (ground arith);
          load = rw (a, b) (ground arith);
        },
        λ g. ap (λ m. lookup_slots v.slots m g) (sym cap),
      )

  -- A new file is opened as a valid empty table.
  pub create_or_open-new :
      let w = create_or_open crc32 zero_header (replicate vdir_default_capacity default_entry) in
      IsValid w × ((g : ℕ) → lookup w g ≡ none)
  unfolding create_or_open fresh_header
  create_or_open-new =
      let w = create_or_open crc32 zero_header (replicate vdir_default_capacity default_entry) in
      let (table, blank) =
        cleared-IsTable crc32 w vdir_default_capacity (omega arith) (omega arith) refl refl refl in
      (record { table = table; quiet = refl; recorded = refl; load = omega arith }, blank)

  -- When a file of this version is opened, the header's capacity is kept but not used: a hash
  -- whose slot at the default capacity is empty is not found, whatever the file holds.
  pub create_or_open_loses :
      (v : VDir) (g : ℕ)
      → IsCurrent v.header
      → is_empty (entry_at v.slots (g % vdir_default_capacity)) ≡ true
      → let w = create_or_open crc32 v.header v.slots in
        (w.header.table_capacity ≡ v.header.table_capacity)
        × (w.capacity ≡ vdir_default_capacity)
        × (lookup w g ≡ none)
  unfolding create_or_open recover
  create_or_open_loses v g c free =
      let a = (==_iff v.header.magic vdir_magic).1 c.0 in
      let b = (==_iff v.header.version vdir_version).1 c.1 in
      (
        rw (a, b) (ground arith),
        refl,
        lookup-find_slot v.slots vdir_default_capacity g
            ∙ ap (stored_at v.slots vdir_default_capacity) (
                Found-find_slot v.slots vdir_default_capacity g (g % vdir_default_capacity)
                  (record {
                    round = 0;
                    in_time = omega arith;
                    before = λ j lt. absurd (omega arith);
                    there = omega arith;
                    hit = rw free refl;
                  }))
            ∙ rw free refl,
      )

  -- Recovery of an odd generation stores a checksum that matches.
  pub recover-crc_matches :
      (h : VDirHeader) → h.generation % 2 ≡ 1 → crc_matches crc32 (recover crc32 h) ≡ true
  unfolding recover crc_matches compute_header_crc
  recover-crc_matches h odd = rw ((==_iff (h.generation % 2) 1).1 odd) (==_refl _)

  generation_step :
      (g : ℕ)
      → g < 2 ^ 64
      → g % 256 ≢ 255
      → le_bytes 8 (succ_u64 g) ≡ (g % 256 + 1) ∷ le_bytes 7 (g / 256)
  unfolding le_bytes
  generation_step g small low =
      let low_byte : succ_u64 g % 256 ≡ g % 256 + 1 = omega arith in
      let others : succ_u64 g / 256 ≡ g / 256 = omega arith in
      ap₂ ◌∷◌ low_byte (ap (le_bytes 7) others)

  -- Two headers that differ in the low byte of the generation have different checksums.
  generation-crc_ne :
      (h : VDirHeader) (crc : ℕ)
      → DetectsByte crc32
      → h.generation < 2 ^ 64
      → h.generation % 256 ≢ 255
      → compute_header_crc crc32 h
        ≢ compute_header_crc crc32 (record h { generation = succ_u64 h.generation; crc32 = crc })
  unfolding compute_header_crc
  generation-crc_ne h crc detects small low same =
      let pre = le_bytes 4 h.magic ++ le_bytes 4 h.version in
      let tail =
        le_bytes 4 h.entry_count ++ (le_bytes 4 h.table_capacity ++ le_bytes 4 h.table_offset) in
      let rest = le_bytes 7 (h.generation / 256) ++ tail in
      let first : le_bytes 8 h.generation ≡ h.generation % 256 ∷ le_bytes 7 (h.generation / 256) =
        unfold le_bytes in refl in
      let text : (bs : List ℕ) → le_bytes 4 h.magic ++ (le_bytes 4 h.version ++ bs) ≡ pre ++ bs =
        λ bs. sym (append_assoc (le_bytes 4 h.magic) (le_bytes 4 h.version) bs) in
      detects pre rest (h.generation % 256) (h.generation % 256 + 1) (omega arith) (omega arith)
        (omega arith)
        (ap crc32 (sym (text (h.generation % 256 ∷ rest)))
          ∙ ap (λ (b : List ℕ). crc32 (le_bytes 4 h.magic ++ (le_bytes 4 h.version ++ (b ++ tail))))
              (sym first)
          ∙ same
          ∙ ap (λ (b : List ℕ). crc32 (le_bytes 4 h.magic ++ (le_bytes 4 h.version ++ (b ++ tail))))
              (generation_step h.generation small low)
          ∙ ap crc32 (text ((h.generation % 256 + 1) ∷ rest)))

  -- Under a checksum that detects a changed byte, and unless the low byte of the generation is
  -- 255, a finished write leaves a checksum that does not match its header: it was taken before
  -- the generation's last step.
  pub end_write_stale :
      (v : VDir)
      → DetectsByte crc32
      → v.header.generation < 2 ^ 64
      → v.header.generation % 256 ≢ 255
      → crc_matches crc32 (end_write crc32 v).header ≡ false
  unfolding end_write crc_matches
  end_write_stale v detects small low =
      let ne = generation-crc_ne v.header (compute_header_crc crc32 v.header) detects small low in
      ground arith
