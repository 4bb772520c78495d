-- ===== src/VDir/Write.antt =====
-- The invariant of the manager, and writes of one entry.
use velo_rift.Prelude.{
  ℕ, ◌+◌, ◌*◌, ◌%◌, ◌^◌, ◌≤◌, ◌<◌, ◌≡◌, refl, ap, ◌∙◌, subst, false, List, some, arith, ◌==◌,
  if◌then◌else◌, length, length-set, set, count_if, count_if-set, count_if-le,
}
use velo_rift.VDir.Probe.{stored_at, lookup-find_slot}
use velo_rift.VDir.Placed.{
  is_occupied, IsPlaced, find_slot_total, find_slot-lt, set-IsPlaced, lookup_slots-set,
}
use velo_rift.VDir.Store.{
  VDir, is_none, lookup, begin_write, end_write, write_slot, insert_found, ok,
}
use velo_rift.VDir.Table.{entry_at, find_slot}
use velo_rift.VDir.Types.{VDirEntry, default_entry, is_empty}

-- the slots and the count agree, between writes and inside one
pub record IsTable (v : VDir) : Type 0 where
  pub pos : 0 < v.capacity
  pub small : v.capacity < 2 ^ 32
  pub width : length v.slots ≡ v.capacity
  pub counted : v.header.entry_count ≡ count_if is_occupied v.slots
  pub placed : IsPlaced v.slots v.capacity

-- between writes
pub record IsValid (v : VDir) : Type 0 where
  pub table : IsTable v
  pub quiet : v.header.generation % 2 ≡ 0
  pub recorded : v.header.table_capacity ≡ v.capacity
  pub load : 4 * v.header.entry_count ≤ 3 * v.capacity

abbrev pub added : VDir → VDirEntry → ℕ
added v e = if is_none (lookup v e.path_hash) then 1 else 0

module _ {v : VDir} (t : IsTable v) (e : VDirEntry) where
  -- A slot found for a hash is free exactly if the hash reads nothing.
  pub free-added :
      (s : ℕ)
      → find_slot v.slots v.capacity e.path_hash ≡ some s
      → (if is_empty (entry_at v.slots s) then 1 else 0) ≡ added v e
  free-added s f =
      let w : lookup v e.path_hash ≡ stored_at v.slots v.capacity (some s) =
        lookup-find_slot v.slots v.capacity e.path_hash ∙ ap (stored_at v.slots v.capacity) f in
      rw w (ground arith)

  -- a table over `v`'s slots with `e` written into the slot found for it
  pub set-IsTable :
      (s : ℕ) (w : VDir)
      → is_empty e ≡ false
      → find_slot v.slots v.capacity e.path_hash ≡ some s
      → w.capacity ≡ v.capacity
      → w.slots ≡ set v.slots s e
      → w.header.entry_count ≡ v.header.entry_count + added v e
      → IsTable w × ((g : ℕ) → lookup w g ≡ (if e.path_hash == g then some e else lookup v g))
  set-IsTable s w new f c sl n =
      let lt = find_slot-lt v.slots v.capacity e.path_hash s f in
      let fr = free-added s f in
      let counts = count_if-set is_occupied v.slots s e default_entry (omega (arith, t.width)) in
      (
        record {
          pos = omega (arith, t.pos);
          small = omega (arith, t.small);
          width = rw (sl, c) (length-set v.slots s e ∙ t.width);
          counted = rw sl (ground (arith, t.counted));
          placed =
              rw (sl, c)
                (set-IsPlaced v.slots v.capacity s e (omega (arith, t.width)) new f t.placed);
        },
        λ g.
            rw (sl, c)
              (lookup_slots-set v.slots v.capacity s e (omega (arith, t.width)) new f g t.placed),
      )

-- what a write of one entry does
pub record Writes (v : VDir) (e : VDirEntry) (w : VDir) : Type 0 where
  pub table : IsTable w
  pub reads : (g : ℕ) → lookup w g ≡ (if e.path_hash == g then some e else lookup v g)
  pub capacity : w.capacity ≡ v.capacity
  pub count : w.header.entry_count ≡ v.header.entry_count + added v e
  pub recorded : w.header.table_capacity ≡ v.header.table_capacity
  pub generation : w.header.generation ≡ (v.header.generation + 2) % 2 ^ 64

module _ (crc32 : List ℕ → ℕ) {v : VDir} (t : IsTable v) (e : VDirEntry) where
  pub write_slot-Writes :
      (s : ℕ)
      → is_empty e ≡ false
      → find_slot v.slots v.capacity e.path_hash ≡ some s
      → Writes v e (write_slot crc32 v s e)
  unfolding write_slot begin_write end_write
  write_slot-Writes s new f =
      let fr = free-added t e s f in
      let lt = find_slot-lt v.slots v.capacity e.path_hash s f in
      let le = count_if-le is_occupied (set v.slots s e) in
      let width = length-set v.slots s e in
      let counts = count_if-set is_occupied v.slots s e default_entry (omega (arith, t.width)) in
      let n : (write_slot crc32 v s e).header.entry_count ≡ v.header.entry_count + added v e =
        rw (← fr) (ground (arith, t.counted, t.width, t.small)) in
      let (table, reads) = set-IsTable t e s (write_slot crc32 v s e) new f refl refl n in
      record {
        table = table;
        reads = reads;
        capacity = refl;
        count = n;
        recorded = refl;
        generation = omega arith;
      }

  -- In a table that is not full, the insertion succeeds.
  pub insert_found-Writes :
      is_empty e ≡ false
      → count_if is_occupied v.slots < v.capacity
      → (w : VDir) × (insert_found crc32 v e ≡ (w, ok tt)) × Writes v e w
  unfolding insert_found
  insert_found-Writes new room =
      let (s, f) = find_slot_total v.slots e.path_hash (rw t.width room) in
      let f' : find_slot v.slots v.capacity e.path_hash ≡ some s =
        subst (λ m. find_slot v.slots m e.path_hash ≡ some s) t.width f in
      (write_slot crc32 v s e, rw (f', insert_found) refl, write_slot-Writes s new f')
