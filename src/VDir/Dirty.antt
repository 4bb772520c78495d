-- ===== src/VDir/Dirty.antt =====
-- `mark_dirty`: the dirty bit of one entry.
use Prim.Native.Nat.{bit_and, bit_or}
use velo_rift.Prelude.{
  ℕ, ◌/◌, ◌%◌, ◌^◌, ◌≡◌, refl, sym, ap, ◌∙◌, subst, Bool, true, false, not, List, Option, none,
  some, arith, ◌==◌, ==_iff, if◌then◌else◌, Bool-cases, Option-cases, inl, inr, set,
}
use velo_rift.Prelude.Bits.{bit_or-one, bit_and_fffe_mod, bit_and-one}
use velo_rift.VDir.Probe.{find_slot-Found, stored_at, lookup-find_slot}
use velo_rift.VDir.Store.{VDir, is_none, lookup, flagged, begin_write, end_write, mark_dirty}
use velo_rift.VDir.Table.{entry_at, find_slot}
use velo_rift.VDir.Types.{VDirEntry, is_empty, is_dirty}
use velo_rift.VDir.Write.{IsValid, added, set-IsTable}

-- the entry with its dirty bit as asked, its 15 other flags kept, and all else as it was
abbrev pub IsMarked : Bool → VDirEntry → VDirEntry → Type 0
IsMarked dirty e e' =
    (is_dirty e' ≡ dirty)
    × (e'.flags / 2 % 2 ^ 15 ≡ e.flags / 2 % 2 ^ 15)
    × (record e' { flags = 0 } ≡ record e { flags = 0 })

pub flagged-IsMarked : (dirty : Bool) (e : VDirEntry) → IsMarked dirty e (flagged dirty e)
unfolding flagged is_dirty
flagged-IsMarked true e =
    let o = bit_or-one e.flags in
    let a = bit_and-one (bit_or e.flags 1) in (ground arith, omega arith, refl)
flagged-IsMarked false e =
    let o = bit_and_fffe_mod e.flags in
    let a = bit_and-one (bit_and e.flags 0xfffe) in (ground arith, omega arith, refl)

-- the model's own step on what a lookup gives
abbrev pub lookup_marked : Bool → Option VDirEntry → Option VDirEntry
lookup_marked dirty none = none
lookup_marked dirty (some e) = some (flagged dirty e)

-- what a lookup of the marked hash gives, after what it gave before
abbrev pub Remarked : Bool → Option VDirEntry → Option VDirEntry → Type 0
Remarked dirty none after = after ≡ none
Remarked dirty (some e) after = (e' : VDirEntry) × (after ≡ some e') × IsMarked dirty e e'

pub record Marks (v : VDir) (h : ℕ) (dirty : Bool) (out : VDir × Bool) : Type 0 where
  pub valid : IsValid out.0
  pub known : out.1 ≡ not (is_none (lookup v h))
  pub marks : Remarked dirty (lookup v h) (lookup out.0 h)
  pub reads :
      (g : ℕ) → lookup out.0 g ≡ (if h == g then lookup_marked dirty (lookup v h) else lookup v g)
  pub count : out.0.header.entry_count ≡ v.header.entry_count

module _ (crc32 : List ℕ → ℕ) where
  marked : VDir → ℕ → Bool → VDir
  marked v s dirty =
      let w = begin_write crc32 v in
      end_write crc32 (record w { slots = set w.slots s (flagged dirty (entry_at v.slots s)) })

  absent-Marks :
      {v : VDir} (h : ℕ) (dirty : Bool) → IsValid v → lookup v h ≡ none → Marks v h dirty (v, false)
  absent-Marks {v} h dirty valid l = record {
    valid = valid;
    known = rw l refl;
    marks = rw l refl;
    reads = λ g. rw l (elim (Bool-cases (h == g)) [
      | inl e ↦ rw e (subst (λ m. lookup v m ≡ none) ((==_iff h g).0 e) l)
      | inr e ↦ rw e refl
    ]);
    count = refl;
  }

  present-Marks :
      {v : VDir} (h s : ℕ) (dirty : Bool)
      → IsValid v
      → find_slot v.slots v.capacity h ≡ some s
      → is_empty (entry_at v.slots s) ≡ false
      → (entry_at v.slots s).path_hash ≡ h
      → Marks v h dirty (marked v s dirty, true)
  unfolding marked begin_write end_write flagged
  present-Marks {v} h s dirty valid f full eh =
      let t = valid.table in
      let e = flagged dirty (entry_at v.slots s) in
      let l : lookup v h ≡ some (entry_at v.slots s) =
        lookup-find_slot v.slots v.capacity h
        ∙ ap (stored_at v.slots v.capacity) f
        ∙ rw full refl in
      let f' : find_slot v.slots v.capacity e.path_hash ≡ some s =
        subst (λ m. find_slot v.slots v.capacity m ≡ some s) (sym eh) f in
      let none_added : added v e ≡ 0 =
        subst (λ m. ◌≡◌ {A = ℕ} (if is_none (lookup v m) then 1 else 0) 0) (sym eh) (rw l refl) in
      let (table, reads) = set-IsTable t e s (marked v s dirty) full f' refl refl (omega arith) in
      record {
        valid = record {
          table = table;
          quiet = omega (arith, valid.quiet);
          recorded = valid.recorded;
          load = valid.load;
        };
        known = rw l refl;
        marks = rw l (
          flagged dirty (entry_at v.slots s),
          reads h ∙ rw (eh, (==_iff h h).1 refl) refl,
          flagged-IsMarked dirty (entry_at v.slots s),
        );
        reads = λ g. rw l (reads g ∙ rw eh refl);
        count = refl;
      }

  -- Marking keeps a valid table valid, answers whether the path is known, makes the dirty bit of
  -- its entry what was asked, keeps the 15 other flags and the rest of the entry, and changes no
  -- other lookup.
  pub mark_dirty-Marks :
      {v : VDir} (h : ℕ) (dirty : Bool) → IsValid v → Marks v h dirty (mark_dirty crc32 v h dirty)
  unfolding mark_dirty marked
  mark_dirty-Marks {v} h dirty valid = elim (Option-cases (find_slot v.slots v.capacity h)) [
    | inl n ↦
        rw (n, mark_dirty)
          (absent-Marks h dirty valid
            (lookup-find_slot v.slots v.capacity h ∙ ap (stored_at v.slots v.capacity) n))
    | inr (s, f) ↦
        let hit = (find_slot-Found v.slots v.capacity h s f).hit in
        elim (Bool-cases (is_empty (entry_at v.slots s))) [
          | inl free ↦
              rw (f, mark_dirty, free)
                (absent-Marks h dirty valid (
                  lookup-find_slot v.slots v.capacity h
                  ∙ ap (stored_at v.slots v.capacity) f
                  ∙ rw free refl))
          | inr full ↦
              let eh : (entry_at v.slots s).path_hash ≡ h = ground arith in
              rw (f, mark_dirty, full, (==_iff (entry_at v.slots s).path_hash h).1 eh)
                (present-Marks h s dirty valid f full eh)
        ]
  ]
