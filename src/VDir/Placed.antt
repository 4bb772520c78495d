-- ===== src/VDir/Placed.antt =====
-- The invariant of the slots: every stored entry stands where its own hash is found.
use native.Mathlib.Decide.{ℕ_discrete}
use velo_rift.Prelude.{
  ℕ, ◌≤◌, ◌<◌, ◌≡◌, ◌≢◌, refl, sym, ap, ◌∙◌, subst, Bool, false, not, List, none, some, arith, ◌==◌,
  ==_iff, ==_refl, if◌then◌else◌, Bool-cases, Option-cases, inl, inr, length, set, get_or-set_self,
  get_or-set_ne, count_if, count_if-lt,
}
use velo_rift.VDir.Probe.{
  is_hit, probe-lt, find_slot-Found, Found-find_slot, find_slot-eq-none, stored_at,
  lookup-find_slot,
}
use velo_rift.VDir.Table.{entry_at, find_slot, lookup_slots}
use velo_rift.VDir.Types.{VDirEntry, default_entry, is_empty}

abbrev pub is_occupied : VDirEntry → Bool
is_occupied e = not (is_empty e)

abbrev pub IsPlaced : List VDirEntry → ℕ → Type 0
IsPlaced slots capacity =
    (s : ℕ)
    → s < capacity
    → is_empty (entry_at slots s) ≡ false
    → find_slot slots capacity (entry_at slots s).path_hash ≡ some s

-- A table that is not full has a slot for every hash.
pub find_slot_total :
    (slots : List VDirEntry) (h : ℕ)
    → count_if is_occupied slots < length slots
    → (s : ℕ) × (find_slot slots (length slots) h ≡ some s)
find_slot_total slots h room = elim (Option-cases (find_slot slots (length slots) h)) [
  | inr (s, e) ↦ (s, e)
  | inl e ↦
      let (i, lt, free) = count_if-lt is_occupied slots default_entry room in
      let full = find_slot-eq-none slots (length slots) h i e lt in absurd (ground arith)
]

pub find_slot-lt :
    (slots : List VDirEntry) (capacity h s : ℕ) → find_slot slots capacity h ≡ some s → s < capacity
find_slot-lt slots capacity h s e =
    let f = find_slot-Found slots capacity h s e in
    subst (λ m. m < capacity) f.there
      (probe-lt capacity h f.round (let t = f.in_time in omega arith))

module _ (slots : List VDirEntry) (capacity : ℕ) where
  -- What a lookup returns stands in the table under the hash.
  pub lookup_slots_sound :
      (h : ℕ) (e : VDirEntry)
      → lookup_slots slots capacity h ≡ some e
      → (s : ℕ) × (s < capacity)
        × (entry_at slots s ≡ e)
        × (is_empty (entry_at slots s) ≡ false)
        × ((entry_at slots s).path_hash ≡ h)
  lookup_slots_sound h e l = elim (Option-cases (find_slot slots capacity h)) [
    | inl n ↦ let w = lookup-find_slot slots capacity h in absurd (ground arith)
    | inr (s, f) ↦
        let w : lookup_slots slots capacity h ≡ stored_at slots capacity (some s) =
          lookup-find_slot slots capacity h ∙ ap (stored_at slots capacity) f in
        let hit = (find_slot-Found slots capacity h s f).hit in
        (s, find_slot-lt slots capacity h s f, ground arith, ground arith, ground arith)
  ]

  -- What stands in the table is returned by a lookup of its hash.
  pub lookup_slots_complete :
      (s : ℕ)
      → IsPlaced slots capacity
      → s < capacity
      → is_empty (entry_at slots s) ≡ false
      → lookup_slots slots capacity (entry_at slots s).path_hash ≡ some (entry_at slots s)
  lookup_slots_complete s placed lt full =
      lookup-find_slot slots capacity (entry_at slots s).path_hash
      ∙ rw (placed s lt full, full) refl

  pub lookup_slots-zero : lookup_slots slots capacity 0 ≡ none
  lookup_slots-zero = elim (Option-cases (lookup_slots slots capacity 0)) [
    | inl e ↦ e
    | inr (a, e) ↦ let (s, _, _, full, h) = lookup_slots_sound 0 a e in absurd (ground arith)
  ]

-- Writing an entry of the hash `h` into the slot that was found for `h`.
module _ (slots : List VDirEntry) (capacity s : ℕ) (e : VDirEntry) (width : capacity ≤ length slots)
    (new : is_empty e ≡ false) (found : find_slot slots capacity e.path_hash ≡ some s) where
  in_table : s < length slots
  in_table = let lt = find_slot-lt slots capacity e.path_hash s found in omega arith

  -- A slot that another hash passes over is passed over after the write.
  keeps_miss : (g p : ℕ) → is_hit slots g p ≡ false → is_hit (set slots s e) g p ≡ false
  keeps_miss g p miss = elim (ℕ_discrete s p) [
    | no ne ↦ rw (get_or-set_ne slots s p e default_entry ne) miss
    | yes eq ↦
        let hit = (find_slot-Found slots capacity e.path_hash s found).hit in
        let miss' : is_hit slots g s ≡ false =
          subst (λ m. is_hit slots g m ≡ false) (sym eq) miss in
        rw (← eq, get_or-set_self slots s e default_entry in_table) (ground arith)
  ]

  -- The write keeps every entry where its hash is found.
  pub set-IsPlaced : IsPlaced slots capacity → IsPlaced (set slots s e) capacity
  set-IsPlaced placed t lt full = elim (ℕ_discrete s t) [
    | yes eq ↦
        let f = find_slot-Found slots capacity e.path_hash s found in
        subst
          (λ m. find_slot (set slots s e) capacity (entry_at (set slots s e) m).path_hash ≡ some m)
          eq
          (rw (get_or-set_self slots s e default_entry in_table) (
            Found-find_slot (set slots s e) capacity e.path_hash s (record {
              round = f.round;
              in_time = f.in_time;
              before = λ j l. keeps_miss e.path_hash _ (f.before j l);
              there = f.there;
              hit =
                  rw (get_or-set_self slots s e default_entry in_table)
                    (ground (arith, ==_refl e.path_hash));
            })))
    | no ne ↦
        let same = get_or-set_ne slots s t e default_entry ne in
        let full' : is_empty (entry_at slots t) ≡ false = rw same at full in
        let g = (entry_at slots t).path_hash in
        let f = find_slot-Found slots capacity g t (placed t lt full') in
        rw same (
          Found-find_slot (set slots s e) capacity g t (record {
            round = f.round;
            in_time = f.in_time;
            before = λ j l. keeps_miss g _ (f.before j l);
            there = f.there;
            hit = rw same f.hit;
          }))
  ]

  old_hash : is_empty (entry_at slots s) ≡ false → (entry_at slots s).path_hash ≡ e.path_hash
  old_hash full = let hit = (find_slot-Found slots capacity e.path_hash s found).hit in ground arith

  other_kept :
      (g : ℕ) (x : VDirEntry)
      → IsPlaced slots capacity
      → (e.path_hash == g) ≡ false
      → lookup_slots slots capacity g ≡ some x
      → lookup_slots (set slots s e) capacity g ≡ some x
  other_kept g x placed ne l =
      let (t, lt, at, full, h) = lookup_slots_sound slots capacity g x l in
      let apart : s ≢ t = λ eq.
        let o = old_hash (subst (λ m. is_empty (entry_at slots m) ≡ false) (sym eq) full) in
        let o' : (entry_at slots t).path_hash ≡ e.path_hash =
          subst (λ m. (entry_at slots m).path_hash ≡ e.path_hash) eq o in
        ground arith in
      let same = get_or-set_ne slots s t e default_entry apart ∙ at in
      let l' =
        lookup_slots_complete (set slots s e) capacity t (set-IsPlaced placed) lt
          (rw (get_or-set_ne slots s t e default_entry apart) full) in
      let h' : x.path_hash ≡ g = rw at at h in
      subst (λ m. lookup_slots (set slots s e) capacity m ≡ some x) h' (rw same at l')

  other_not_added :
      (g : ℕ) (x : VDirEntry)
      → IsPlaced slots capacity
      → (e.path_hash == g) ≡ false
      → lookup_slots (set slots s e) capacity g ≡ some x
      → lookup_slots slots capacity g ≡ some x
  other_not_added g x placed ne l =
      let (t, lt, at, full, h) = lookup_slots_sound (set slots s e) capacity g x l in
      let apart : s ≢ t = λ eq.
        let h' : (entry_at (set slots s e) s).path_hash ≡ g =
          subst (λ m. (entry_at (set slots s e) m).path_hash ≡ g) (sym eq) h in
        let self = get_or-set_self slots s e default_entry in_table in
        let h'' : e.path_hash ≡ g = rw self at h' in ground arith in
      let same = get_or-set_ne slots s t e default_entry apart in
      let l' = lookup_slots_complete slots capacity t placed lt (rw (← same) full) in
      let at' : entry_at slots t ≡ x = sym same ∙ at in
      let h' : x.path_hash ≡ g = rw at at h in
      subst (λ m. lookup_slots slots capacity m ≡ some x) h' (rw at' at l')

  -- After the write the hash reads the entry, and every other hash reads what it did.
  pub lookup_slots-set :
      (g : ℕ)
      → IsPlaced slots capacity
      → lookup_slots (set slots s e) capacity g
        ≡ (if e.path_hash == g then some e else lookup_slots slots capacity g)
  lookup_slots-set g placed = elim (Bool-cases (e.path_hash == g)) [
    | inl eq ↦
        let self = get_or-set_self slots s e default_entry in_table in
        let all =
          lookup_slots_complete (set slots s e) capacity s (set-IsPlaced placed)
            (find_slot-lt slots capacity e.path_hash s found) (rw self new) in
        rw eq (
          subst (λ m. lookup_slots (set slots s e) capacity m ≡ some e)
            ((==_iff e.path_hash g).0 eq) (rw self at all))
    | inr ne ↦ rw ne (elim (Option-cases (lookup_slots slots capacity g)) [
      | inr (x, l) ↦ other_kept g x placed ne l ∙ sym l
      | inl l ↦ elim (Option-cases (lookup_slots (set slots s e) capacity g)) [
        | inl l' ↦ l' ∙ sym l
        | inr (x, l') ↦ let l'' = other_not_added g x placed ne l' in absurd (cc)
      ]
    ])
  ]
