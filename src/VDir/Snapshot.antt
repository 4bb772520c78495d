-- ===== src/VDir/Snapshot.antt =====
-- The occupied entries of a table as a list: what `resize` re-inserts.
use velo_rift.Prelude.{
  ℕ, zero, suc, ◌+◌, ◌≤◌, ◌<◌, ◌≡◌, ◌≢◌, refl, sym, ap, ◌∙◌, subst, List, [], ◌∷◌, Option, none,
  some, arith, ◌==◌, ==_iff, if◌then◌else◌, Bool-cases, Option-cases, inl, inr, length, filter_if,
}
use velo_rift.VDir.Placed.{
  is_occupied, IsPlaced, lookup_slots_sound, lookup_slots_complete, lookup_slots-zero,
}
use velo_rift.VDir.Table.{entry_at, find_slot, lookup_slots}
use velo_rift.VDir.Types.{VDirEntry}

-- how often a hash occurs
unfoldable pub occurs : ℕ → List VDirEntry → ℕ
occurs g [] = 0
occurs g (e ∷ es) = (if e.path_hash == g then 1 else 0) + occurs g es

-- the first entry of a hash
unfoldable pub find_hash : ℕ → List VDirEntry → Option VDirEntry
find_hash g [] = none
find_hash g (e ∷ es) = if e.path_hash == g then some e else find_hash g es

abbrev pub occupied : List VDirEntry → List VDirEntry
occupied = filter_if is_occupied

occurs-eq_zero :
    (g : ℕ) (slots : List VDirEntry)
    → ((i : ℕ) → i < length slots → (entry_at slots i).path_hash ≢ g)
    → occurs g slots ≡ 0
unfolding occurs
occurs-eq_zero g [] h = refl
occurs-eq_zero g (e ∷ es) h =
    ground (arith, h 0 (omega arith), occurs-eq_zero g es (λ i lt. h (suc i) (omega arith)))

occurs-le_one :
    (g : ℕ) (slots : List VDirEntry)
    → ((i j : ℕ)
        → i < length slots
        → j < length slots
        → (entry_at slots i).path_hash ≡ g
        → (entry_at slots j).path_hash ≡ g
        → i ≡ j)
    → occurs g slots ≤ 1
unfolding occurs
occurs-le_one g [] u = omega arith
occurs-le_one g (e ∷ es) u = elim (Bool-cases (e.path_hash == g)) [
  | inl eq ↦
      let rest = occurs-eq_zero g es (λ i lt h.
        let z : 0 ≡ suc i =
          u 0 (suc i) (omega arith) (omega arith) ((==_iff e.path_hash g).0 eq) h in
        omega arith) in
      rw eq (omega arith)
  | inr ne ↦
      let rest = occurs-le_one g es (λ i j li lj hi hj.
        let z : suc i ≡ suc j = u (suc i) (suc j) (omega arith) (omega arith) hi hj in
        omega arith) in
      rw ne (omega arith)
]

occurs-occupied : (g : ℕ) (slots : List VDirEntry) → occurs g (occupied slots) ≤ occurs g slots
unfolding occurs filter_if
occurs-occupied g [] = omega arith
occurs-occupied g (e ∷ es) = ground (arith, occurs-occupied g es)

pub occurs-occupied_zero : (slots : List VDirEntry) → occurs 0 (occupied slots) ≡ 0
unfolding occurs filter_if
occurs-occupied_zero [] = refl
occurs-occupied_zero (e ∷ es) = ground (arith, occurs-occupied_zero es)

find_hash-occupied :
    (g : ℕ) (slots : List VDirEntry) → g ≢ 0 → find_hash g (occupied slots) ≡ find_hash g slots
unfolding find_hash filter_if
find_hash-occupied g [] nz = refl
find_hash-occupied g (e ∷ es) nz = ground (arith, find_hash-occupied g es nz)

find_hash_sound :
    (g : ℕ) (slots : List VDirEntry) (e : VDirEntry)
    → find_hash g slots ≡ some e
    → (i : ℕ) × (i < length slots) × (entry_at slots i ≡ e) × ((entry_at slots i).path_hash ≡ g)
unfolding find_hash
find_hash_sound g [] e h = cc
find_hash_sound g (x ∷ xs) e h = elim (Bool-cases (x.path_hash == g)) [
  | inl eq ↦ (0, omega arith, ground arith, (==_iff x.path_hash g).0 eq)
  | inr ne ↦
      let (i, lt, at, hg) = find_hash_sound g xs e (ground arith) in (suc i, omega arith, at, hg)
]

find_hash_complete :
    (g : ℕ) (slots : List VDirEntry) (i : ℕ)
    → find_hash g slots ≡ none
    → i < length slots
    → (entry_at slots i).path_hash ≢ g
unfolding find_hash
find_hash_complete g [] i h lt = absurd (omega arith)
find_hash_complete g (x ∷ xs) zero h lt = ground arith
find_hash_complete g (x ∷ xs) (suc i) h lt = find_hash_complete g xs i (ground arith) (omega arith)

pub find_hash-eq_none : (g : ℕ) (es : List VDirEntry) → occurs g es ≡ 0 → find_hash g es ≡ none
unfolding find_hash occurs
find_hash-eq_none g [] h = refl
find_hash-eq_none g (e ∷ es) h = ground (arith, find_hash-eq_none g es)

module _ (slots : List VDirEntry) (placed : IsPlaced slots (length slots)) where
  unique :
      (g : ℕ)
      → g ≢ 0
      → (i j : ℕ) → i < length slots
      → j < length slots
      → (entry_at slots i).path_hash ≡ g
      → (entry_at slots j).path_hash ≡ g
      → i ≡ j
  unique g nz i j li lj hi hj =
      let pi = placed i li (ground arith) in
      let pj = placed j lj (ground arith) in
      let qi = subst (λ m. find_slot slots (length slots) m ≡ some i) hi pi in
      let qj = subst (λ m. find_slot slots (length slots) m ≡ some j) hj pj in ground arith

  -- No hash occurs twice among the occupied slots.
  pub occupied_once : (g : ℕ) → occurs g (occupied slots) ≤ 1
  occupied_once zero = omega (arith, occurs-occupied_zero slots)
  occupied_once (suc g) = omega (
    arith,
    occurs-occupied (suc g) slots,
    occurs-le_one (suc g) slots (unique (suc g) (omega arith)),
  )

  -- The list reads as the table.
  pub find_hash-lookup :
      (g : ℕ) → find_hash g (occupied slots) ≡ lookup_slots slots (length slots) g
  find_hash-lookup zero =
      find_hash-eq_none 0 (occupied slots) (occurs-occupied_zero slots)
      ∙ sym (lookup_slots-zero slots (length slots))
  find_hash-lookup (suc g) =
      find_hash-occupied (suc g) slots (omega arith)
      ∙ elim (Option-cases (lookup_slots slots (length slots) (suc g))) [
        | inr (x, l) ↦
            let (t, lt, at, full, h) = lookup_slots_sound slots (length slots) (suc g) x l in
            elim (Option-cases (find_hash (suc g) slots)) [
              | inl n ↦ absurd (find_hash_complete (suc g) slots t n lt h)
              | inr (y, f) ↦
                  let (i, li, ai, hi) = find_hash_sound (suc g) slots y f in
                  let same = unique (suc g) (omega arith) i t li lt hi h in
                  let e : entry_at slots i ≡ entry_at slots t = ap (entry_at slots) same in
                  f ∙ ap some (sym ai ∙ e ∙ at) ∙ sym l
            ]
        | inl l ↦ elim (Option-cases (find_hash (suc g) slots)) [
          | inl n ↦ n ∙ sym l
          | inr (y, f) ↦
              let (i, li, ai, hi) = find_hash_sound (suc g) slots y f in
              let c = lookup_slots_complete slots (length slots) i placed li (ground arith) in
              let c' =
                subst (λ m. lookup_slots slots (length slots) m ≡ some (entry_at slots i)) hi c in
              absurd (cc)
        ]
      ]
