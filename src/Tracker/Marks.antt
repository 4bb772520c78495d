-- ===== src/Tracker/Marks.antt =====
-- What `mark_dirty` and `clear_dirty` do to the set of dirty paths.
use velo_rift.Prelude.{
  ℕ, ◌<◌, ◌≡◌, ◌≢◌, ◌↔◌, ◌⊎◌, refl, sym, ap, ◌∙◌, subst, true, false, List, some, arith, ◌==◌,
  if◌then◌else◌, Bool-cases, Option-cases, inl, inr, set, length, get_or-set_self, get_or-set_ne,
  length-replicate, get_or-replicate,
}
use velo_rift.Tracker.{slot_at, tombstone, dirty_tracker_size, mark_hash, clear_hash, new}
use velo_rift.Tracker.Laws.{IsTracked, IsHash, Stores, walk-lt, stored_once, set-IsTracked}
use velo_rift.Tracker.Walk.{walk, walk-Stop, mark_hash-walk, clear_hash-walk}
use native.Mathlib.Decide.{ℕ_discrete}

pub new-IsTracked : IsTracked dirty_tracker_size new
unfolding new
new-IsTracked = record {
  width = length-replicate dirty_tracker_size 0;
  found = λ s lt nz nt. absurd (ground (arith, get_or-replicate {A = ℕ} dirty_tracker_size s 0));
}

module _ (n : ℕ) (slots : List ℕ) (h : ℕ) (nz : (h == 0) ≡ false)
    (tracked : IsTracked n slots) where
  Stores-set_free :
      (s g : ℕ)
      → s < n
      → (slot_at slots s == 0) ≡ true
      → IsHash g
      → Stores n (set slots s h) g ↔ ((h ≡ g) ⊎ Stores n slots g)
  Stores-set_free s g lt free (gz, gt) = (onward, back)
    where
      in_table : s < length slots
      in_table = let w = tracked.width in omega arith

      onward : Stores n (set slots s h) g → (h ≡ g) ⊎ Stores n slots g
      onward (t, l, at) = elim (ℕ_discrete s t) [
        | yes eq ↦
            let self = get_or-set_self slots s h 0 in_table in
            inl (sym self ∙ ap (slot_at (set slots s h)) eq ∙ at)
        | no ne ↦ inr (t, l, sym (get_or-set_ne slots s t h 0 ne) ∙ at)
      ]

      back : (h ≡ g) ⊎ Stores n slots g → Stores n (set slots s h) g
      back (inl e) = (s, lt, get_or-set_self slots s h 0 in_table ∙ e)
      back (inr (t, l, at)) = elim (ℕ_discrete s t) [
        | yes eq ↦
            let at' : slot_at slots s ≡ g = ap (slot_at slots) eq ∙ at in absurd (ground arith)
        | no ne ↦ (t, l, get_or-set_ne slots s t h 0 ne ∙ at)
      ]

  Stores-cleared :
      (s g : ℕ)
      → s < n
      → slot_at slots s ≡ h
      → IsHash g
      → Stores n (set slots s tombstone) g ↔ ((h ≢ g) × Stores n slots g)
  Stores-cleared s g lt here (gz, gt) = (onward, back)
    where
      in_table : s < length slots
      in_table = let w = tracked.width in omega arith

      onward : Stores n (set slots s tombstone) g → (h ≢ g) × Stores n slots g
      onward (t, l, at) = elim (ℕ_discrete s t) [
        | yes eq ↦
            let self = get_or-set_self slots s tombstone 0 in_table in
            let e : tombstone ≡ g = sym self ∙ ap (slot_at (set slots s tombstone)) eq ∙ at in
            absurd (ground arith)
        | no ne ↦
            let at' = sym (get_or-set_ne slots s t tombstone 0 ne) ∙ at in
            (
              λ e. ne (
                  let he : IsHash (slot_at slots s) = subst IsHash (sym (here ∙ e)) (gz, gt) in
                  stored_once n slots s t tracked lt l he (here ∙ e ∙ sym at')),
              (t, l, at'),
            )
      ]

      back : (h ≢ g) × Stores n slots g → Stores n (set slots s tombstone) g
      back (apart, (t, l, at)) = elim (ℕ_discrete s t) [
        | yes eq ↦
            let at' : slot_at slots s ≡ g = ap (slot_at slots) eq ∙ at in
            absurd (apart (sym here ∙ at'))
        | no ne ↦ (t, l, get_or-set_ne slots s t tombstone 0 ne ∙ at)
      ]

  set_free-IsTracked :
      (s : ℕ)
      → walk n slots h ≡ some s
      → (slot_at slots s == 0) ≡ true
      → IsTracked n (set slots s h)
  set_free-IsTracked s e free =
      set-IsTracked n slots s h
        (let w = tracked.width in let l = walk-lt n slots h s e in omega arith) nz
        (λ g gt same. ground arith) (λ _. e) tracked

  cleared-IsTracked : (s : ℕ) → walk n slots h ≡ some s → IsTracked n (set slots s tombstone)
  cleared-IsTracked s e =
      set-IsTracked n slots s tombstone
        (let w = tracked.width in let l = walk-lt n slots h s e in omega arith) refl
        (λ g gt same. absurd (ground arith)) (λ k. absurd (ground arith)) tracked

  walk_at : (t : ℕ) → t < n → IsHash h → slot_at slots t ≡ h → walk n slots h ≡ some t
  walk_at t lt (hz, ht) at =
      subst (λ m. walk n slots m ≡ some t) at
        (tracked.found t lt (subst (λ m. (m == 0) ≡ false) (sym at) hz)
          (subst (λ m. (m == tombstone) ≡ false) (sym at) ht))

  pub mark_hash_marks :
      (slots' : List ℕ)
      → mark_hash n slots h ≡ (slots', true)
      → IsTracked n slots' × ((g : ℕ) → IsHash g → Stores n slots' g ↔ ((h ≡ g) ⊎ Stores n slots g))
  mark_hash_marks slots' m = elim (Option-cases (walk n slots h)) [
    | inl e ↦
        let w : mark_hash n slots h ≡ (slots, false) = mark_hash-walk n slots h nz ∙ rw e refl in
        absurd (cc)
    | inr (s, e) ↦
        let out : mark_hash n slots h
            ≡ (if slot_at slots s == 0 then set slots s h else slots, true) =
          mark_hash-walk n slots h nz ∙ rw e refl in
        let lt = walk-lt n slots h s e in
        let result : (if slot_at slots s == 0 then set slots s h else slots) ≡ slots' =
          ap (λ r. r.0) (sym out ∙ m) in
        subst (Marks slots h) result (elim (Bool-cases (slot_at slots s == 0)) [
          | inl free ↦ rw free (set_free-IsTracked s e free, λ g gh. Stores-set_free s g lt free gh)
          | inr full ↦ rw full (
            tracked,
            λ g gh. already s g lt (let at = (walk-Stop n slots h s e).at_stop in ground arith),
          )
        ])
  ]
    where
      Marks : List ℕ → ℕ → List ℕ → Type 0
      Marks slots h slots' =
          IsTracked n slots'
          × ((g : ℕ) → IsHash g → Stores n slots' g ↔ ((h ≡ g) ⊎ Stores n slots g))

      already :
          (s g : ℕ) → s < n → slot_at slots s ≡ h → Stores n slots g ↔ ((h ≡ g) ⊎ Stores n slots g)
      already s g lt here = (inr, λ c. elim c [ inl e ↦ (s, lt, here ∙ e) | inr st ↦ st ])

  pub clear_hash_clears :
      IsTracked n (clear_hash n slots h)
      × ((g : ℕ) → IsHash g → Stores n (clear_hash n slots h) g ↔ ((h ≢ g) × Stores n slots g))
  clear_hash_clears = elim (Option-cases (walk n slots h)) [
    | inl e ↦
        let out : clear_hash n slots h ≡ slots = clear_hash-walk n slots h nz ∙ rw e refl in
        subst Clears (sym out) (
          tracked,
          λ g gh.
              absent g gh
                (λ t lt hh at. let f : walk n slots h ≡ some t = walk_at t lt hh at in cc),
        )
    | inr (s, e) ↦
        let out : clear_hash n slots h
            ≡ (if slot_at slots s == 0 then slots else set slots s tombstone) =
          clear_hash-walk n slots h nz ∙ rw e refl in
        let lt = walk-lt n slots h s e in
        subst Clears (sym out) (elim (Bool-cases (slot_at slots s == 0)) [
          | inl free ↦ rw free (
            tracked,
            λ g gh. absent g gh (λ t lt hh at.
                let f : walk n slots h ≡ some t = walk_at t lt hh at in
                let same : s ≡ t = (cc) in
                let at' : slot_at slots s ≡ h = ap (slot_at slots) same ∙ at in ground arith),
          )
          | inr full ↦ rw full (
            cleared-IsTracked s e,
            λ g gh.
                Stores-cleared s g lt (let at = (walk-Stop n slots h s e).at_stop in ground arith)
                  gh,
          )
        ])
  ]
    where
      Clears : List ℕ → Type 0
      Clears slots' =
          IsTracked n slots'
          × ((g : ℕ) → IsHash g → Stores n slots' g ↔ ((h ≢ g) × Stores n slots g))

      absent :
          (g : ℕ)
          → IsHash g
          → ((t : ℕ) → t < n → IsHash h → slot_at slots t ≢ h)
          → Stores n slots g ↔ ((h ≢ g) × Stores n slots g)
      absent g gh none_here = (
        λ (t, lt, at). (λ e. none_here t lt (subst IsHash (sym e) gh) (at ∙ sym e), (t, lt, at)),
        λ p. p.1,
      )
