-- ===== src/Tracker/Paths.antt =====
-- The tracker as its callers see it, by paths.
use velo_rift.Prelude.{
  ℕ, ◌<◌, ◌≡◌, ◌≢◌, ◌↔◌, ◌⊎◌, refl, sym, ◌∙◌, subst, true, false, List, arith, ◌==◌, Bool-cases,
  Option-cases, inl, inr, set, length, get_or-set_self, get_or-set_ne,
}
use velo_rift.Tracker.{
  slot_at, tombstone, dirty_tracker_size, mark_hash, clear_hash, is_dirty_hash, fnv1a_hash,
  mark_dirty, clear_dirty, is_dirty,
}
use velo_rift.Tracker.Laws.{IsTracked, IsHash, dirty_iff, walk-lt}
use velo_rift.Tracker.Marks.{mark_hash_marks, clear_hash_clears}
use velo_rift.Tracker.Walk.{walk, walk-Stop, mark_hash-walk, clear_hash-walk}
use native.Mathlib.Decide.{ℕ_discrete}

-- In a tracker that finds its hashes, when marking a path succeeds, the tracker stays such, and a
-- path whose hash is neither 0 nor the tombstone is dirty exactly if it has the marked path's hash
-- or was dirty before.
pub mark_dirty-is_dirty :
    (slots slots' path other : List ℕ)
    → IsTracked dirty_tracker_size slots
    → IsHash (fnv1a_hash other)
    → mark_dirty slots path ≡ (slots', true)
    → IsTracked dirty_tracker_size slots'
      × ((is_dirty slots' other ≡ true)
          ↔ ((fnv1a_hash path ≡ fnv1a_hash other) ⊎ (is_dirty slots other ≡ true)))
unfolding mark_dirty is_dirty
mark_dirty-is_dirty slots slots' path other tracked gh m =
    let n = dirty_tracker_size in
    let h = fnv1a_hash path in
    let g = fnv1a_hash other in
    let (tracked', stores) =
      mark_hash_marks n slots h (marked_nonzero slots slots' h m) tracked slots' m in
    let before = dirty_iff n slots g gh tracked in
    let after = dirty_iff n slots' g gh tracked' in
    let s = stores g gh in
    (
      tracked',
      (
        λ d. elim (s.0 (after.0 d)) [ inl e ↦ inl e | inr st ↦ inr (before.1 st) ],
        λ c. after.1 (s.1 (elim c [ inl e ↦ inl e | inr d ↦ inr (before.0 d) ])),
      ),
    )
  where
    marked_nonzero :
        (slots slots' : List ℕ) (h : ℕ)
        → mark_hash dirty_tracker_size slots h ≡ (slots', true)
        → (h == 0) ≡ false
    marked_nonzero slots slots' h m = elim (Bool-cases (h == 0)) [
      | inr f ↦ f
      | inl t ↦
          let out : mark_hash dirty_tracker_size slots h ≡ (slots, false) =
            unfold mark_hash in rw t refl in
          absurd (cc)
    ]

-- In a tracker that finds its hashes, after a path was cleared the tracker is still such, and a
-- path whose hash is neither 0 nor the tombstone is dirty exactly if it was dirty before and has
-- another hash than the cleared path.
pub clear_dirty-is_dirty :
    (slots path other : List ℕ)
    → IsTracked dirty_tracker_size slots
    → IsHash (fnv1a_hash other)
    → IsTracked dirty_tracker_size (clear_dirty slots path)
      × ((is_dirty (clear_dirty slots path) other ≡ true)
          ↔ ((fnv1a_hash path ≢ fnv1a_hash other) × (is_dirty slots other ≡ true)))
unfolding clear_dirty is_dirty
clear_dirty-is_dirty slots path other tracked gh =
    let n = dirty_tracker_size in
    let h = fnv1a_hash path in
    let g = fnv1a_hash other in
    let before = dirty_iff n slots g gh tracked in
    elim (Bool-cases (h == 0)) [
      | inl t ↦
          let out : clear_hash n slots h ≡ slots = unfold clear_hash in rw t refl in
          subst
            (λ m.
              IsTracked n m
              × ((is_dirty_hash n m g ≡ true) ↔ ((h ≢ g) × (is_dirty_hash n slots g ≡ true))))
            (sym out)
            (tracked, (λ d. (λ e. let (gz, _) = gh in absurd (ground arith), d), λ p. p.1))
      | inr nz ↦
          let (tracked', stores) = clear_hash_clears n slots h nz tracked in
          let after = dirty_iff n (clear_hash n slots h) g gh tracked' in
          let s = stores g gh in
          (
            tracked',
            (
              λ d. let p = s.0 (after.0 d) in (p.0, before.1 p.1),
              λ p. after.1 (s.1 (p.0, before.0 p.1)),
            ),
          )
    ]

-- no slot is empty: each holds a hash or a tombstone
abbrev pub IsFull : ℕ → List ℕ → Type 0
IsFull n slots = (s : ℕ) → s < n → (slot_at slots s == 0) ≡ false

clear_hash-IsFull :
    (n : ℕ) (slots : List ℕ) (h : ℕ)
    → length slots ≡ n
    → IsFull n slots
    → IsFull n (clear_hash n slots h)
clear_hash-IsFull n slots h width full t lt = elim (Bool-cases (h == 0)) [
  | inl z ↦
      let out : clear_hash n slots h ≡ slots = unfold clear_hash in rw z refl in rw out (full t lt)
  | inr nz ↦ elim (Option-cases (walk n slots h)) [
    | inl e ↦
        let out : clear_hash n slots h ≡ slots = clear_hash-walk n slots h nz ∙ rw e refl in
        rw out (full t lt)
    | inr (s, e) ↦
        let l = walk-lt n slots h s e in
        let f = full s l in
        let out : clear_hash n slots h ≡ set slots s tombstone =
          clear_hash-walk n slots h nz ∙ rw (e, f) refl in
        rw out (elim (ℕ_discrete s t) [
          | no ne ↦ rw (get_or-set_ne slots s t tombstone 0 ne) (full t lt)
          | yes eq ↦ rw (← eq, get_or-set_self slots s tombstone 0 (omega arith)) refl
        ])
  ]
]

-- Clearing frees no slot: in a tracker that finds its hashes and has no empty slot, a path that
-- was not dirty, with a hash neither 0 nor the tombstone, cannot be marked, not even right after
-- another path was cleared, and still no slot is empty.
pub mark_dirty_exhausted :
    (slots gone path : List ℕ)
    → IsTracked dirty_tracker_size slots
    → IsFull dirty_tracker_size slots
    → IsHash (fnv1a_hash path)
    → is_dirty slots path ≡ false
    → IsFull dirty_tracker_size (clear_dirty slots gone)
      × (mark_dirty (clear_dirty slots gone) path ≡ (clear_dirty slots gone, false))
unfolding clear_dirty mark_dirty is_dirty
mark_dirty_exhausted slots gone path tracked full gh clean =
    let n = dirty_tracker_size in
    let g = fnv1a_hash path in
    let cleared = clear_hash n slots (fnv1a_hash gone) in
    let full' = clear_hash-IsFull n slots (fnv1a_hash gone) tracked.width full in
    let (tracked', dirty) = clear_dirty-is_dirty slots gone path tracked gh in
    (
      full',
      elim (Option-cases (walk n cleared g)) [
        | inl e ↦ mark_hash-walk n cleared g gh.0 ∙ rw e refl
        | inr (s, e) ↦
            let l = walk-lt n cleared g s e in
            let f = full' s l in
            let at = (walk-Stop n cleared g s e).at_stop in
            let here : slot_at cleared s ≡ g = ground arith in
            let d = dirty_iff n cleared g gh tracked' in
            let d' : is_dirty slots path ≡ true =
              (dirty.0 (unfold is_dirty in d.1 (s, l, here))).1 in
            absurd (ground arith)
      ],
    )
