-- ===== src/VDir/Probe.antt =====
-- What linear probing finds.
use native.Mathlib.Nat.{mod-lt, mod-eq_of_lt, mod-eq-sub-mod}
use native.Mathlib.Decide.{dec_lt}
use velo_rift.Prelude.{
  ℕ, ◌+◌, ◌-◌, ◌%◌, ◌<◌, ◌≡◌, sym, ap, ◌∙◌, subst, Bool, true, false, ◌||◌, List, Option, none,
  some, arith, ◌==◌, if◌then◌else◌, Bool-cases, Option-cases, inl, inr,
}
use velo_rift.Prelude.Loop.{
  for_return-some, for_return-eq-some, for_return-none, for_return-eq-none,
}
use velo_rift.VDir.Table.{entry_at, probe, claims, find_slot, answers, lookup_slots}
use velo_rift.VDir.Types.{VDirEntry, is_empty}

-- the slot is empty or holds the hash
abbrev pub is_hit : List VDirEntry → ℕ → ℕ → Bool
is_hit slots path_hash slot =
    is_empty (entry_at slots slot) || (entry_at slots slot).path_hash == path_hash

pub probe-lt : (capacity h i : ℕ) → 0 < capacity → probe capacity h i < capacity
probe-lt capacity h i pos = mod-lt _ pos

-- Probing visits every slot.
pub probe_onto :
    (capacity h t : ℕ) → t < capacity → (i : ℕ) × (i < capacity) × (probe capacity h i ≡ t)
probe_onto capacity h t lt =
    let a = h % capacity in
    let al : a < capacity = mod-lt h (omega arith) in
    elim (dec_lt t a) [
      | no le ↦ (t - a, omega arith, mod-eq_of_lt (omega arith) ∙ omega arith)
      | yes less ↦ (
        t + capacity - a,
        omega arith,
        mod-eq-sub-mod (omega arith) ∙ mod-eq_of_lt (omega arith) ∙ omega arith,
      )
    ]

module _ (slots : List VDirEntry) (capacity : ℕ) where
  claims-miss :
      (h i : ℕ) → is_hit slots h (probe capacity h i) ≡ false → claims slots capacity h i ≡ none
  claims-miss h i e = ground arith

  claims-hit :
      (h i : ℕ)
      → is_hit slots h (probe capacity h i) ≡ true
      → claims slots capacity h i ≡ some (probe capacity h i)
  claims-hit h i e = rw e

  claims-eq-none :
      (h i : ℕ) → claims slots capacity h i ≡ none → is_hit slots h (probe capacity h i) ≡ false
  claims-eq-none h i e = ground arith

  -- how `find_slot` came to a slot
  pub record Found (h s : ℕ) : Type 0 where
    pub round : ℕ
    pub in_time : round < capacity
    pub before : (j : ℕ) → j < round → is_hit slots h (probe capacity h j) ≡ false
    pub there : probe capacity h round ≡ s
    pub hit : is_hit slots h s ≡ true

  pub find_slot-Found : (h s : ℕ) → find_slot slots capacity h ≡ some s → Found h s
  unfolding find_slot
  find_slot-Found h s e =
      let (k, _, lt, before, at) = for_return-eq-some (claims slots capacity h) capacity 0 s e in
      let facts : (probe capacity h k ≡ s) × (is_hit slots h (probe capacity h k) ≡ true) =
        elim (Bool-cases (is_hit slots h (probe capacity h k))) [
          | inl t ↦ (let c = claims-hit h k t in cc, t)
          | inr f ↦ let c = claims-miss h k f in (cc, cc)
        ] in
      record {
        round = k;
        in_time = omega arith;
        before = λ j lt. claims-eq-none h j (before j (omega arith) lt);
        there = facts.0;
        hit = subst (λ m. is_hit slots h m ≡ true) facts.0 facts.1;
      }

  pub Found-find_slot : (h s : ℕ) → Found h s → find_slot slots capacity h ≡ some s
  unfolding find_slot
  Found-find_slot h s f =
      for_return-some (claims slots capacity h) capacity 0 f.round s (omega arith)
        (let t = f.in_time in omega arith) (λ j _ lt. claims-miss h j (f.before j lt))
        (claims-hit h f.round (subst (λ m. is_hit slots h m ≡ true) (sym f.there) f.hit)
          ∙ ap some f.there)

  pub find_slot-eq-none :
      (h t : ℕ) → find_slot slots capacity h ≡ none → t < capacity → is_hit slots h t ≡ false
  unfolding find_slot
  find_slot-eq-none h t e lt =
      let (i, li, p) = probe_onto capacity h t lt in
      subst (λ m. is_hit slots h m ≡ false) p
        (claims-eq-none h i
          (for_return-eq-none (claims slots capacity h) capacity 0 e i (omega arith) (omega arith)))

  -- what `lookup` makes of the slot that `find_slot` would give
  abbrev pub stored_at : Option ℕ → Option VDirEntry
  stored_at none = none
  stored_at (some s) = if is_empty (entry_at slots s) then none else some (entry_at slots s)

  answers-hit :
      (h i s : ℕ)
      → probe capacity h i ≡ s
      → is_hit slots h s ≡ true
      → answers slots capacity h i ≡ some (stored_at (some s))
  answers-hit h i s p t = rw p (ground arith)

  -- `lookup` and `find_slot` walk the same way.
  pub lookup-find_slot :
      (h : ℕ) → lookup_slots slots capacity h ≡ stored_at (find_slot slots capacity h)
  unfolding lookup_slots
  lookup-find_slot h = elim (Option-cases (find_slot slots capacity h)) [
    | inl e ↦ rw (
      for_return-none (answers slots capacity h) capacity 0 (λ j _ lt.
          let f =
            find_slot-eq-none h (probe capacity h j) e (probe-lt capacity h j (omega arith)) in
          ground arith),
      e,
    )
    | inr (s, e) ↦
        let f = find_slot-Found h s e in
        rw (
          for_return-some (answers slots capacity h) capacity 0 f.round (stored_at (some s))
              (omega arith) (let t = f.in_time in omega arith)
              (λ j _ lt. let miss = f.before j lt in ground arith)
              (answers-hit h f.round s f.there f.hit),
          e,
        )
  ]
