-- ===== src/Tracker/Walk.antt =====
-- The one walk that the three loops of the tracker make: to the first slot that is empty or holds
-- the hash.
use velo_rift.Prelude.Loop.{
  for_return, for_return-some, for_return-eq-some, for_return-none, for_return-eq-none,
}
use velo_rift.Prelude.{
  ℕ, ◌<◌, ◌≡◌, refl, sym, ap, ◌∙◌, subst, Bool, true, false, ◌||◌, List, Option, none, some, arith,
  ◌==◌, if◌then◌else◌, Option-cases, inl, inr, set,
}
use velo_rift.Tracker.{
  slot_at, tombstone, mark_round, mark_hash, clear_round, clear_hash, dirty_round, is_dirty_hash,
}
use velo_rift.VDir.Table.{probe}

abbrev pub stops : List ℕ → ℕ → ℕ → Bool
stops slots h s = slot_at slots s == 0 || slot_at slots s == h

module _ (n : ℕ) (slots : List ℕ) (h : ℕ) where
  unfoldable pub walk : Option ℕ
  walk = for_return n 0 (λ i. if stops slots h (probe n h i) then some (probe n h i) else none)

  pub record Stop (s : ℕ) : Type 0 where
    pub round : ℕ
    pub in_time : round < n
    pub before : (j : ℕ) → j < round → stops slots h (probe n h j) ≡ false
    pub there : probe n h round ≡ s
    pub at_stop : stops slots h s ≡ true

  pub walk-Stop : (s : ℕ) → walk ≡ some s → Stop s
  unfolding walk
  walk-Stop s e =
      let (k, _, lt, before, at) =
        for_return-eq-some (λ i. if stops slots h (probe n h i) then some (probe n h i) else none) n
          0 s e in
      let facts : (probe n h k ≡ s) × (stops slots h (probe n h k) ≡ true) = ground arith in
      record {
        round = k;
        in_time = omega arith;
        before = λ j l. let b = before j (omega arith) l in ground arith;
        there = facts.0;
        at_stop = subst (λ m. stops slots h m ≡ true) facts.0 facts.1;
      }

  pub Stop-walk : (s : ℕ) → Stop s → walk ≡ some s
  unfolding walk
  Stop-walk s f =
      for_return-some (λ i. if stops slots h (probe n h i) then some (probe n h i) else none) n 0
        f.round s (omega arith) (let t = f.in_time in omega arith)
        (λ j _ lt. rw (f.before j lt) refl)
        (let at = subst (λ m. stops slots h m ≡ true) (sym f.there) f.at_stop in
          rw at (ap some f.there))

  pub walk-eq-none : walk ≡ none → (i : ℕ) → i < n → stops slots h (probe n h i) ≡ false
  unfolding walk
  walk-eq-none e i lt =
      let b =
        for_return-eq-none (λ i. if stops slots h (probe n h i) then some (probe n h i) else none) n
          0 e i (omega arith) (omega arith) in
      ground arith

  -- A loop that goes on at exactly the slots that the walk passes.
  loop-walk :
      {R : Type 0} (body : ℕ → Option R) (out : ℕ → R)
      → ((i : ℕ) → stops slots h (probe n h i) ≡ false → body i ≡ none)
      → ((i : ℕ) → stops slots h (probe n h i) ≡ true → body i ≡ some (out (probe n h i)))
      → for_return n 0 body ≡ elim walk [ some s ↦ some (out s) | none ↦ none ]
  loop-walk body out go halt = elim (Option-cases walk) [
    | inl e ↦ rw e (for_return-none body n 0 (λ j _ lt. go j (walk-eq-none e j (omega arith))))
    | inr (s, e) ↦
        let f = walk-Stop s e in
        rw e (
          for_return-some body n 0 f.round (out s) (omega arith) (let t = f.in_time in omega arith)
            (λ j _ lt. go j (f.before j lt))
            (halt f.round (subst (λ m. stops slots h m ≡ true) (sym f.there) f.at_stop)
              ∙ ap (λ m. some (out m)) f.there))
  ]

  pub mark_hash-walk :
      (h == 0) ≡ false
      → mark_hash n slots h ≡ elim walk [
        | some s ↦ (if slot_at slots s == 0 then set slots s h else slots, true)
        | none ↦ (slots, false)
      ]
  unfolding mark_hash
  mark_hash-walk nz =
      let w =
        loop-walk (mark_round n slots h)
          (λ s. if slot_at slots s == 0 then set slots s h else slots) (λ i f. ground arith)
          (λ i t. ground arith) in
      elim (Option-cases walk) [ inl e ↦ rw (nz, w, e) refl | inr (s, e) ↦ rw (nz, w, e) refl ]

  pub clear_hash-walk :
      (h == 0) ≡ false
      → clear_hash n slots h ≡ elim walk [
        | some s ↦ if slot_at slots s == 0 then slots else set slots s tombstone
        | none ↦ slots
      ]
  unfolding clear_hash
  clear_hash-walk nz =
      let w =
        loop-walk (clear_round n slots h)
          (λ s. if slot_at slots s == 0 then slots else set slots s tombstone) (λ i f. ground arith)
          (λ i t. ground arith) in
      elim (Option-cases walk) [ inl e ↦ rw (nz, w, e) refl | inr (s, e) ↦ rw (nz, w, e) refl ]

  pub is_dirty_hash-walk :
      (h == 0) ≡ false
      → is_dirty_hash n slots h ≡ elim walk [ some s ↦ slot_at slots s == h | none ↦ false ]
  unfolding is_dirty_hash
  is_dirty_hash-walk nz =
      let w =
        loop-walk (dirty_round n slots h) (λ s. slot_at slots s == h) (λ i f. ground arith)
          (λ i t. ground arith) in
      elim (Option-cases walk) [ inl e ↦ rw (nz, w, e) refl | inr (s, e) ↦ rw (nz, w, e) refl ]
