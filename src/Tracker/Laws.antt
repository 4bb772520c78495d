-- ===== src/Tracker/Laws.antt =====
-- The tracker is a set of hashes: what marking and clearing do to the answers of `is_dirty`.
use native.Mathlib.Decide.{ℕ_discrete}
use velo_rift.Prelude.{
  ℕ, ◌<◌, ◌≡◌, ◌↔◌, refl, sym, ap, ◌∙◌, subst, true, false, List, some, arith, ◌==◌, ==_iff,
  ==_refl, Bool-cases, Option-cases, inl, inr, set, length, length-set, get_or-set_self,
  get_or-set_ne,
}
use velo_rift.Tracker.{slot_at, tombstone, is_dirty_hash}
use velo_rift.Tracker.Walk.{stops, walk, Stop, walk-Stop, Stop-walk, is_dirty_hash-walk}
use velo_rift.VDir.Probe.{probe-lt}

-- Every hash that is stored stands where its walk ends.
pub record IsTracked (n : ℕ) (slots : List ℕ) : Type 0 where
  pub width : length slots ≡ n
  pub found :
      (s : ℕ)
      → s < n
      → (slot_at slots s == 0) ≡ false
      → (slot_at slots s == tombstone) ≡ false
      → walk n slots (slot_at slots s) ≡ some s

pub walk-lt : (n : ℕ) (slots : List ℕ) (h s : ℕ) → walk n slots h ≡ some s → s < n
walk-lt n slots h s e =
    let f = walk-Stop n slots h s e in
    subst (λ m. m < n) f.there (probe-lt n h f.round (let t = f.in_time in omega arith))

-- a hash that stands for a path: neither the empty mark nor the tombstone
abbrev pub IsHash : ℕ → Type 0
IsHash h = ((h == 0) ≡ false) × ((h == tombstone) ≡ false)

abbrev pub Stores : ℕ → List ℕ → ℕ → Type 0
Stores n slots g = (s : ℕ) × (s < n) × (slot_at slots s ≡ g)

module _ (n : ℕ) (slots : List ℕ) where
  pub dirty_iff :
      (g : ℕ) → IsHash g → IsTracked n slots → (is_dirty_hash n slots g ≡ true) ↔ Stores n slots g
  dirty_iff g (nz, nt) tracked = (onward, back)
    where
      onward : is_dirty_hash n slots g ≡ true → Stores n slots g
      onward d = elim (Option-cases (walk n slots g)) [
        | inl e ↦
            let w : is_dirty_hash n slots g ≡ false = is_dirty_hash-walk n slots g nz ∙ rw e refl in
            absurd (ground arith)
        | inr (s, e) ↦
            let w : is_dirty_hash n slots g ≡ (slot_at slots s == g) =
              is_dirty_hash-walk n slots g nz ∙ rw e refl in
            (s, walk-lt n slots g s e, (==_iff (slot_at slots s) g).0 (sym w ∙ d))
      ]

      back : Stores n slots g → is_dirty_hash n slots g ≡ true
      back (s, lt, at) =
          let f =
            tracked.found s lt (subst (λ m. (m == 0) ≡ false) (sym at) nz)
              (subst (λ m. (m == tombstone) ≡ false) (sym at) nt) in
          let e : walk n slots g ≡ some s = subst (λ m. walk n slots m ≡ some s) at f in
          is_dirty_hash-walk n slots g nz ∙ rw e ((==_iff (slot_at slots s) g).1 at)

  -- A hash is stored once.
  pub stored_once :
      (s t : ℕ)
      → IsTracked n slots
      → s < n
      → t < n
      → IsHash (slot_at slots s)
      → slot_at slots s ≡ slot_at slots t
      → s ≡ t
  stored_once s t tracked ls lt (nz, nt) e =
      let f = tracked.found s ls nz nt in
      let g =
        tracked.found t lt (subst (λ m. (m == 0) ≡ false) e nz)
          (subst (λ m. (m == tombstone) ≡ false) e nt) in
      let f' : walk n slots (slot_at slots t) ≡ some s = subst (λ m. walk n slots m ≡ some s) e f in
      cc

  -- Writing `w` into a slot that a walk may end at.
  module _ (s w : ℕ) (lt : s < length slots) (full : (w == 0) ≡ false)
      (fits : (g : ℕ) → (g == tombstone) ≡ false → (w == g) ≡ true → stops slots g s ≡ true) where
    keeps_pass :
        (g p : ℕ)
        → (g == tombstone) ≡ false
        → stops slots g p ≡ false
        → stops (set slots s w) g p ≡ false
    keeps_pass g p nt miss = elim (ℕ_discrete s p) [
      | no ne ↦ rw (get_or-set_ne slots s p w 0 ne) miss
      | yes eq ↦
          let miss' : stops slots g s ≡ false =
            subst (λ m. stops slots g m ≡ false) (sym eq) miss in
          elim (Bool-cases (w == g)) [
            | inl t ↦ let f = fits g nt t in absurd (ground arith)
            | inr f ↦ rw (← eq, get_or-set_self slots s w 0 lt) (ground arith)
          ]
    ]

    set-Stop :
        (g t : ℕ)
        → (g == tombstone) ≡ false
        → stops (set slots s w) g t ≡ true
        → Stop n slots g t
        → Stop n (set slots s w) g t
    set-Stop g t nt at f = record {
      round = f.round;
      in_time = f.in_time;
      before = λ j l. keeps_pass g _ nt (f.before j l);
      there = f.there;
      at_stop = at;
    }

    pub set-IsTracked :
        (IsHash w → walk n slots w ≡ some s) → IsTracked n slots → IsTracked n (set slots s w)
    set-IsTracked own tracked = record {
      width = length-set slots s w ∙ tracked.width;
      found = λ t l nz nt. elim (ℕ_discrete s t) [
        | yes eq ↦
            let self = get_or-set_self slots s w 0 lt in
            let nt' : (w == tombstone) ≡ false =
              subst (λ m. (m == tombstone) ≡ false) (ap (slot_at (set slots s w)) (sym eq) ∙ self)
                nt in
            subst (λ m. walk n (set slots s w) (slot_at (set slots s w) m) ≡ some m) eq
              (rw self (
                Stop-walk n (set slots s w) w s (
                  set-Stop w s nt' (rw self (ground (arith, ==_refl w)))
                    (walk-Stop n slots w s (own (full, nt'))))))
        | no ne ↦
            let same = get_or-set_ne slots s t w 0 ne in
            let nz' : (slot_at slots t == 0) ≡ false = rw same at nz in
            let nt' : (slot_at slots t == tombstone) ≡ false = rw same at nt in
            let v = slot_at slots t in
            rw same (
              Stop-walk n (set slots s w) v t (
                set-Stop v t nt' (rw same (ground (arith, ==_refl v)))
                  (walk-Stop n slots v t (tracked.found t l nz' nt'))))
      ];
    }
