-- ===== src/Prelude/Loop.antt =====
-- A counted loop with an early return.
use Prim.Native.Nat.{ℕ, zero, suc, ◌+◌, ◌<◌, ◌≤◌}
use mathlib.Core.Logic.{inl, inr}
use mathlib.Core.Option.{Option, none, some}
use mathlib.Core.Path.{◌≡◌, refl, sym, ◌∙◌, subst}
use native.Mathlib.Decide.{dec_lt}
use native.Mathlib.Omega.{arith}
use velo_rift.Prelude.Tests.{Option-cases}

-- `for i in lo..lo + n { if let Some(r) = body(i) { return r } }`
unfoldable pub for_return {ℓ} : {R : Type ℓ} → ℕ → ℕ → (ℕ → Option R) → Option R
for_return zero i body = none
for_return (suc n) i body = elim (body i) [ some r ↦ some r | none ↦ for_return n (i + 1) body ]

module _ {ℓ} {R : Type ℓ} (body : ℕ → Option R) where
  for_return_next :
      (n i : ℕ) → body i ≡ none → for_return (suc n) i body ≡ for_return n (i + 1) body
  unfolding for_return
  for_return_next n i e = rw (e, for_return)

  for_return_now : (n i : ℕ) (r : R) → body i ≡ some r → for_return (suc n) i body ≡ some r
  unfolding for_return
  for_return_now n i r e = rw (e, for_return)

  -- The loop ends at its first round that returns.
  pub for_return-some :
      (n i k : ℕ) (r : R)
      → i ≤ k
      → k < i + n
      → ((j : ℕ) → i ≤ j → j < k → body j ≡ none)
      → body k ≡ some r
      → for_return n i body ≡ some r
  for_return-some zero i k r lo hi before at = absurd (omega arith)
  for_return-some (suc n) i k r lo hi before at = elim (dec_lt i k) [
    | yes later ↦
        for_return_next n i (before i (omega arith) later)
        ∙ for_return-some n (i + 1) k r (omega arith) (omega arith)
            (λ j a b. before j (omega arith) b) at
    | no now ↦ for_return_now n i r (subst (λ m. body m ≡ some r) (omega arith) at)
  ]

  -- A loop that returned did so at its first round that returns.
  pub for_return-eq-some :
      (n i : ℕ) (r : R)
      → for_return n i body ≡ some r
      → (k : ℕ) × (i ≤ k)
        × (k < i + n)
        × ((j : ℕ) → i ≤ j → j < k → body j ≡ none)
        × (body k ≡ some r)
  unfolding for_return
  for_return-eq-some zero i r h = cc
  for_return-eq-some (suc n) i r h = elim (Option-cases (body i)) [
    | inr (a, e) ↦ (
      i,
      omega arith,
      omega arith,
      λ j a b. absurd (omega arith),
      e ∙ sym (for_return_now n i a e) ∙ h,
    )
    | inl e ↦
        let (k, lo, hi, before, at) =
          for_return-eq-some n (i + 1) r (sym (for_return_next n i e) ∙ h) in
        (
          k,
          omega arith,
          omega arith,
          λ j a b. elim (dec_lt i j) [
            | yes later ↦ before j (omega arith) b
            | no now ↦ subst (λ m. body m ≡ none) (omega arith) e
          ],
          at,
        )
  ]

  pub for_return-none :
      (n i : ℕ) → ((j : ℕ) → i ≤ j → j < i + n → body j ≡ none) → for_return n i body ≡ none
  unfolding for_return
  for_return-none zero i h = refl
  for_return-none (suc n) i h =
      for_return_next n i (h i (omega arith) (omega arith))
      ∙ for_return-none n (i + 1) (λ j a b. h j (omega arith) (omega arith))

  pub for_return-eq-none :
      (n i : ℕ) → for_return n i body ≡ none → (j : ℕ) → i ≤ j → j < i + n → body j ≡ none
  for_return-eq-none zero i h j lo hi = absurd (omega arith)
  for_return-eq-none (suc n) i h j lo hi = elim (Option-cases (body i)) [
    | inr (a, e) ↦ let g = for_return_now n i a e in absurd (cc)
    | inl e ↦ elim (dec_lt i j) [
      | yes later ↦
          for_return-eq-none n (i + 1) (sym (for_return_next n i e) ∙ h) j (omega arith)
            (omega arith)
      | no now ↦ subst (λ m. body m ≡ none) (omega arith) e
    ]
  ]

pub for_return_congr {ℓ} :
    {R : Type ℓ} (body body' : ℕ → Option R) (n i : ℕ)
    → ((j : ℕ) → i ≤ j → j < i + n → body j ≡ body' j)
    → for_return n i body ≡ for_return n i body'
unfolding for_return
for_return_congr body body' zero i same = refl
for_return_congr body body' (suc n) i same =
    let rest =
      for_return_congr body body' n (i + 1) (λ j a b. same j (omega arith) (omega arith)) in
    let now = same i (omega arith) (omega arith) in ground arith

abbrev pub map_option {ℓ κ} : {A : Type ℓ} {B : Type κ} → (A → B) → Option A → Option B
map_option f none = none
map_option f (some a) = some (f a)

pub for_return-map {ℓ κ} :
    {R : Type ℓ} {S : Type κ} (f : R → S) (body : ℕ → Option R) (n i : ℕ)
    → for_return n i (λ j. map_option f (body j)) ≡ map_option f (for_return n i body)
unfolding for_return
for_return-map f body zero i = refl
for_return-map f body (suc n) i = elim (Option-cases (body i)) [
  | inl e ↦ rw (e, for_return) (for_return-map f body n (i + 1))
  | inr (a, e) ↦ rw (e, for_return) refl
]
