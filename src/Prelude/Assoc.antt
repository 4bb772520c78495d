-- ===== src/Prelude/Assoc.antt =====
-- Association lists over keys with a Boolean equality: the hash maps of the program.
use Prim.Native.Nat.{ℕ, ◌+◌}
use mathlib.Core.Bool.{Bool, true, false}
use mathlib.Core.List.{List, [], ◌∷◌}
use mathlib.Core.Logic.{◌↔◌, inl, inr}
use mathlib.Core.Option.{Option, none, some}
use mathlib.Core.Path.{◌≡◌, refl, subst}
use native.Mathlib.Omega.{arith}
use velo_rift.Prelude.Lists.{length}
use velo_rift.Prelude.Tests.{◌==◌ as nat_beq, ==_iff, if◌then◌else◌, Bool-cases}

pub record Eq {ℓ} (A : Type ℓ) : Type ℓ where
  pub beq : A → A → Bool
  pub beq_iff : (k j : A) → (beq k j ≡ true) ↔ (k ≡ j)

instance abbrev pub nat_eq : Eq ℕ
nat_eq = record { beq = nat_beq; beq_iff = ==_iff }

module _ {ℓ} {K : Type ℓ} ⦃e : Eq K⦄ where
  pub beq_refl : (a : K) → e.beq a a ≡ true
  beq_refl a = (e.beq_iff a a).1 refl

  pub beq_trans_left : (a b c : K) → e.beq a b ≡ true → e.beq a c ≡ e.beq b c
  beq_trans_left a b c h = let p = (e.beq_iff a b).0 h in λ i. e.beq (p i) c

module _ {ℓ κ} {K : Type ℓ} ⦃e : Eq K⦄ {V : Type κ} where
  unfoldable pub lookup : K → List (K × V) → Option V
  lookup k [] = none
  lookup k ((j, v) ∷ m) = if e.beq j k then some v else lookup k m

  -- the value under a key is replaced, or the pair added
  unfoldable pub insert : K → V → List (K × V) → List (K × V)
  insert k v [] = (k, v) ∷ []
  insert k v ((j, w) ∷ m) = if e.beq j k then (j, v) ∷ m else (j, w) ∷ insert k v m

  unfoldable pub remove : K → List (K × V) → List (K × V)
  remove k [] = []
  remove k ((j, w) ∷ m) = let rest = remove k m in if e.beq j k then rest else (j, w) ∷ rest

  -- a key occurs once at most
  abbrev pub IsMap : List (K × V) → Type κ
  IsMap [] = Unit {κ}
  IsMap ((j, w) ∷ m) = (lookup j m ≡ none) × IsMap m

  pub lookup_congr : (k j : K) (m : List (K × V)) → e.beq k j ≡ true → lookup k m ≡ lookup j m
  lookup_congr k j m h = let p = (e.beq_iff k j).0 h in λ i. lookup (p i) m

  pub lookup-insert :
      (k j : K) (v : V) (m : List (K × V))
      → lookup j (insert k v m) ≡ (if e.beq k j then some v else lookup j m)
  unfolding lookup insert
  lookup-insert k j v [] = refl
  lookup-insert k j v ((i, w) ∷ m) =
      ground (arith, e.beq_iff k j, e.beq_iff i k, e.beq_iff i j, lookup-insert k j v m)

  pub lookup-remove :
      (k j : K) (m : List (K × V))
      → lookup j (remove k m) ≡ (if e.beq k j then none else lookup j m)
  unfolding lookup remove
  lookup-remove k j [] = ground arith
  lookup-remove k j ((i, w) ∷ m) =
      ground (arith, e.beq_iff k j, e.beq_iff i k, e.beq_iff i j, lookup-remove k j m)

  pub insert-IsMap : (k : K) (v : V) (m : List (K × V)) → IsMap m → IsMap (insert k v m)
  unfolding lookup insert
  insert-IsMap k v [] u = (refl, u)
  insert-IsMap k v ((i, w) ∷ m) u = elim (Bool-cases (e.beq i k)) [
    | inl h ↦ rw h u
    | inr h ↦
        let l = lookup-insert k i v m in
        let s : e.beq k i ≡ false = ground (arith, e.beq_iff k i, e.beq_iff i k) in
        rw h (rw l (rw s u.0), insert-IsMap k v m u.1)
  ]

  pub remove-IsMap : (k : K) (m : List (K × V)) → IsMap m → IsMap (remove k m)
  unfolding lookup remove
  remove-IsMap k [] u = u
  remove-IsMap k ((i, w) ∷ m) u = elim (Bool-cases (e.beq i k)) [
    | inl h ↦ rw h (remove-IsMap k m u.1)
    | inr h ↦
        let l = lookup-remove k i m in
        let s : e.beq k i ≡ false = ground (arith, e.beq_iff k i, e.beq_iff i k) in
        rw h (rw l (rw s u.0), remove-IsMap k m u.1)
  ]

  pub remove-absent : (k : K) (m : List (K × V)) → lookup k m ≡ none → remove k m ≡ m
  unfolding lookup remove
  remove-absent k [] h = refl
  remove-absent k ((i, w) ∷ m) h = ground (arith, remove-absent k m)

  -- The number of pairs goes up by one at a new key only, and down at a present one.
  pub length-insert :
      (k : K) (v : V) (m : List (K × V))
      → length (insert k v m) ≡ length m + elim (lookup k m) [ none ↦ 1 | some _ ↦ 0 ]
  unfolding lookup insert
  length-insert k v [] = omega arith
  length-insert k v ((i, w) ∷ m) = ground (arith, length-insert k v m)

  pub length-remove :
      (k : K) (m : List (K × V))
      → IsMap m
      → length (remove k m) + elim (lookup k m) [ none ↦ 0 | some _ ↦ 1 ] ≡ length m
  unfolding lookup remove
  length-remove k [] u = omega arith
  length-remove k ((i, w) ∷ m) u = elim (Bool-cases (e.beq i k)) [
    | inl h ↦
        let a = remove-absent i m u.0 in
        let p = (e.beq_iff i k).0 h in
        let a' : remove k m ≡ m = subst (λ j. remove j m ≡ m) p a in rw (h, a') (omega arith)
    | inr h ↦ rw h (omega (arith, length-remove k m u.1))
  ]
