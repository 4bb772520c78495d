-- ===== src/Cas/Bloom.antt =====
-- The filter has no false negatives.
use Prim.Native.Nat.{bit_and, bit_or}
use native.Mathlib.Decide.{ℕ_discrete}
use native.Mathlib.Nat.{mod-lt, one-le-pow}
use velo_rift.Cas.{bloom_hashes, set_bit, has_bit, add, contains}
use velo_rift.Prelude.Bits.{bit_and_digit, bit_or_digit, bit_and-zero}
use velo_rift.Prelude.{
  ℕ, zero, suc, ◌*◌, ◌/◌, ◌%◌, ◌^◌, ◌≤◌, ◌<◌, ◌≡◌, ◌⊎◌, inl, inr, refl, sym, ap, ◌∙◌, subst, List,
  true, not, ◌==◌, get_or, set, length, length-set, get_or-set_self, get_or-set_ne, arith,
}

bit_or_halves :
    (a b m : ℕ) → bit_and (bit_or a b / 2) (m / 2) ≡ bit_and (bit_or (a / 2) (b / 2)) (m / 2)
bit_or_halves a b m = ap (λ k. bit_and k (m / 2)) (omega (arith, bit_or_digit a b))

-- Bits that are added keep the bits that are there.
bit_and-bit_or_below :
    (n a b m : ℕ)
    → m ≤ n
    → (bit_and a m ≤ bit_and (bit_or a b) m) × (bit_and b m ≤ bit_and (bit_or a b) m)
bit_and-bit_or_below n a b zero le = (omega (arith, bit_and-zero a), omega (arith, bit_and-zero b))
bit_and-bit_or_below zero a b (suc m) le = absurd (omega arith)
bit_and-bit_or_below (suc n) a b (suc m) le =
    let rest = bit_and-bit_or_below n (a / 2) (b / 2) (suc m / 2) (omega arith) in
    let h = bit_or_halves a b (suc m) in
    let o = bit_or_digit a b in
    let whole = bit_and_digit (bit_or a b) (suc m) in
    (
      omega (arith, rest.0, h, o, whole, bit_and_digit a (suc m)),
      omega (arith, rest.1, h, o, whole, bit_and_digit b (suc m)),
    )

bit_and_self_below : (n a : ℕ) → a ≤ n → bit_and a a ≡ a
bit_and_self_below n zero le = refl
bit_and_self_below zero (suc a) le = absurd (omega arith)
bit_and_self_below (suc n) (suc a) le =
    omega (arith, bit_and_digit (suc a) (suc a), bit_and_self_below n (suc a / 2) (omega arith))

has_bit-set_bit : (bits : List ℕ) (b : ℕ) → b / 8 < length bits → has_bit (set_bit bits b) b ≡ true
has_bit-set_bit bits b lt =
    let m = 2 ^ (b % 8) in
    let a = get_or bits (b / 8) 0 in
    let self = get_or-set_self bits (b / 8) (bit_or a m) 0 lt in
    let le = (bit_and-bit_or_below m a m m (omega arith)).1 in
    let same = bit_and_self_below m m (omega arith) in
    let pos = one-le-pow (b % 8) 2 (omega arith) in rw self (ground arith)

has_bit-set_other :
    (bits : List ℕ) (b c : ℕ)
    → b / 8 < length bits
    → has_bit bits c ≡ true
    → has_bit (set_bit bits b) c ≡ true
has_bit-set_other bits b c lt h = elim (ℕ_discrete (b / 8) (c / 8)) [
  | no ne ↦ rw (get_or-set_ne bits (b / 8) (c / 8) _ 0 ne) h
  | yes eq ↦
      let m = 2 ^ (c % 8) in
      let a = get_or bits (b / 8) 0 in
      let w = bit_or a (2 ^ (b % 8)) in
      let self : get_or (set bits (b / 8) w) (c / 8) 0 ≡ w =
        ap (λ k. get_or (set bits (b / 8) w) k 0) (sym eq) ∙ get_or-set_self bits (b / 8) w 0 lt in
      let h' : not (bit_and a m == 0) ≡ true =
        subst (λ k. not (bit_and (get_or bits k 0) m == 0) ≡ true) (sym eq) h in
      let le = (bit_and-bit_or_below m a (2 ^ (b % 8)) m (omega arith)).0 in rw self (ground arith)
]

has_bits-add :
    (bits s : List ℕ) (c : ℕ)
    → 0 < length bits
    → has_bit bits c ≡ true
    → has_bit (add bits s) c ≡ true
unfolding add
has_bits-add bits s c pos h =
    let size = length bits * 8 in
    let b1 = (bloom_hashes s).0 % size in
    let b2 = (bloom_hashes s).1 % size in
    let l1 : b1 < size = mod-lt _ (omega arith) in
    let l2 : b2 < size = mod-lt _ (omega arith) in
    let w1 : length (set_bit bits b1) ≡ length bits = length-set bits (b1 / 8) _ in
    has_bit-set_other (set_bit bits b1) b2 c (omega arith)
      (has_bit-set_other bits b1 c (omega arith) h)

length-add : (bits s : List ℕ) → length (add bits s) ≡ length bits
unfolding add
length-add bits s =
    let size = length bits * 8 in
    let b1 = (bloom_hashes s).0 % size in
    length-set (set_bit bits b1) _ _ ∙ length-set bits (b1 / 8) _

contains-add_same : (bits s : List ℕ) → 0 < length bits → contains (add bits s) s ≡ true
unfolding add contains
contains-add_same bits s pos =
    let size = length bits * 8 in
    let b1 = (bloom_hashes s).0 % size in
    let b2 = (bloom_hashes s).1 % size in
    let l1 : b1 < size = mod-lt _ (omega arith) in
    let l2 : b2 < size = mod-lt _ (omega arith) in
    let bits1 = set_bit bits b1 in
    let w1 : length bits1 ≡ length bits = length-set bits (b1 / 8) _ in
    let own1 =
      has_bit-set_other bits1 b2 b1 (omega arith) (has_bit-set_bit bits b1 (omega arith)) in
    let own2 = has_bit-set_bit bits1 b2 (omega arith) in
    rw (length-add bits s) (rw (own1, own2) refl)

contains-add_kept :
    (bits s t : List ℕ) → 0 < length bits → contains bits t ≡ true → contains (add bits s) t ≡ true
unfolding contains
contains-add_kept bits s t pos h =
    let size = length bits * 8 in
    let c1 = (bloom_hashes t).0 % size in
    let c2 = (bloom_hashes t).1 % size in
    let k1 = has_bits-add bits s c1 pos (ground arith) in
    let k2 = has_bits-add bits s c2 pos (ground arith) in rw (length-add bits s) (rw (k1, k2) refl)

-- In a filter that has bytes, the string that was added last and every string that the filter may
-- have held before are answered as held.
pub contains-add :
    (bits s t : List ℕ)
    → 0 < length bits
    → (t ≡ s) ⊎ (contains bits t ≡ true)
    → contains (add bits s) t ≡ true
contains-add bits s t pos (inl same) =
    ap (contains (add bits s)) same ∙ contains-add_same bits s pos
contains-add bits s t pos (inr held) = contains-add_kept bits s t pos held
