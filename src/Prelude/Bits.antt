-- ===== src/Prelude/Bits.antt =====
-- Facts about bits at variables, from the digit recursion that the native operations stand for.
use Prim.Native.Nat.{
  ℕ, zero, suc, ◌+◌, ◌-◌, ◌*◌, ◌/◌, ◌%◌, ◌^◌, ◌≤◌, ◌<◌, min, max, bit_and, bit_or, bit_xor, digits,
  bitwise, differ, bit_and-bitwise, bit_or-bitwise, bit_xor-bitwise,
}
use mathlib.Core.Path.{◌≡◌, refl, ap, sym, ◌∙◌}
use native.Mathlib.Nat.{
  pow-suc, one-le-pow, mod-eq-sub-mul-div, div-mul-le_self, mod-lt, add-mul-mod_self_left,
  mod-eq_of_lt,
}
use native.Mathlib.Omega.{arith}

-- The recursion is on a bound of the first number. Any bound gives the same digits.
module _ (rest : ℕ → ℕ) (op : ℕ → ℕ → ℕ) where
  any_bound : (j a b k : ℕ) → a ≤ j → a ≤ k → digits rest op j a b ≡ digits rest op k a b
  any_bound zero (suc a) b k lo hi = absurd (omega arith)
  any_bound (suc j) (suc a) b zero lo hi = absurd (omega arith)
  any_bound (suc j) (suc a) b (suc k) lo hi =
      ap (λ (t : ℕ). t * 2 + op (suc a % 2) (b % 2))
        (any_bound j (suc a / 2) (b / 2) k (omega arith) (omega arith))
  any_bound zero zero b zero lo hi = refl
  any_bound zero zero b (suc k) lo hi = refl
  any_bound (suc j) zero b zero lo hi = refl
  any_bound (suc j) zero b (suc k) lo hi = refl

  lowest_digit :
      (a b : ℕ)
      → bitwise rest op (suc a) b ≡ bitwise rest op (suc a / 2) (b / 2) * 2 + op (suc a % 2) (b % 2)
  lowest_digit a b =
      let half : suc a / 2 ≤ suc a / 2 = omega arith in
      omega (arith, any_bound a (suc a / 2) (b / 2) (suc a / 2) (omega arith) half)

pub bit_or_digit : (a b : ℕ) → bit_or a b ≡ bit_or (a / 2) (b / 2) * 2 + max (a % 2) (b % 2)
bit_or_digit zero b = simp bit_or-bitwise (omega arith)
bit_or_digit (suc a) b = simp bit_or-bitwise (lowest_digit (λ y. y) max a b)

pub bit_and_digit : (a b : ℕ) → bit_and a b ≡ bit_and (a / 2) (b / 2) * 2 + min (a % 2) (b % 2)
bit_and_digit zero b = simp bit_and-bitwise (omega arith)
bit_and_digit (suc a) b = simp bit_and-bitwise (lowest_digit (λ y. 0) min a b)

pub bit_xor_digit : (a b : ℕ) → bit_xor a b ≡ bit_xor (a / 2) (b / 2) * 2 + differ (a % 2) (b % 2)
bit_xor_digit zero b = simp bit_xor-bitwise (omega arith)
bit_xor_digit (suc a) b = simp bit_xor-bitwise (lowest_digit (λ y. y) differ a b)

bit_or-zero_below : (n a : ℕ) → a ≤ n → bit_or a 0 ≡ a
bit_or-zero_below n zero h = refl
bit_or-zero_below zero (suc a) h = absurd (omega arith)
bit_or-zero_below (suc n) (suc a) h =
    omega (arith, bit_or_digit (suc a) 0, bit_or-zero_below n (suc a / 2) (omega arith))

bit_and-zero_below : (n a : ℕ) → a ≤ n → bit_and a 0 ≡ 0
bit_and-zero_below n zero h = refl
bit_and-zero_below zero (suc a) h = absurd (omega arith)
bit_and-zero_below (suc n) (suc a) h =
    omega (arith, bit_and_digit (suc a) 0, bit_and-zero_below n (suc a / 2) (omega arith))

pub bit_and-zero : (a : ℕ) → bit_and a 0 ≡ 0
bit_and-zero a = bit_and-zero_below a a (omega arith)

pub bit_and-one : (a : ℕ) → bit_and a 1 ≡ a % 2
bit_and-one a = omega (arith, bit_and_digit a 1, bit_and-zero (a / 2))

pub bit_or-one : (a : ℕ) → bit_or a 1 ≡ a / 2 * 2 + 1
bit_or-one a = omega (arith, bit_or_digit a 1, bit_or-zero_below (a / 2) (a / 2) (omega arith))

-- a mask of `k` ones
bit_and-ones : (k a : ℕ) → a < 2 ^ k → bit_and a (2 ^ k - 1) ≡ a
bit_and-ones zero zero h = refl
bit_and-ones zero (suc a) h = absurd (omega arith)
bit_and-ones (suc k) a h = omega (
  arith,
  bit_and_digit a (2 ^ suc k - 1),
  pow-suc 2 k,
  half_of_ones,
  ap (bit_and (a / 2)) half_of_ones,
  bit_and-ones k (a / 2) (omega (arith, pow-suc 2 k)),
)
  where
    half_of_ones : (2 ^ suc k - 1) / 2 ≡ 2 ^ k - 1
    half_of_ones = omega (arith, pow-suc 2 k, one-le-pow k 2)

pub bit_and_fffe : (a : ℕ) → a < 2 ^ 16 → bit_and a 0xfffe ≡ a / 2 * 2
bit_and_fffe a h = omega (arith, bit_and_digit a 0xfffe, bit_and-ones 15 (a / 2) (omega arith))

-- a mask of ones keeps the remainder
bit_and_step :
    (m n : ℕ)
    → 0 < n
    → ((b : ℕ) → bit_and b m ≡ b % n)
    → m < n
    → (b : ℕ) → bit_and b (m * 2 + 1) ≡ b % (n * 2)
bit_and_step m n pos half lt b =
    let q = b / 2 / n in
    let x = b / 2 % n * 2 + b % 2 in
    let whole : b ≡ x + n * 2 * q =
      omega (arith, mod-eq-sub-mul-div (b / 2) n, div-mul-le_self (b / 2) n) in
    let small : x < n * 2 = omega (arith, mod-lt (b / 2) pos) in
    let low : bit_and (b / 2) ((m * 2 + 1) / 2) ≡ b / 2 % n =
      ap (bit_and (b / 2)) (omega arith) ∙ half (b / 2) in
    omega (arith, bit_and_digit b (m * 2 + 1), low)
    ∙ sym (ap (λ k. k % (n * 2)) whole ∙ add-mul-mod_self_left x (n * 2) q ∙ mod-eq_of_lt small)

pub bit_and_fff : (a : ℕ) → bit_and a 0xfff ≡ a % 4096
bit_and_fff =
    bit_and_step 2047 2048 (omega arith)
      (bit_and_step 1023 1024 (omega arith)
        (bit_and_step 511 512 (omega arith)
          (bit_and_step 255 256 (omega arith)
            (bit_and_step 127 128 (omega arith)
              (bit_and_step 63 64 (omega arith)
                (bit_and_step 31 32 (omega arith)
                  (bit_and_step 15 16 (omega arith)
                    (bit_and_step 7 8 (omega arith)
                      (bit_and_step 3 4 (omega arith)
                        (bit_and_step 1 2 (omega arith) bit_and-one (omega arith)) (omega arith))
                      (omega arith))
                    (omega arith))
                  (omega arith))
                (omega arith))
              (omega arith))
            (omega arith))
          (omega arith))
        (omega arith))
      (omega arith)

bit_and_7fff : (a : ℕ) → bit_and a 0x7fff ≡ a % 0x8000
bit_and_7fff =
    bit_and_step 0x3fff 0x4000 (omega arith)
      (bit_and_step 0x1fff 0x2000 (omega arith)
        (bit_and_step 0xfff 0x1000 (omega arith) bit_and_fff (omega arith)) (omega arith))
      (omega arith)

-- clearing the lowest of 16 bits
pub bit_and_fffe_mod : (a : ℕ) → bit_and a 0xfffe ≡ a / 2 % 0x8000 * 2
bit_and_fffe_mod a = omega (arith, bit_and_digit a 0xfffe, bit_and_7fff (a / 2))
