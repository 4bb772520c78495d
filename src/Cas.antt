-- ===== src/Cas.antt =====
-- The Bloom filter in front of the content store: `BloomFilter` of crates/vrift-cas/src/lib.rs.
-- The bits are bytes, and `usize` has 64 bits. A string is the list of its bytes.
pub mod Bloom
use Prim.Native.Nat.{bit_and, bit_or}
use velo_rift.Prelude.{
  ℕ, ◌+◌, ◌-◌, ◌*◌, ◌/◌, ◌%◌, ◌^◌, List, [], ◌∷◌, Bool, not, ◌&&◌, ◌==◌, get_or, set, replicate,
  length,
}

abbrev pub bloom_size : ℕ
bloom_size = 128 * 1024

unfoldable pub new : ℕ → List ℕ
new size = replicate size 0

-- the loop of `bloom_hashes` over the rest of the bytes
unfoldable pub bloom_hashes_from : ℕ → ℕ → List ℕ → ℕ × ℕ
bloom_hashes_from h1 h2 [] = (h1, h2)
bloom_hashes_from h1 h2 (b ∷ s) =
    let h1' = ((h1 * 2 ^ 5 % 2 ^ 64 + h1) % 2 ^ 64 + b) % 2 ^ 64 in
    let h2' = (((h2 * 2 ^ 6 % 2 ^ 64 + h2) % 2 ^ 64 + b) % 2 ^ 64 + 2 ^ 64 - h1') % 2 ^ 64 in
    bloom_hashes_from h1' h2' s

unfoldable pub bloom_hashes : List ℕ → ℕ × ℕ
bloom_hashes s = bloom_hashes_from 5381 0 s

-- `bits[b / 8] |= 1 << (b % 8)`
abbrev pub set_bit : List ℕ → ℕ → List ℕ
set_bit bits b = set bits (b / 8) (bit_or (get_or bits (b / 8) 0) (2 ^ (b % 8)))

-- `bits[b / 8] & (1 << (b % 8)) != 0`
abbrev pub has_bit : List ℕ → ℕ → Bool
has_bit bits b = not (bit_and (get_or bits (b / 8) 0) (2 ^ (b % 8)) == 0)

unfoldable pub add : List ℕ → List ℕ → List ℕ
add bits s =
    let (h1, h2) = bloom_hashes s in
    let b1 = h1 % (length bits * 8) in
    let b2 = h2 % (length bits * 8) in set_bit (set_bit bits b1) b2

unfoldable pub contains : List ℕ → List ℕ → Bool
contains bits s =
    let (h1, h2) = bloom_hashes s in
    let b1 = h1 % (length bits * 8) in
    let b2 = h2 % (length bits * 8) in has_bit bits b1 && has_bit bits b2
