-- ===== src/Tests/Cas.antt =====
-- A string in a small Bloom filter.
use velo_rift.Cas.{add, contains, new}
use velo_rift.Cas.Bloom.{contains-add}
use velo_rift.Prelude.{ℕ, ◌≡◌, refl, true, List, length-replicate, [], ◌∷◌, arith, inl}

abbrev small_filter : List ℕ
small_filter = new 4

contains-add_example : contains (add small_filter (97 ∷ 98 ∷ [])) (97 ∷ 98 ∷ []) ≡ true
unfolding new
contains-add_example =
    contains-add small_filter (97 ∷ 98 ∷ []) (97 ∷ 98 ∷ [])
      (omega (arith, length-replicate {A = ℕ} 4 0)) (inl refl)
