-- ===== src/Manifest/Paths.antt =====
-- One name has one normal form: `normalize_vfs_path` of crates/vrift-manifest/src/lib.rs.
use velo_rift.Manifest.Types.{
  slash, replace_doubles, ends_with_slash, starts_with_slash, pop, normalize_vfs_path,
}
use velo_rift.Prelude.{
  ◌≡◌, ◌≢◌, refl, ap, ◌∙◌, List, [], ◌∷◌, ◌++◌, Bool, true, false, not, ◌&&◌, ◌==◌, ltb,
  if◌then◌else◌, length, length-append, arith, ℕ, Bool-cases, inl, inr,
}

-- no two slashes stand side by side
unfoldable pub is_clean : List ℕ → Bool
is_clean [] = true
is_clean (a ∷ []) = true
is_clean (a ∷ b ∷ path) = not (a == slash && b == slash) && is_clean (b ∷ path)

-- a name between slashes: clean, not empty, and with no slash at either end
pub record IsName (path : List ℕ) : Type 0 where
  pub clean : is_clean path ≡ true
  pub nonempty : path ≢ []
  pub starts : starts_with_slash path ≡ false
  pub ends : ends_with_slash path ≡ false

replace_doubles-clean : (path : List ℕ) → is_clean path ≡ true → replace_doubles path ≡ path
unfolding replace_doubles is_clean
replace_doubles-clean [] c = refl
replace_doubles-clean (a ∷ []) c = refl
replace_doubles-clean (a ∷ b ∷ path) c = let rest = replace_doubles-clean (b ∷ path) in ground arith

is_clean-slash : (path : List ℕ) → IsName path → is_clean (slash ∷ path) ≡ true
unfolding is_clean
is_clean-slash [] n = refl
is_clean-slash (a ∷ path) n = let s = n.starts in let c = n.clean in rw (s, c) refl

is_clean-end :
    (path : List ℕ)
    → is_clean path ≡ true
    → ends_with_slash path ≡ false
    → is_clean (path ++ (slash ∷ [])) ≡ true
unfolding is_clean
is_clean-end [] c n = refl
is_clean-end (a ∷ []) c n = ground arith
is_clean-end (a ∷ b ∷ path) c n = let r = is_clean-end (b ∷ path) in ground arith

ends_with_slash-end : (path : List ℕ) → ends_with_slash (path ++ (slash ∷ [])) ≡ true
ends_with_slash-end [] = refl
ends_with_slash-end (a ∷ []) = refl
ends_with_slash-end (a ∷ b ∷ path) = ends_with_slash-end (b ∷ path)

pop-end : (path : List ℕ) → pop (path ++ (slash ∷ [])) ≡ path
pop-end [] = refl
pop-end (a ∷ []) = refl
pop-end (a ∷ b ∷ path) = ap (λ p. a ∷ p) (pop-end (b ∷ path))

ends_with_slash-cons :
    (path : List ℕ) → path ≢ [] → ends_with_slash (slash ∷ path) ≡ ends_with_slash path
ends_with_slash-cons [] n = absurd (n refl)
ends_with_slash-cons (a ∷ path) n = refl

normalize_kept :
    (path : List ℕ)
    → is_clean path ≡ true
    → ends_with_slash path ≡ false
    → normalize_vfs_path path ≡ (if starts_with_slash path then path else slash ∷ path)
unfolding normalize_vfs_path
normalize_kept path c n =
    rw (replace_doubles-clean path c)
      (elim (Bool-cases (ltb 1 (length path))) [ inl t ↦ rw (t, n) refl | inr f ↦ rw f refl ])

normalize_trimmed :
    (path : List ℕ)
    → is_clean (path ++ (slash ∷ [])) ≡ true
    → path ≢ []
    → normalize_vfs_path (path ++ (slash ∷ []))
      ≡ (if starts_with_slash path then path else slash ∷ path)
unfolding normalize_vfs_path
normalize_trimmed [] c n = absurd (n refl)
normalize_trimmed (a ∷ path) c n =
    let l = length-append (a ∷ path) (slash ∷ []) in
    let long : ltb 1 (length ((a ∷ path) ++ (slash ∷ []))) ≡ true = ground arith in
    rw (replace_doubles-clean ((a ∷ path) ++ (slash ∷ [])) c)
      (rw (long, ends_with_slash-end (a ∷ path), pop-end (a ∷ path)) refl)

-- The four ways to write a name, with or without a slash in front of it and at its end, have one
-- normal form, and that is its own normal form: the name after one slash.
pub normalize_spellings :
    (name : List ℕ)
    → IsName name
    → (normalize_vfs_path name ≡ slash ∷ name)
      × (normalize_vfs_path (slash ∷ name) ≡ slash ∷ name)
      × (normalize_vfs_path (name ++ (slash ∷ [])) ≡ slash ∷ name)
      × (normalize_vfs_path (slash ∷ (name ++ (slash ∷ []))) ≡ slash ∷ name)
normalize_spellings name n =
    let ends' = ends_with_slash-cons name n.nonempty ∙ n.ends in
    let front = is_clean-slash name n in
    (
      normalize_kept name n.clean n.ends ∙ rw n.starts refl,
      normalize_kept (slash ∷ name) front ends',
      normalize_trimmed name (is_clean-end name n.clean n.ends) n.nonempty ∙ rw n.starts refl,
      normalize_trimmed (slash ∷ name) (is_clean-end (slash ∷ name) front ends')
          (λ e. absurd (ground arith)),
    )
