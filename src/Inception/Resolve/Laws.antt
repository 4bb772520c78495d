-- ===== src/Inception/Resolve/Laws.antt =====
-- What `PathResolver::resolve` of crates/vrift-inception-layer/src/path.rs makes of a path.
use mathlib.Core.List.{append_assoc}
use velo_rift.Inception.FixedString.{
  as_str, is_empty, is_utf8, text_or_empty, write_str, write_str-write_str,
}
use velo_rift.Inception.Resolve.{
  PathResolver, path_size, absolute_text, applies, resolve_text, resolve,
}
use velo_rift.Manifest.Types.{slash, starts_with_slash, ends_with_slash}
use velo_rift.Prelude.Text.{Text, strip_prefix, strip_prefix-append, strip_prefix-some}
use velo_rift.Prelude.{
  ℕ, ◌≡◌, ◌↔◌, ◌⊎◌, refl, ap, [], ◌∷◌, ◌++◌, none, some, true, false, not, ◌&&◌, ltb, ◌==◌,
  if◌then◌else◌, length, length-append, get_or, arith, Bool-cases, Option-cases, inl, inr,
}

starts-append : (xs ys : Text) → starts_with_slash xs ≡ true → starts_with_slash (xs ++ ys) ≡ true
starts-append [] ys h = absurd (cc)
starts-append (x ∷ xs) ys h = h

starts-full :
    (bytes : Text) → starts_with_slash (text_or_empty bytes) ≡ true → (length bytes == 0) ≡ false
unfolding text_or_empty
starts-full [] h = absurd (let bad : false ≡ true = (unfold is_utf8 in h) in cc)
starts-full (c ∷ bytes) h = ground arith

absolute_text-relative :
    (r : PathResolver) (path : Text)
    → starts_with_slash path ≡ false
    → starts_with_slash (as_str r.project_root) ≡ true
    → absolute_text r path ≡ absolute_text r (as_str r.project_root ++ (slash ∷ path))
unfolding absolute_text is_empty as_str
absolute_text-relative r path relative absolute =
    let root = text_or_empty r.project_root.bytes in
    let starts = starts-append root (slash ∷ path) absolute in
    let full = starts-full r.project_root.bytes absolute in
    let slashed = write_str-write_str path_size [] root (slash ∷ []) in
    let whole = write_str-write_str path_size [] (root ++ (slash ∷ [])) path in
    rw (relative, full, starts, slashed, whole)
      (ap (λ (t : Text). some (text_or_empty (write_str path_size [] t)))
        (append_assoc root (slash ∷ []) path))

-- A path relative to an absolute project root resolves as the root, a slash and the path do.
pub resolve-relative :
    (r : PathResolver) (path : Text)
    → starts_with_slash path ≡ false
    → starts_with_slash (as_str r.project_root) ≡ true
    → resolve r path ≡ resolve r (as_str r.project_root ++ (slash ∷ path))
unfolding resolve
resolve-relative r path relative absolute =
    ap (λ o. if is_empty r.vfs_prefix then none else resolve_text r o)
      (absolute_text-relative r path relative absolute)

-- the prefix covers a path: it is a prefix up to the end of a component
abbrev pub Covers : Text → Text → Type 0
Covers prefix path =
    (rest : Text) × (path ≡ prefix ++ rest)
    × ((rest ≡ []) ⊎ ((ends_with_slash prefix ≡ true) ⊎ (starts_with_slash rest ≡ true)))

get_or-append : (xs ys : Text) (y : ℕ) → get_or (xs ++ (y ∷ ys)) (length xs) 0 ≡ y
get_or-append [] ys y = refl
get_or-append (x ∷ xs) ys y = get_or-append xs ys y

-- what the test on the boundary says after a prefix
boundary :
    (p rest : Text)
    → not (
        ltb (length p) (length (p ++ rest))
        && (not (ends_with_slash p) && not (get_or (p ++ rest) (length p) 0 == slash)))
      ≡ true
    → (rest ≡ []) ⊎ ((ends_with_slash p ≡ true) ⊎ (starts_with_slash rest ≡ true))
boundary p [] h = inl refl
boundary p (y ∷ ys) h =
    let at = get_or-append p ys y in
    let len = length-append p (y ∷ ys) in
    elim (Bool-cases (ends_with_slash p)) [
      | inl t ↦ inr (inl t)
      | inr f ↦ inr (inr (ground (arith, at, len)))
    ]

boundary_back :
    (p rest : Text)
    → (rest ≡ []) ⊎ ((ends_with_slash p ≡ true) ⊎ (starts_with_slash rest ≡ true))
    → not (
        ltb (length p) (length (p ++ rest))
        && (not (ends_with_slash p) && not (get_or (p ++ rest) (length p) 0 == slash)))
      ≡ true
boundary_back p [] c = let len = length-append p [] in ground (arith, len)
boundary_back p (y ∷ ys) (inl h) = absurd (cc)
boundary_back p (y ∷ ys) (inr (inl t)) = rw t (ground arith)
boundary_back p (y ∷ ys) (inr (inr t)) = let at = get_or-append p ys y in ground (arith, at)

-- A normalized path belongs to the file system, for a prefix that is UTF-8, exactly if the prefix
-- covers it: `/vrift` covers `/vrift` and `/vrift/a`, and not `/vrifts`.
pub applies_iff :
    (r : PathResolver) (path : Text)
    → is_utf8 r.vfs_prefix.bytes ≡ true
    → (applies r path ≡ true) ↔ Covers r.vfs_prefix.bytes path
unfolding applies as_str text_or_empty
applies_iff r path valid =
    let p = r.vfs_prefix.bytes in
    (
      λ h.
          let h' = rw valid at h in
          elim (Option-cases (strip_prefix p path)) [
            | inl n ↦ let bad : false ≡ true = rw n at h' in absurd (cc)
            | inr (rest, s) ↦
                let split = strip_prefix-some p path rest s in
                let h'' = rw (s, split) at h' in (rest, split, boundary p rest h'')
          ],
      λ (rest, split, c).
          let s = strip_prefix-append p rest in
          let back = boundary_back p rest c in rw (valid, split, s, back) refl,
    )
