-- ===== src/Commands/ListDir/Child.antt =====
-- When a row of the manifest is a child of the listed path.
use Prim.Native.Nat.{bit_and}
use mathlib.Core.List.{append-nil}
use velo_rift.Commands.ListDir.{first_component, child_of}
use velo_rift.Ipc.Messages.{DirEntry}
use velo_rift.Manifest.Lmdb.Iter.{Row}
use velo_rift.Manifest.Types.{slash, starts_with_slash}
use velo_rift.Prelude.Text.{
  Text, text_beq, text_beq_iff, strip_prefix, strip_prefix-append, strip_prefix-some,
}
use velo_rift.Prelude.{
  ◌≡◌, ◌≢◌, ◌⊎◌, refl, sym, ap, ◌∙◌, subst, [], ◌∷◌, ◌++◌, Option, none, some, Bool, true, false,
  not, ◌||◌, ◌==◌, if◌then◌else◌, arith, Bool-cases, Option-cases, inl, inr,
}
use velo_rift.VDir.Types.{flag_dir}

abbrev pub has_slash : Text → Bool
has_slash [] = false
has_slash (c ∷ text) = c == slash || has_slash text

-- The row's path is the prefix, a name and a rest. The rest is empty for a file or a directory that
-- has a row itself, and begins with a slash for a directory that is part of a longer path.
abbrev pub IsChild : Text → Row → DirEntry → Type 0
IsChild prefix (path, entry) c =
    (rest : Text) × (path ≡ prefix ++ (c.name ++ rest))
    × (c.name ≢ [])
    × (has_slash c.name ≡ false)
    × (((rest ≡ []) × (c.is_dir ≡ not (bit_and entry.vnode.flags flag_dir == 0)))
        ⊎ ((starts_with_slash rest ≡ true) × (c.is_dir ≡ true)))

-- no child, but the entry without a name that the code lists for a row whose path has a slash
-- directly after the prefix
abbrev pub IsNameless : Text → Row → DirEntry → Type 0
IsNameless prefix (path, entry) c =
    (rest : Text) × (path ≡ prefix ++ rest)
    × (starts_with_slash rest ≡ true)
    × (c.name ≡ [])
    × (c.is_dir ≡ true)

abbrev pub IsListed : Text → Row → DirEntry → Type 0
IsListed prefix row c = IsChild prefix row c ⊎ IsNameless prefix row c

first_component-deeper :
    (name rest : Text)
    → has_slash name ≡ false
    → starts_with_slash rest ≡ true
    → first_component (name ++ rest) ≡ (name, true)
unfolding first_component
first_component-deeper [] [] clean starts = absurd (cc)
first_component-deeper [] (c ∷ rest) clean starts = rw starts refl
first_component-deeper (c ∷ name) rest clean starts =
    let other : (c == slash) ≡ false = ground arith in
    let more = first_component-deeper name rest (ground arith) starts in rw (other, more) refl

first_component-whole :
    (name : Text) → has_slash name ≡ false → first_component name ≡ (name, false)
unfolding first_component
first_component-whole [] clean = refl
first_component-whole (c ∷ name) clean =
    let other : (c == slash) ≡ false = ground arith in
    let more = first_component-whole name (ground arith) in rw (other, more) refl

-- what the two parts of `first_component` are
first_component-splits :
    (text : Text)
    → let (name, deeper) = first_component text in
      (rest : Text) × (text ≡ name ++ rest)
      × (has_slash name ≡ false)
      × (if deeper then starts_with_slash rest ≡ true else rest ≡ [])
unfolding first_component
first_component-splits [] = ([], refl, refl, refl)
first_component-splits (c ∷ text) =
    let (rest, split, clean, kind) = first_component-splits text in
    elim (Bool-cases (c == slash)) [
      | inl t ↦ rw t (c ∷ text, refl, refl, t)
      | inr f ↦ rw f (rest, ap (λ (xs : Text). c ∷ xs) split, rw f clean, kind)
    ]

not_empty : (name : Text) → name ≢ [] → text_beq name [] ≡ false
unfolding text_beq
not_empty [] named = absurd (named refl)
not_empty (c ∷ name) named = refl

not_nil : (name : Text) → text_beq name [] ≡ false → name ≢ []
not_nil name h z = absurd (let full = (text_beq_iff name []).1 z in cc)

module _ (prefix : Text) where
  deeper-IsListed :
      (row : Row) (name rest : Text)
      → row.0 ≡ prefix ++ (name ++ rest)
      → has_slash name ≡ false
      → starts_with_slash rest ≡ true
      → IsListed prefix row (record { name = name; is_dir = true })
  deeper-IsListed (path, entry) [] rest whole clean starts = inr (rest, whole, starts, refl, refl)
  deeper-IsListed (path, entry) (c ∷ name) rest whole clean starts =
      inl (rest, whole, λ bad. absurd (cc), clean, inr (starts, refl))

  pub child_of_sound :
      (row : Row) (c : DirEntry) → child_of prefix row ≡ some c → IsListed prefix row c
  unfolding child_of
  child_of_sound (path, entry) c h = elim (Option-cases (strip_prefix prefix path)) [
    | inl n ↦ let bad : none ≡ some c = rw (n, child_of) at h in absurd (cc)
    | inr (relative, s) ↦
        let (name, deeper) = first_component relative in
        let (rest, split, clean, kind) = first_component-splits relative in
        let whole : path ≡ prefix ++ relative = strip_prefix-some prefix path relative s in
        let path_e : path ≡ prefix ++ (name ++ rest) =
          whole ∙ ap (λ (xs : Text). prefix ++ xs) split in
        let motive : Option DirEntry → Type 0 =
          λ o. elim o [ none ↦ Unit {0} | some x ↦ IsListed prefix (path, entry) x ] in
        elim (Bool-cases deeper) [
          | inl d ↦
              let same : some (record { name = name; is_dir = true }) ≡ some c =
                rw (s, child_of, d) at h in
              let starts : starts_with_slash rest ≡ true = rw d at kind in
              subst motive same (deeper-IsListed (path, entry) name rest path_e clean starts)
          | inr w ↦
              let left : rest ≡ [] = rw w at kind in
              elim (Bool-cases (text_beq name [])) [
                | inl no_name ↦
                    let bad : none ≡ some c = rw (s, child_of, w, no_name) at h in absurd (cc)
                | inr named ↦
                    let is_dir = not (bit_and entry.vnode.flags flag_dir == 0) in
                    let same : some (record { name = name; is_dir = is_dir }) ≡ some c =
                      rw (s, child_of, w, named) at h in
                    subst motive same
                      (inl (rest, path_e, not_nil name named, clean, inl (left, refl)))
              ]
        ]
  ]

  pub child_of_complete :
      (row : Row) (c : DirEntry) → IsListed prefix row c → child_of prefix row ≡ some c
  unfolding child_of
  child_of_complete (path, entry) c (inl (rest, path_e, named, clean, inr (starts, dir))) =
      let s = strip_prefix-append prefix (c.name ++ rest) in
      let f = first_component-deeper c.name rest clean starts in
      rw (path_e, s, child_of, f) (ap (λ d. some (record { name = c.name; is_dir = d })) (sym dir))
  child_of_complete (path, entry) c (inl (rest, path_e, named, clean, inl (none_left, dir))) =
      let s = strip_prefix-append prefix (c.name ++ rest) in
      let f = first_component-whole c.name clean in
      let full : text_beq c.name [] ≡ false = not_empty c.name named in
      rw (path_e, s, child_of, none_left, append-nil c.name, f, full)
        (ap (λ d. some (record { name = c.name; is_dir = d })) (sym dir))
  child_of_complete (path, entry) c (inr (rest, path_e, starts, no_name, dir)) =
      let s = strip_prefix-append prefix rest in
      let f = first_component-deeper [] rest refl starts in
      rw (path_e, s, child_of, f)
        (ap (λ d. some (record { name = []; is_dir = d })) (sym dir)
          ∙ ap (λ n. some (record { name = n; is_dir = c.is_dir })) (sym no_name))
