-- ===== src/Commands/ListDir/Names.antt =====
-- What `handle_manifest_list_dir` of crates/vrift-vdird/src/commands.rs lists.
use velo_rift.Commands.ListDir.Child.{IsListed, child_of_sound, child_of_complete}
use velo_rift.Commands.ListDir.{list_prefix, seen_name, child_of, list_from, list_dir}
use velo_rift.Ipc.Messages.{DirEntry}
use velo_rift.Manifest.Lmdb.Iter.{Row}
use velo_rift.Prelude.Text.{Text, text_beq, text_beq_iff, text_beq_refl}
use velo_rift.Manifest.Types.{slash, ends_with_slash}
use velo_rift.Prelude.{
  All, Any, ◌≢◌, ◌⊎◌, ◌++◌, ◌∙◌, sym, if◌then◌else◌, ◌≡◌, ◌↔◌, refl, ap, subst, List, [], ◌∷◌, none,
  some, Bool, true, false, not, ◌&&◌, ◌||◌, arith, Bool-cases, Option-cases, inl, inr,
}

abbrev pub names : List DirEntry → List Text
names [] = []
names (c ∷ cs) = c.name ∷ names cs

-- every name is listed once
abbrev pub Distinct : List DirEntry → Type 0
Distinct [] = Unit {0}
Distinct (c ∷ cs) = (seen_name c.name (names cs) ≡ false) × Distinct cs

module _ (prefix : Text) where
  -- the row lists this name
  abbrev gives : Text → Row → Bool
  gives name row = elim (child_of prefix row) [ none ↦ false | some c ↦ text_beq c.name name ]

  gives_one : Text → List Row → Bool
  gives_one name [] = false
  gives_one name (row ∷ rows) = let rest = gives_one name rows in gives name row || rest

  list_from-names :
      (name : Text) (seen : List Text) (rows : List Row)
      → seen_name name (names (list_from prefix seen rows))
        ≡ (gives_one name rows && not (seen_name name seen))
  unfolding list_from gives_one seen_name
  list_from-names name seen [] = refl
  list_from-names name seen (row ∷ rows) = elim (Option-cases (child_of prefix row)) [
    | inl n ↦ rw (n, list_from, gives_one, gives) (list_from-names name seen rows)
    | inr (c, s) ↦
        let skipped = list_from-names name seen rows in
        let pushed = list_from-names name (c.name ∷ seen) rows in
        elim (Bool-cases (text_beq c.name name)) [
          | inl t ↦
              let known : seen_name c.name seen ≡ seen_name name seen =
                ap (λ n. seen_name n seen) ((text_beq_iff c.name name).0 t) in
              rw (s, list_from, gives_one, gives) (ground (arith, skipped, pushed, known))
          | inr f ↦ rw (s, list_from, gives_one, gives) (ground (arith, skipped, pushed))
        ]
  ]

  list_from-Distinct : (seen : List Text) (rows : List Row) → Distinct (list_from prefix seen rows)
  unfolding list_from seen_name
  list_from-Distinct seen [] = tt
  list_from-Distinct seen (row ∷ rows) = elim (Option-cases (child_of prefix row)) [
    | inl n ↦ rw (n, list_from) (list_from-Distinct seen rows)
    | inr (c, s) ↦ elim (Bool-cases (seen_name c.name seen)) [
      | inl t ↦ rw (s, list_from, t) (list_from-Distinct seen rows)
      | inr f ↦
          let again = list_from-names c.name (c.name ∷ seen) rows in
          let own = text_beq_refl c.name in
          rw (s, list_from, f) (ground (arith, again, own), list_from-Distinct (c.name ∷ seen) rows)
    ]
  ]

  list_from_sound :
      (seen : List Text) (rows : List Row)
      → All (λ c. Any (λ row. IsListed prefix row c) rows) (list_from prefix seen rows)
  unfolding list_from
  list_from_sound seen [] = tt
  list_from_sound seen (row ∷ rows) = elim (Option-cases (child_of prefix row)) [
    | inl n ↦ rw (n, list_from) (later row rows _ (list_from_sound seen rows))
    | inr (c, s) ↦ elim (Bool-cases (seen_name c.name seen)) [
      | inl t ↦ rw (s, list_from, t) (later row rows _ (list_from_sound seen rows))
      | inr f ↦
          rw (s, list_from, f)
            (
              inl (child_of_sound prefix row c s),
              later row rows _ (list_from_sound (c.name ∷ seen) rows),
            )
    ]
  ]
    where
      later :
          (row : Row) (rows : List Row) (cs : List DirEntry)
          → All (λ c. Any (λ r. IsListed prefix r c) rows) cs
          → All (λ c. Any (λ r. IsListed prefix r c) (row ∷ rows)) cs
      later row rows [] h = tt
      later row rows (c ∷ cs) h = (inr h.0, later row rows cs h.1)

  -- the row lists this name
  abbrev pub HasListed : Text → Row → Type 0
  HasListed name row =
      (is_dir : Bool) × IsListed prefix row (record { name = name; is_dir = is_dir })

  gives→HasListed : (name : Text) (row : Row) → gives name row ≡ true → HasListed name row
  gives→HasListed name row h = elim (Option-cases (child_of prefix row)) [
    | inl n ↦ absurd (let bad : false ≡ true = rw (n, gives) at h in cc)
    | inr (c, s) ↦
        let same : text_beq c.name name ≡ true = rw (s, gives) at h in
        (
          c.is_dir,
          subst (λ (n : Text). IsListed prefix row (record { name = n; is_dir = c.is_dir }))
              ((text_beq_iff c.name name).0 same) (child_of_sound prefix row c s),
        )
  ]

  HasListed→gives : (name : Text) (row : Row) → HasListed name row → gives name row ≡ true
  HasListed→gives name row (is_dir, h) =
      rw (child_of_complete prefix row (record { name = name; is_dir = is_dir }) h, gives)
        (text_beq_refl name)

  gives_one-Any :
      (name : Text) (rows : List Row) → gives_one name rows ≡ true → Any (HasListed name) rows
  unfolding gives_one
  gives_one-Any name [] h = absurd (cc)
  gives_one-Any name (row ∷ rows) h = elim (Bool-cases (gives name row)) [
    | inl t ↦ inl (gives→HasListed name row t)
    | inr f ↦ inr (gives_one-Any name rows (ground arith))
  ]

  Any→gives_one :
      (name : Text) (rows : List Row) → Any (HasListed name) rows → gives_one name rows ≡ true
  unfolding gives_one
  Any→gives_one name [] h = absurd h
  Any→gives_one name (row ∷ rows) (inl h) = let g = HasListed→gives name row h in ground (arith, g)
  Any→gives_one name (row ∷ rows) (inr h) = let g = Any→gives_one name rows h in ground (arith, g)

-- what the code strips off the rows of a path: nothing at the root, and else the path, ended by one
-- slash more unless it ends in one
abbrev pub IsPrefix : Text → Text → Type 0
IsPrefix path prefix =
    (((path ≡ []) ⊎ (path ≡ slash ∷ [])) × (prefix ≡ []))
    ⊎ ((dir : Text) × (dir ≢ [])
        × (((ends_with_slash dir ≡ false) × (path ≡ dir)) ⊎ (path ≡ dir ++ (slash ∷ [])))
        × (prefix ≡ dir ++ (slash ∷ [])))

ends-appended : (dir : Text) → ends_with_slash (dir ++ (slash ∷ [])) ≡ true
ends-appended [] = refl
ends-appended (c ∷ []) = refl
ends-appended (c ∷ d ∷ dir) = ends-appended (d ∷ dir)

not_text : (path text : Text) → path ≢ text → text_beq path text ≡ false
not_text path text ne = elim (Bool-cases (text_beq path text)) [
  | inl t ↦ absurd (ne ((text_beq_iff path text).0 t))
  | inr f ↦ f
]

below_root :
    (path : Text)
    → path ≢ []
    → path ≢ slash ∷ []
    → list_prefix path ≡ (if ends_with_slash path then path else path ++ (slash ∷ []))
unfolding list_prefix
below_root path some_text below =
    rw (not_text path [] some_text, not_text path (slash ∷ []) below) refl

longer : (dir : Text) → dir ≢ [] → dir ++ (slash ∷ []) ≢ slash ∷ []
longer [] ne same = ne refl
longer (c ∷ []) ne same = let bad : slash ∷ [] ≡ [] = cc in absurd (cc)
longer (c ∷ d ∷ dir) ne same = let bad : d ∷ (dir ++ (slash ∷ [])) ≡ [] = cc in absurd (cc)

nonempty : (dir : Text) → dir ++ (slash ∷ []) ≢ []
nonempty [] same = absurd (cc)
nonempty (c ∷ dir) same = absurd (cc)

list_prefix-IsPrefix : (path prefix : Text) → IsPrefix path prefix → list_prefix path ≡ prefix
unfolding list_prefix text_beq
list_prefix-IsPrefix path prefix (inl (inl none_left, root)) = ap list_prefix none_left ∙ sym root
list_prefix-IsPrefix path prefix (inl (inr one_slash, root)) = ap list_prefix one_slash ∙ sym root
list_prefix-IsPrefix path prefix (inr (dir, ne, inl (open_end, same), ended)) =
    let below : dir ≢ slash ∷ [] =
      λ bad. let clash : true ≡ false = sym (ap ends_with_slash bad) ∙ open_end in absurd (cc) in
    ap list_prefix same ∙ below_root dir ne below ∙ rw open_end (sym ended)
list_prefix-IsPrefix path prefix (inr (dir, ne, inr same, ended)) =
    ap list_prefix same
    ∙ below_root (dir ++ (slash ∷ [])) (nonempty dir) (longer dir ne)
    ∙ rw (ends-appended dir) (sym ended)

-- The listing of a path, for the prefix that its children have, has every name once. Each entry is
-- a child that some row of the manifest has below the path, or the one without a name, and a name is
-- listed exactly when some row has a child of this name. The entry without a name is listed exactly
-- when some row's path has a slash directly after the prefix, as absolute paths have at the root.
pub list_dir-children :
    (path prefix : Text) (rows : List Row)
    → IsPrefix path prefix
    → let out = list_dir path rows in
      Distinct out
      × All (λ c. Any (λ row. IsListed prefix row c) rows) out
      × ((name : Text) → (seen_name name (names out) ≡ true) ↔ Any (HasListed prefix name) rows)
unfolding list_dir seen_name
list_dir-children path prefix rows h = rw (list_prefix-IsPrefix path prefix h) (
  list_from-Distinct prefix [] rows,
  list_from_sound prefix [] rows,
  λ name.
      let listed = list_from-names prefix name [] rows in
      (
        λ h. gives_one-Any prefix name rows (ground (arith, listed)),
        λ h. let g = Any→gives_one prefix name rows h in ground (arith, listed, g),
      ),
)
