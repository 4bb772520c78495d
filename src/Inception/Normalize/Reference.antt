-- ===== src/Inception/Normalize/Reference.antt =====
-- Paths as stacks of names, the last name first: what normalization means.
use velo_rift.Inception.Normalize.{dot, and_component, split_slashes, components, onto}
use velo_rift.Manifest.Types.{slash}
use velo_rift.Prelude.Text.{Text, text_beq}
use velo_rift.Prelude.{
  ◌+◌, ◌≡◌, refl, ◌∙◌, All, List, [], ◌∷◌, ◌++◌, Bool, true, false, ◌==◌, if◌then◌else◌, length,
  arith, Bool-cases, inl, inr,
}

abbrev pub up : List Text → List Text
up [] = []
up (name ∷ stack) = stack

-- `.` stays, `..` goes up, and at the root stays there; every other name goes down
abbrev pub walk : List Text → List Text → List Text
walk [] stack = stack
walk (name ∷ names) stack = walk names (
    if text_beq name (dot ∷ [])
    then stack
    else if text_beq name (dot ∷ dot ∷ [])
    then up stack
    else name ∷ stack)

-- each name of the stack after a slash, and then `tail`
abbrev pub render : List Text → Text → Text
render [] tail = tail
render (name ∷ stack) tail = render stack (slash ∷ (name ++ tail))

abbrev pub free_of_slash : Text → Bool
free_of_slash [] = true
free_of_slash (c ∷ name) = if c == slash then false else free_of_slash name

-- a component: not empty, and without a slash
abbrev pub IsName : Text → Type 0
IsName [] = ⊥
IsName (c ∷ name) = free_of_slash (c ∷ name) ≡ true

-- the output with a slash after the last name, the last byte first
abbrev pub opened : List Text → Text
opened [] = slash ∷ []
opened (name ∷ stack) = slash ∷ onto name (opened stack)

-- the output without it
abbrev pub closed : List Text → Text
closed [] = slash ∷ []
closed (name ∷ stack) = onto name (opened stack)

pub onto-onto : (xs ys zs : Text) → onto (onto xs ys) zs ≡ onto ys (xs ++ zs)
onto-onto [] ys zs = refl
onto-onto (x ∷ xs) ys zs = onto-onto xs (x ∷ ys) zs

pub length-onto : (xs ys : Text) → length (onto xs ys) ≡ length xs + length ys
length-onto [] ys = omega arith
length-onto (x ∷ xs) ys = omega (arith, length-onto xs (x ∷ ys))

pub onto-opened :
    (stack : List Text) (tail : Text) → onto (opened stack) tail ≡ render stack (slash ∷ tail)
onto-opened [] tail = refl
onto-opened (name ∷ stack) tail =
    onto-onto name (opened stack) (slash ∷ tail) ∙ onto-opened stack (name ++ (slash ∷ tail))

and_component-IsName :
    (name : Text) (rest : List Text)
    → free_of_slash name ≡ true
    → All IsName rest
    → All IsName (and_component name rest)
and_component-IsName [] rest h all = all
and_component-IsName (c ∷ name) rest h all = (h, all)

split_slashes-IsName :
    (path : Text)
    → (free_of_slash (split_slashes path).0 ≡ true) × All IsName (split_slashes path).1
unfolding split_slashes
split_slashes-IsName [] = (refl, tt)
split_slashes-IsName (c ∷ path) =
    let (clean, all) = split_slashes-IsName path in
    elim (Bool-cases (c == slash)) [
      | inl t ↦
          rw t (refl, and_component-IsName (split_slashes path).0 (split_slashes path).1 clean all)
      | inr f ↦ rw f (rw f clean, all)
    ]

-- the components of a path are names
pub components-IsName : (path : Text) → All IsName (components path)
unfolding components
components-IsName path =
    let (clean, all) = split_slashes-IsName path in
    and_component-IsName (split_slashes path).0 (split_slashes path).1 clean all
