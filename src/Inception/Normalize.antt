-- ===== src/Inception/Normalize.antt =====
-- `raw_path_normalize` of crates/vrift-inception-layer/src/path.rs. `out` is what the output buffer
-- holds below `out_idx`, the last byte first, and `n` is the buffer's length.
pub mod Reference
pub mod Absolute
pub mod Total
use velo_rift.Manifest.Types.{slash, starts_with_slash}
use velo_rift.Prelude.Text.{Text, text_beq}
use velo_rift.Prelude.{
  ℕ, ◌+◌, List, [], ◌∷◌, Option, none, some, Bool, true, false, not, ◌&&◌, ◌||◌, ltb, leb, ◌==◌,
  if◌then◌else◌, length,
}

abbrev pub dot : ℕ
dot = b'.'

-- an empty component is passed over with its slashes
abbrev pub and_component : Text → List Text → List Text
and_component [] rest = rest
and_component (c ∷ name) rest = (c ∷ name) ∷ rest

-- the bytes before the first slash, and the components after it
unfoldable pub split_slashes : Text → Text × List Text
split_slashes [] = ([], [])
split_slashes (c ∷ text) =
    let (name, rest) = split_slashes text in
    if c == slash then ([], and_component name rest) else (c ∷ name, rest)

-- the components that the two inner loops find
unfoldable pub components : Text → List Text
components path = let (name, rest) = split_slashes path in and_component name rest

-- `copy_nonoverlapping` of a component to the end of the output
abbrev pub onto : Text → Text → Text
onto [] out = out
onto (c ∷ name) out = onto name (c ∷ out)

abbrev pub at_slash : Text → Bool
at_slash [] = false
at_slash (c ∷ out) = c == slash

-- the loop that steps back to the previous slash, but not over the first byte
unfoldable pub step_back : Text → Text
step_back [] = []
step_back (c ∷ []) = c ∷ []
step_back (c ∷ d ∷ out) = let rest = step_back (d ∷ out) in if c == slash then c ∷ d ∷ out else rest

-- `..`: with one byte or none in the output, nothing is done
unfoldable pub go_up : Text → Text
go_up [] = []
go_up (c ∷ []) = c ∷ []
go_up (c ∷ d ∷ out) = step_back (d ∷ out)

-- a component is added after a slash, if it fits
unfoldable pub add_name : ℕ → Text → Text → Option Text
add_name n name out =
    let needs_slash = ltb 0 (length out) && not (at_slash out) in
    if needs_slash && not (ltb (length out) n)
    then none
    else (let ready = if needs_slash then slash ∷ out else out in
        if leb (length ready + length name) n then some (onto name ready) else none)

unfoldable pub add_component : ℕ → Text → Text → Option Text
add_component n name out =
    if text_beq name (dot ∷ [])
    then some out
    else if text_beq name (dot ∷ dot ∷ [])
    then some (go_up out)
    else add_name n name out

unfoldable pub add_all : ℕ → List Text → Text → Option Text
add_all n [] out = some out
add_all n (name ∷ names) out = elim (add_component n name out) [
  | none ↦ none
  | some out' ↦ add_all n names out'
]

-- an empty output becomes the root or `.`
abbrev pub or_here : Text → Text → Text
or_here path [] = if starts_with_slash path then slash ∷ [] else dot ∷ []
or_here path (c ∷ out) = c ∷ out

abbrev is_none_left : Text → Bool
is_none_left [] = true
is_none_left (c ∷ path) = false

-- the text written, or none where the function returns `None`
unfoldable pub raw_path_normalize : ℕ → Text → Option Text
raw_path_normalize n path =
    if is_none_left path || n == 0
    then none
    else elim (add_all n (components path) (if starts_with_slash path then slash ∷ [] else [])) [
      | none ↦ none
      | some out ↦ some (onto (or_here path out) [])
    ]
