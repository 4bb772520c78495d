-- ===== src/Inception/Normalize/Absolute.antt =====
-- `raw_path_normalize` on absolute paths, against the stack of names.
use velo_rift.Inception.Normalize.{
  dot, onto, at_slash, step_back, go_up, add_name, add_component, add_all,
}
use velo_rift.Inception.Normalize.Reference.{
  up, walk, free_of_slash, IsName, opened, closed, length-onto,
}
use velo_rift.Manifest.Types.{slash}
use velo_rift.Prelude.Text.{Text, text_beq}
use velo_rift.Prelude.{
  ℕ, ◌+◌, ◌≤◌, ◌<◌, ◌≡◌, ◌⊎◌, refl, sym, ap, ◌∙◌, All, List, [], ◌∷◌, none, some, true, false, leb,
  ◌==◌, if◌then◌else◌, length, arith, Bool-cases, inl, inr,
}

-- The output is that of the stack: the names after slashes, and maybe a last slash.
abbrev pub Shows : Text → List Text → Type 0
Shows out stack = (out ≡ closed stack) ⊎ (out ≡ opened stack)

opened-slash : (stack : List Text) → (rest : Text) × (opened stack ≡ slash ∷ rest)
opened-slash [] = ([], refl)
opened-slash (name ∷ stack) = (onto name (opened stack), refl)

-- stepping back over the bytes of a name ends at the slash before it
step_back-slash : (out : Text) → step_back (slash ∷ out) ≡ slash ∷ out
unfolding step_back
step_back-slash [] = refl
step_back-slash (c ∷ out) = refl

step_back-onto :
    (name : Text) (d : ℕ) (rest : Text)
    → free_of_slash name ≡ true
    → step_back (onto name (d ∷ rest)) ≡ step_back (d ∷ rest)
unfolding step_back
step_back-onto [] d rest clean = refl
step_back-onto (c ∷ name) d rest clean =
    let other : (c == slash) ≡ false = ground arith in
    step_back-onto name c (d ∷ rest) (ground arith) ∙ rw other refl

-- a name ends in a byte that is no slash, over what was there
onto-last :
    (c : ℕ) (name : Text) (d : ℕ) (rest : Text)
    → free_of_slash (c ∷ name) ≡ true
    → (x y : ℕ) × (r : Text) × (onto (c ∷ name) (d ∷ rest) ≡ x ∷ y ∷ r) × ((x == slash) ≡ false)
onto-last c [] d rest clean = (c, d, rest, refl, ground arith)
onto-last c (c' ∷ name) d rest clean = onto-last c' name c (d ∷ rest) (ground arith)

go_up-step_back :
    (x y : ℕ) (r : Text) → (x == slash) ≡ false → go_up (x ∷ y ∷ r) ≡ step_back (x ∷ y ∷ r)
unfolding go_up step_back
go_up-step_back x y r other = rw other refl

go_up-Shows :
    (out : Text) (stack : List Text)
    → All IsName stack
    → Shows out stack
    → go_up out ≡ opened (up stack)
unfolding go_up
go_up-Shows out [] all (inl same) = rw same refl
go_up-Shows out [] all (inr same) = rw same refl
go_up-Shows out ([] ∷ stack) all shows = absurd all.0
go_up-Shows out ((c ∷ name) ∷ stack) all (inl same) =
    let (rest, at) = opened-slash stack in
    let (x, y, r, e, other) = onto-last c name slash rest all.0 in
    same_up (same ∙ ap (onto (c ∷ name)) at) e other
      (step_back-onto (c ∷ name) slash rest all.0 ∙ step_back-slash rest ∙ sym at)
  where
    same_up :
        {x y : ℕ} {r goal whole : Text}
        → out ≡ whole
        → whole ≡ x ∷ y ∷ r
        → (x == slash) ≡ false
        → step_back whole ≡ goal
        → go_up out ≡ goal
    same_up {x} {y} {r} a e other back =
        ap go_up (a ∙ e) ∙ go_up-step_back x y r other ∙ ap step_back (sym e) ∙ back
go_up-Shows out ((c ∷ name) ∷ stack) all (inr same) =
    let (rest, at) = opened-slash stack in
    let (x, y, r, e, other) = onto-last c name slash rest all.0 in
    let last : onto (c ∷ name) (opened stack) ≡ x ∷ y ∷ r = ap (onto (c ∷ name)) at ∙ e in
    ap go_up (same ∙ ap (λ (xs : Text). slash ∷ xs) last)
    ∙ ap step_back (sym e)
    ∙ step_back-onto (c ∷ name) slash rest all.0
    ∙ step_back-slash rest
    ∙ sym at

-- the bytes of the names, with a slash before each
abbrev pub cost : List Text → ℕ
cost [] = 0
cost (name ∷ names) = 1 + length name + cost names

pub length-opened : (stack : List Text) → length (opened stack) ≡ 1 + cost stack
length-opened [] = refl
length-opened (name ∷ stack) =
    let l = length-onto name (opened stack) in omega (arith, l, length-opened stack)

closed_length :
    (c : ℕ) (name : Text) (stack : List Text)
    → length (closed ((c ∷ name) ∷ stack)) ≡ cost ((c ∷ name) ∷ stack)
closed_length c name stack =
    let l = length-onto (c ∷ name) (opened stack) in omega (arith, l, length-opened stack)

ready_to_add :
    (out : Text) (stack : List Text)
    → All IsName stack
    → Shows out stack
    → (out ≡ opened stack)
      ⊎ ((slash ∷ out ≡ opened stack)
          × (at_slash out ≡ false)
          × (length out ≡ cost stack)
          × (0 < length out))
ready_to_add out stack all (inr same) = inl same
ready_to_add out [] all (inl same) = inl same
ready_to_add out ([] ∷ stack) all (inl same) = absurd all.0
ready_to_add out ((c ∷ name) ∷ stack) all (inl same) =
    let (rest, at) = opened-slash stack in
    let (x, y, r, e, other) = onto-last c name slash rest all.0 in
    inr (
      ap (λ (xs : Text). slash ∷ xs) same,
      ap at_slash (same ∙ ap (onto (c ∷ name)) at ∙ e) ∙ other,
      ap length same ∙ closed_length c name stack,
      let l = ap length same ∙ closed_length c name stack in omega (arith, l),
    )

-- The name is put on after a slash exactly if it fits the buffer.
add_name-closed :
    (n : ℕ) (name out : Text) (stack : List Text)
    → All IsName stack
    → Shows out stack
    → add_name n name out
      ≡ (if leb (cost (name ∷ stack)) n then some (closed (name ∷ stack)) else none)
unfolding add_name
add_name-closed n name out stack all shows = elim (ready_to_add out stack all shows) [
  | inl same ↦
      let (rest, at) = opened-slash stack in
      let out_e : out ≡ slash ∷ rest = same ∙ at in
      let len : length (slash ∷ rest) ≡ 1 + cost stack = ap length (sym at) ∙ length-opened stack in
      rw (out_e, at) (ground (arith, len))
  | inr (same, off, len, some_byte) ↦ rw (sym same, off) (ground (arith, len, some_byte))
]

-- one step of the reference
abbrev walked : Text → List Text → List Text
walked name stack =
    if text_beq name (dot ∷ [])
    then stack
    else if text_beq name (dot ∷ dot ∷ [])
    then up stack
    else name ∷ stack

cost-up : (stack : List Text) → cost (up stack) ≤ cost stack
cost-up [] = omega arith
cost-up (name ∷ stack) = omega arith

up-IsName : (stack : List Text) → All IsName stack → All IsName (up stack)
up-IsName [] all = tt
up-IsName (name ∷ stack) all = all.1

-- what a component makes of the output: too long for the buffer, or the next stack
add_component-Shows :
    (n : ℕ) (name out : Text) (stack : List Text)
    → All IsName stack
    → IsName name
    → Shows out stack
    → All IsName (walked name stack)
      × (cost (walked name stack) ≤ cost (name ∷ stack))
      × (((add_component n name out ≡ none) × (n < cost (name ∷ stack)))
          ⊎ ((out' : Text) × (add_component n name out ≡ some out')
              × Shows out' (walked name stack)))
unfolding add_component
add_component-Shows n name out stack all this shows = elim (Bool-cases (text_beq name (dot ∷ []))) [
  | inl stay ↦ rw stay (all, omega arith, inr (out, refl, shows))
  | inr a ↦ elim (Bool-cases (text_beq name (dot ∷ dot ∷ []))) [
    | inl back ↦
        rw (a, back)
          (
            up-IsName stack all,
            omega (arith, cost-up stack),
            inr (go_up out, refl, inr (go_up-Shows out stack all shows)),
          )
    | inr b ↦
        let run = add_name-closed n name out stack all shows in
        rw (a, b, run)
          (
            (this, all),
            omega arith,
            elim (Bool-cases (leb (cost (name ∷ stack)) n)) [
              | inl fits ↦ rw fits (inr (closed (name ∷ stack), refl, inl refl))
              | inr long ↦ rw long (inl (refl, ground arith))
            ],
          )
  ]
]

pub add_all-Shows :
    (n : ℕ) (names : List Text) (out : Text) (stack : List Text)
    → All IsName names
    → All IsName stack
    → Shows out stack
    → ((add_all n names out ≡ none) × (n < cost stack + cost names))
      ⊎ ((out' : Text) × (add_all n names out ≡ some out') × Shows out' (walk names stack))
unfolding add_all
add_all-Shows n [] out stack these all shows = inr (out, refl, shows)
add_all-Shows n (name ∷ names) out stack these all shows =
    let (all', le, step) = add_component-Shows n name out stack all these.0 shows in
    elim step [
      | inl (stopped, long) ↦ inl (rw (stopped, add_all) refl, omega arith)
      | inr (out', ran, shows') ↦
          elim (add_all-Shows n names out' (walked name stack) these.1 all' shows') [
            | inl (stopped, long) ↦ inl (rw (ran, add_all) stopped, omega arith)
            | inr (out'', ran', shows'') ↦ inr (out'', rw (ran, add_all) ran', shows'')
          ]
    ]
