-- ===== src/Prelude/Text.antt =====
-- Texts as the lists of their bytes: equality, prefixes, and the literals of the messages.
use Prim.Native.Char.{code}
use Prim.Native.String.{String}
use Prim.Native.Nat.{ℕ}
use mathlib.Core.Bool.{Bool, true, false, ◌&&◌}
use mathlib.Core.List.{List, [], ◌∷◌, ◌++◌}
use mathlib.Core.Logic.{◌↔◌}
use mathlib.Core.Option.{Option, none, some}
use mathlib.Core.Path.{◌≡◌, refl}
use native.Mathlib.Omega.{arith}
use velo_rift.Prelude.Assoc.{Eq}
use velo_rift.Prelude.Tests.{◌==◌, if◌then◌else◌}

abbrev pub Text : Type 0
Text = List ℕ

abbrev pub codes : String → Text
codes String.[] = []
codes (String.◌∷◌ c s) = code c ∷ codes s

unfoldable pub text_beq : Text → Text → Bool
text_beq [] [] = true
text_beq [] (b ∷ ys) = false
text_beq (a ∷ xs) [] = false
text_beq (a ∷ xs) (b ∷ ys) = a == b && text_beq xs ys

text_beq→≡ : (xs ys : Text) → text_beq xs ys ≡ true → xs ≡ ys
unfolding text_beq
text_beq→≡ [] [] h = refl
text_beq→≡ [] (b ∷ ys) h = absurd (ground arith)
text_beq→≡ (a ∷ xs) [] h = absurd (ground arith)
text_beq→≡ (a ∷ xs) (b ∷ ys) h =
    let first : a ≡ b = ground arith in
    let rest : xs ≡ ys = text_beq→≡ xs ys (ground arith) in cc (first, rest)

pub text_beq_refl : (xs : Text) → text_beq xs xs ≡ true
unfolding text_beq
text_beq_refl [] = refl
text_beq_refl (a ∷ xs) = ground (arith, text_beq_refl xs)

pub text_beq_iff : (xs ys : Text) → (text_beq xs ys ≡ true) ↔ (xs ≡ ys)
text_beq_iff xs ys = (text_beq→≡ xs ys, λ e. rw e (text_beq_refl ys))

instance abbrev pub text_eq : Eq Text
text_eq = record { beq = text_beq; beq_iff = text_beq_iff }

-- `str::strip_prefix`, the prefix first
unfoldable pub strip_prefix : Text → Text → Option Text
strip_prefix [] text = some text
strip_prefix (a ∷ prefix) [] = none
strip_prefix (a ∷ prefix) (b ∷ text) =
    let rest = strip_prefix prefix text in if a == b then rest else none

pub strip_prefix-append : (prefix text : Text) → strip_prefix prefix (prefix ++ text) ≡ some text
unfolding strip_prefix
strip_prefix-append [] text = refl
strip_prefix-append (a ∷ prefix) text = ground (arith, strip_prefix-append prefix text)

pub strip_prefix-some :
    (prefix text rest : Text) → strip_prefix prefix text ≡ some rest → text ≡ prefix ++ rest
unfolding strip_prefix
strip_prefix-some [] text rest h = cc
strip_prefix-some (a ∷ prefix) [] rest h = absurd (cc)
strip_prefix-some (a ∷ prefix) (b ∷ text) rest h =
    let same : b ≡ a = ground arith in
    let tail : text ≡ prefix ++ rest = strip_prefix-some prefix text rest (ground arith) in
    cc (same, tail)

-- `trim_end_matches('/')`
unfoldable pub trim_end : Text → Text
trim_end [] = []
trim_end (c ∷ text) = elim (trim_end text) [
  | [] ↦ if c == b'/' then [] else c ∷ []
  | (d ∷ rest) ↦ c ∷ d ∷ rest
]
