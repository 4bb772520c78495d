-- ===== src/Inception/FixedString.antt =====
-- `FixedString` (crates/vrift-inception-layer/src/state/mod.rs) and `StackWriter`
-- (crates/vrift-inception-layer/src/macros.rs): text cut to the size of a buffer.
use mathlib.Core.List.{append_assoc}
use velo_rift.Prelude.Text.{Text}
use velo_rift.Prelude.{
  ℕ, zero, suc, ◌-◌, ◌≤◌, ◌<◌, ◌≡◌, refl, sym, ap, ◌∙◌, [], ◌∷◌, ◌++◌, Bool, true, ◌&&◌, ◌||◌, ltb,
  leb, ◌==◌, if◌then◌else◌, length, take, All, arith, length-append,
}

abbrev within : ℕ → ℕ → ℕ → Bool
within low high byte = leb low byte && leb byte high

abbrev continues : ℕ → Bool
continues byte = within 0x80 0xbf byte

-- the range of the second byte of a sequence of three or four
abbrev second_of : ℕ → ℕ → Bool
second_of first byte =
    if first == 0xe0
    then within 0xa0 0xbf byte
    else if first == 0xed
    then within 0x80 0x9f byte
    else if first == 0xf0
    then within 0x90 0xbf byte
    else if first == 0xf4
    then within 0x80 0x8f byte
    else continues byte

-- `std::str::from_utf8` succeeds
unfoldable pub is_utf8 : Text → Bool
is_utf8 [] = true
is_utf8 (a ∷ []) = ltb a 0x80
is_utf8 (a ∷ b ∷ []) = (ltb a 0x80 && ltb b 0x80) || (within 0xc2 0xdf a && continues b)
is_utf8 (a ∷ b ∷ c ∷ []) =
    let after_one = is_utf8 (b ∷ c ∷ []) in
    if ltb a 0x80
    then after_one
    else if within 0xc2 0xdf a
    then continues b && ltb c 0x80
    else within 0xe0 0xef a && (second_of a b && continues c)
is_utf8 (a ∷ b ∷ c ∷ d ∷ text) =
    let after_one = is_utf8 (b ∷ c ∷ d ∷ text) in
    let after_two = is_utf8 (c ∷ d ∷ text) in
    let after_three = is_utf8 (d ∷ text) in
    let after_four = is_utf8 text in
    if ltb a 0x80
    then after_one
    else if within 0xc2 0xdf a
    then continues b && after_two
    else if within 0xe0 0xef a
    then second_of a b && (continues c && after_three)
    else within 0xf0 0xf4 a && (second_of a b && (continues c && (continues d && after_four)))

-- `from_utf8(..).unwrap_or("")`
unfoldable pub text_or_empty : Text → Text
text_or_empty bytes = if is_utf8 bytes then bytes else []

-- `StackWriter::write_str`: what the buffer of `size` bytes holds after the text
unfoldable pub write_str : ℕ → Text → Text → Text
write_str size written text = written ++ take (size - length written) text

-- `FixedString`: the bytes below `len`
pub record FixedString : Type 0 where
  pub bytes : Text

-- `set`, for the size `size` of the type
unfoldable pub fixed : ℕ → Text → FixedString
fixed size text = record { bytes = take size text }

unfoldable pub as_str : FixedString → Text
as_str s = text_or_empty s.bytes

unfoldable pub is_empty : FixedString → Bool
is_empty s = length s.bytes == 0

-- ASCII text is UTF-8.
pub is_utf8-ascii : (text : Text) → All (λ byte. byte < 0x80) text → is_utf8 text ≡ true
unfolding is_utf8
is_utf8-ascii [] all = refl
is_utf8-ascii (a ∷ []) all = let lt = all.0 in ground arith
is_utf8-ascii (a ∷ b ∷ []) all = let lt = all.0 in let lt' = all.1.0 in ground arith
is_utf8-ascii (a ∷ b ∷ c ∷ []) all =
    let lt = all.0 in ground (arith, is_utf8-ascii (b ∷ c ∷ []) all.1)
is_utf8-ascii (a ∷ b ∷ c ∷ d ∷ text) all =
    let lt : ltb a 0x80 ≡ true = let l = all.0 in ground arith in
    rw lt (is_utf8-ascii (b ∷ c ∷ d ∷ text) all.1)

pub take-ascii :
    (n : ℕ) (text : Text) → All (λ byte. byte < 0x80) text → All (λ byte. byte < 0x80) (take n text)
take-ascii zero text all = tt
take-ascii (suc n) [] all = tt
take-ascii (suc n) (a ∷ text) all = (all.0, take-ascii n text all.1)

pub length-take : (n : ℕ) (text : Text) → length (take n text) ≤ n
length-take zero text = omega arith
length-take (suc n) [] = omega arith
length-take (suc n) (a ∷ text) = omega (arith, length-take n text)

-- A buffer is never written past its end.
pub write_str-fits :
    (size : ℕ) (written text : Text)
    → length written ≤ size
    → length (write_str size written text) ≤ size
unfolding write_str
write_str-fits size written text le =
    let a = length-append written (take (size - length written) text) in
    omega (arith, a, length-take (size - length written) text)

take-append :
    (k : ℕ) (xs ys : Text) → take k (xs ++ ys) ≡ take k xs ++ take (k - length (take k xs)) ys
take-append zero xs ys = refl
take-append (suc k) [] ys =
    let n : suc k ≡ suc k - length {A = ℕ} [] = omega arith in ap (λ n. take n ys) n
take-append (suc k) (x ∷ xs) ys =
    let n : suc k - length (x ∷ take k xs) ≡ k - length (take k xs) = omega arith in
    ap (λ (t : Text). x ∷ t) (take-append k xs ys) ∙ ap (λ n. x ∷ (take k xs ++ take n ys)) (sym n)

-- Two texts written one after the other are the text of both.
pub write_str-write_str :
    (size : ℕ) (written xs ys : Text)
    → write_str size (write_str size written xs) ys ≡ write_str size written (xs ++ ys)
unfolding write_str
write_str-write_str size written xs ys =
    let k = size - length written in
    let len = length-append written (take k xs) in
    let left : size - length (written ++ take k xs) ≡ k - length (take k xs) = omega (arith, len) in
    append_assoc written (take k xs) (take (size - length (written ++ take k xs)) ys)
    ∙ ap (λ n. written ++ (take k xs ++ take n ys)) left
    ∙ ap (λ (t : Text). written ++ t) (sym (take-append k xs ys))
