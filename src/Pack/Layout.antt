-- ===== src/Pack/Layout.antt =====
-- Where the blobs of a packfile lie (crates/vrift-pack/src/lib.rs).
use velo_rift.Pack.{PackIndexEntry, PackWriter, add, collect}
use velo_rift.Prelude.Assoc.{lookup, insert, lookup-insert}
use velo_rift.Prelude.Text.{text_beq, text_eq}
use velo_rift.Prelude.{
  ℕ, suc, ◌+◌, ◌≤◌, ◌≡◌, refl, sym, ap, ◌∙◌, subst, List, [], ◌∷◌, ◌++◌, Option, none, some,
  if◌then◌else◌, length, take, drop, arith, Bool-cases, inl, inr, length-append,
}
use mathlib.Core.List.{append_assoc, append-nil}

abbrev pub Blobs : Type 0
Blobs = List (List ℕ × List ℕ)

unfoldable pub add_all : Blobs → PackWriter → PackWriter
add_all [] w = w
add_all ((hash, blob) ∷ blobs) w = add_all blobs (add hash blob w)

-- the last blob of this hash
abbrev pub last_blob : List ℕ → Blobs → Option (List ℕ) → Option (List ℕ)
last_blob h [] before = before
last_blob h ((hash, blob) ∷ blobs) before =
    last_blob h blobs (if text_beq hash h then some blob else before)

abbrev pub all_bytes : Blobs → List ℕ
all_bytes [] = []
all_bytes ((hash, blob) ∷ blobs) = blob ++ all_bytes blobs

-- the index entries of blobs that follow `offset` bytes
abbrev pub entries_at : ℕ → Blobs → List PackIndexEntry
entries_at offset [] = []
entries_at offset ((hash, blob) ∷ blobs) =
    record { hash = hash; offset = offset; length = length blob }
    ∷ entries_at (offset + length blob) blobs

pub drop-append : (xs ys : List ℕ) (n : ℕ) → drop (length xs + n) (xs ++ ys) ≡ drop n ys
drop-append [] ys n = ap (λ k. drop k ys) (unit_left n)
  where
    unit_left : (n : ℕ) → 0 + n ≡ n
    unit_left n = omega arith
drop-append (x ∷ xs) ys n =
    let k : suc (length xs) + n ≡ suc (length xs + n) = omega arith in
    ap (λ j. drop j (x ∷ (xs ++ ys))) k ∙ drop-append xs ys n

pub take-front : (xs ys : List ℕ) → take (length xs) (xs ++ ys) ≡ xs
take-front [] ys = refl
take-front (x ∷ xs) ys = ap (λ t. x ∷ t) (take-front xs ys)

-- The index entry points at the blob in the data.
abbrev pub Points : List ℕ → Option PackIndexEntry → Option (List ℕ) → Type 0
Points bytes none none = Unit {0}
Points bytes none (some blob) = ⊥
Points bytes (some entry) none = ⊥
Points bytes (some entry) (some blob) =
    (entry.length ≡ length blob)
    × (entry.offset + length blob ≤ length bytes)
    × (take (length blob) (drop entry.offset bytes) ≡ blob)

pub add_all-writer :
    (blobs : Blobs) (w : PackWriter)
    → ((add_all blobs w).entries ≡ w.entries ++ entries_at (length w.bytes) blobs)
      × ((add_all blobs w).bytes ≡ w.bytes ++ all_bytes blobs)
unfolding add_all add
add_all-writer [] w = (sym (append-nil w.entries), sym (append-nil w.bytes))
add_all-writer ((hash, blob) ∷ blobs) w =
    let (entries, bytes) = add_all-writer blobs (add hash blob w) in
    let first : PackIndexEntry = record {
      hash = hash;
      offset = length w.bytes;
      length = length blob;
    } in
    (
      entries
          ∙ ap (λ n. (w.entries ++ (first ∷ [])) ++ entries_at n blobs) (length-append w.bytes blob)
          ∙ append_assoc w.entries (first ∷ []) (entries_at (length w.bytes + length blob) blobs),
      bytes ∙ append_assoc w.bytes blob (all_bytes blobs),
    )

Points-first :
    (pre blob rest hash : List ℕ)
    → Points
        (pre ++ (blob ++ rest))
        (some (record { hash = hash; offset = length pre; length = length blob }))
        (some blob)
Points-first pre blob rest hash =
    let len = length-append pre (blob ++ rest) in
    let len' = length-append blob rest in
    let at : drop (length pre) (pre ++ (blob ++ rest)) ≡ blob ++ rest =
      ap (λ n. drop n (pre ++ (blob ++ rest))) (unit_right (length pre))
      ∙ drop-append pre (blob ++ rest) 0 in
    (refl, omega (arith, len, len'), ap (take (length blob)) at ∙ take-front blob rest)
  where
    unit_right : (n : ℕ) → n ≡ n + 0
    unit_right n = omega arith

-- The collected index points at the last blob of every hash.
pub collect-Points :
    (blobs : Blobs) (pre h : List ℕ) (index : List (List ℕ × PackIndexEntry))
    (before : Option (List ℕ))
    → Points (pre ++ all_bytes blobs) (lookup h index) before
    → Points
        (pre ++ all_bytes blobs)
        (lookup h (collect (entries_at (length pre) blobs) index))
        (last_blob h blobs before)
unfolding collect
collect-Points [] pre h index before points = points
collect-Points ((hash, blob) ∷ blobs) pre h index before points =
    let first : PackIndexEntry = record {
      hash = hash;
      offset = length pre;
      length = length blob;
    } in
    let bytes = pre ++ (blob ++ all_bytes blobs) in
    let after : Points bytes (lookup h (insert hash first index))
        (if text_beq hash h then some blob else before) =
      rw (lookup-insert hash h first index) (elim (Bool-cases (text_beq hash h)) [
        | inl t ↦ rw t (Points-first pre blob (all_bytes blobs) hash)
        | inr f ↦ rw f points
      ]) in
    let index' = insert hash first index in
    let before' = if text_beq hash h then some blob else before in
    let assoc = append_assoc pre blob (all_bytes blobs) in
    let ih =
      collect-Points blobs (pre ++ blob) h index' before'
        (subst (λ bs. Points bs (lookup h index') before') (sym assoc) after) in
    subst
      (λ n.
        Points bytes (lookup h (collect (entries_at n blobs) index')) (last_blob h blobs before'))
      (length-append pre blob)
      (subst
        (λ bs.
          Points bs (lookup h (collect (entries_at (length (pre ++ blob)) blobs) index'))
            (last_blob h blobs before'))
        assoc ih)
