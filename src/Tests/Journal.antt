-- ===== src/Tests/Journal.antt =====
-- A journal whose encoding can hold one entry.
use velo_rift.Journal.{
  JournalEntry, Entries, Codec, FlushAnswers, read_all, ReingestJournal, open_journal, flush,
  flushing, record_intent, put_cas_hash,
}
use velo_rift.Journal.Durable.{
  Operation, recorded, hashed, cleaned, step, run, InSync, run-InSync, flush_exposes_empty,
}
use velo_rift.Journal.Laws.{entry_after, step-lookup}
use velo_rift.Prelude.Assoc.{lookup, insert, IsMap}
use velo_rift.Prelude.Text.{Text, codes, text_eq, text_beq}
use velo_rift.Prelude.{
  ℕ, zero, suc, ap, ◌∙◌, subst, ◌++◌, ◌==◌, if◌then◌else◌, take, drop, length, ◌≡◌, refl, List, [],
  ◌∷◌, Option, none, some, true, arith,
}

-- a list after its length
abbrev pub put : List ℕ → List ℕ → List ℕ
put xs tail = length xs ∷ (xs ++ tail)

abbrev put_option : Option (List ℕ) → List ℕ → List ℕ
put_option none tail = 0 ∷ tail
put_option (some xs) tail = 1 ∷ put xs tail

abbrev put_pair : Text × JournalEntry → List ℕ → List ℕ
put_pair (key, entry) tail =
    put key
      (put entry.vpath (put entry.temp_path (entry.started_at ∷ put_option entry.cas_hash tail)))

abbrev put_pairs : Entries → List ℕ
put_pairs [] = []
put_pairs (pair ∷ pairs) = put_pair pair (put_pairs pairs)

abbrev encoded : Entries → Option (List ℕ)
encoded entries = some (length entries ∷ put_pairs entries)

abbrev pub cut : List ℕ → Option (List ℕ × List ℕ)
cut [] = none
cut (n ∷ bytes) = some (take n bytes, drop n bytes)

abbrev cut_option : List ℕ → Option (Option (List ℕ) × List ℕ)
cut_option [] = none
cut_option (flag ∷ bytes) =
    if flag == 0
    then some (none, bytes)
    else elim (cut bytes) [ none ↦ none | some (xs, rest) ↦ some (some xs, rest) ]

abbrev entry_from : List ℕ → List ℕ → List ℕ → List ℕ → Option ((Text × JournalEntry) × List ℕ)
entry_from key vpath temp_path [] = none
entry_from key vpath temp_path (started_at ∷ bytes) = elim (cut_option bytes) [
  | none ↦ none
  | some (cas_hash, rest) ↦ some (
    (
      key,
      record { vpath = vpath; temp_path = temp_path; cas_hash = cas_hash; started_at = started_at },
    ),
    rest,
  )
]

abbrev pub cut_then :
    {A : Type 0} → Option (List ℕ × List ℕ) → (List ℕ → List ℕ → Option A) → Option A
cut_then none next = none
cut_then (some (xs, rest)) next = next xs rest

abbrev cut_pair : List ℕ → Option ((Text × JournalEntry) × List ℕ)
cut_pair bytes = cut_then (cut bytes) λ key after_key. cut_then (cut after_key) λ vpath after_vpath.
    cut_then (cut after_vpath) λ temp_path rest. entry_from key vpath temp_path rest

abbrev before_all : Text × JournalEntry → Option Entries → Option Entries
before_all pair none = none
before_all pair (some pairs) = some (pair ∷ pairs)

abbrev and_pairs :
    Option ((Text × JournalEntry) × List ℕ) → (List ℕ → Option Entries) → Option Entries
and_pairs none next = none
and_pairs (some (pair, rest)) next = before_all pair (next rest)

abbrev cut_pairs : ℕ → List ℕ → Option Entries
cut_pairs zero bytes = some []
cut_pairs (suc n) bytes = and_pairs (cut_pair bytes) (cut_pairs n)

abbrev decoded : List ℕ → Option Entries
decoded [] = none
decoded (n ∷ bytes) = cut_pairs n bytes

pub take_front : (xs tail : List ℕ) → take (length xs) (xs ++ tail) ≡ xs
take_front [] tail = refl
take_front (x ∷ xs) tail = ap (λ t. x ∷ t) (take_front xs tail)

pub drop_front : (xs tail : List ℕ) → drop (length xs) (xs ++ tail) ≡ tail
drop_front [] tail = refl
drop_front (x ∷ xs) tail = drop_front xs tail

cut-put : (xs tail : List ℕ) → cut (put xs tail) ≡ some (xs, tail)
cut-put xs tail = rw (take_front xs tail, drop_front xs tail) refl

cut_option-put :
    (o : Option (List ℕ)) (tail : List ℕ) → cut_option (put_option o tail) ≡ some (o, tail)
cut_option-put none tail = refl
cut_option-put (some xs) tail = rw (take_front xs tail, drop_front xs tail) refl

cut_pair-put :
    (pair : Text × JournalEntry) (tail : List ℕ) → cut_pair (put_pair pair tail) ≡ some (pair, tail)
cut_pair-put (key, entry) tail =
    let last = put_option entry.cas_hash tail in
    let temp = put entry.temp_path (entry.started_at ∷ last) in
    let paths = put entry.vpath temp in
    rw (take_front key paths, drop_front key paths)
      (rw (take_front entry.vpath temp, drop_front entry.vpath temp)
        (rw
          (
            take_front entry.temp_path (entry.started_at ∷ last),
            drop_front entry.temp_path (entry.started_at ∷ last),
          )
          (rw (cut_option-put entry.cas_hash tail, entry_from) refl)))

cut_pairs-put : (entries : Entries) → cut_pairs (length entries) (put_pairs entries) ≡ some entries
cut_pairs-put [] = refl
cut_pairs-put (pair ∷ pairs) =
    ap (λ o. and_pairs o (cut_pairs (length pairs))) (cut_pair-put pair (put_pairs pairs))
    ∙ ap (before_all pair) (cut_pairs-put pairs)

decoded-encoded :
    (entries : Entries) (bytes : List ℕ)
    → encoded entries ≡ some bytes
    → decoded bytes ≡ some entries
decoded-encoded entries bytes e =
    let same : length entries ∷ put_pairs entries ≡ bytes = cc in
    subst (λ (b : List ℕ). decoded b ≡ some entries) same (cut_pairs-put entries)

abbrev codec : Codec
codec = record {
  to_bytes = encoded;
  from_bytes = decoded;
  from_bytes-to_bytes = decoded-encoded;
  from_bytes-empty = refl;
}

abbrev fine : FlushAnswers
fine = record { dirs = true; create = true; write = true; rename = true; drop = true }

abbrev fresh : ReingestJournal
fresh = record { entries = []; file = none }

abbrev name_c : Text
name_c = codes "c"

abbrev pending : JournalEntry
pending = record { vpath = name_c; temp_path = name_c; cas_hash = some (1 ∷ []); started_at = 4 }

abbrev one_pending : ReingestJournal
one_pending = record { entries = (name_c, pending) ∷ []; file = none }

abbrev operations : List (FlushAnswers × Operation)
operations = (fine, recorded 4 name_c name_c) ∷ (fine, hashed name_c (1 ∷ [])) ∷ []

run-InSync_example : InSync codec (run codec operations fresh).0
run-InSync_example = run-InSync codec operations fresh in_sync refl all_fine
  where
    in_sync : InSync codec fresh
    in_sync = unfold open_journal in refl

    all_fine : (run codec operations fresh).1 ≡ true
    all_fine =
        unfold run step record_intent put_cas_hash flushing flush insert lookup text_beq in refl

flush_exposes_empty_example :
    ((open_journal codec read_all (flush codec fine one_pending).renamed).entries ≡ [])
    × ((flush codec fine one_pending).answer ≡ some tt)
flush_exposes_empty_example =
    flush_exposes_empty codec fine one_pending (1 ∷ put_pairs one_pending.entries) refl
      (omega arith) refl

one_pending-IsMap : IsMap one_pending.entries
unfolding lookup
one_pending-IsMap = (refl, tt)

step-lookup_example :
    IsMap (step codec fine (cleaned (some 10) 3) one_pending).0.entries
    × (lookup name_c (step codec fine (cleaned (some 10) 3) one_pending).0.entries
        ≡ entry_after (cleaned (some 10) 3) name_c (lookup name_c one_pending.entries))
step-lookup_example =
    step-lookup codec fine (cleaned (some 10) 3) name_c one_pending one_pending-IsMap
