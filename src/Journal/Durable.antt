-- ===== src/Journal/Durable.antt =====
-- What the file of the journal holds after each operation (crates/vrift-vdird/src/journal.rs).
use velo_rift.Journal.{
  Entries, Codec, FlushAnswers, read_all, buffer_capacity, ReingestJournal, written_through,
  remove_all, stale_keys, threshold_at, decoded, open_journal, flush, flushing, record_intent,
  put_cas_hash, complete, cleanup_stale,
}
use velo_rift.Prelude.Assoc.{lookup}
use velo_rift.Prelude.Text.{Text, text_eq}
use velo_rift.Prelude.{
  ℕ, ◌≡◌, ◌<◌, refl, List, [], ◌∷◌, Option, none, some, Bool, true, false, ◌&&◌, ltb, ◌==◌,
  if◌then◌else◌, length, arith, Bool-cases, Option-cases, inl, inr,
}

pub data Operation : Type 0 where
  recorded : (now : ℕ) → (vpath temp_path : Text) → Operation
  hashed : (vpath : Text) → (hash : List ℕ) → Operation
  completed : (vpath : Text) → Operation
  cleaned : (now : Option ℕ) → (max_age_secs : ℕ) → Operation

abbrev pub is_done : {A : Type 0} → Option A → Bool
is_done none = false
is_done (some _) = true

module _ (c : Codec) where
  -- the journal after one operation, and whether it returned `Ok`
  unfoldable pub step : FlushAnswers → Operation → ReingestJournal → ReingestJournal × Bool
  step a (recorded now vpath temp_path) j =
      let out = record_intent c a now vpath temp_path j in (out.0, is_done out.1)
  step a (hashed vpath hash) j = let out = put_cas_hash c a vpath hash j in (out.0, is_done out.1)
  step a (completed vpath) j = let out = complete c a vpath j in (out.0, is_done out.1)
  step a (cleaned now max_age) j =
      let out = cleanup_stale c a now max_age j in (out.0, is_done out.1)

  unfoldable pub run : List (FlushAnswers × Operation) → ReingestJournal → ReingestJournal × Bool
  run [] j = (j, true)
  run ((a, op) ∷ rest) j =
      let (j', fine) = step a op j in let (j'', others) = run rest j' in (j'', fine && others)

  -- the journal that a new process opens
  abbrev pub reopened : ReingestJournal → ReingestJournal
  reopened j = open_journal c read_all j.file

  abbrev pub InSync : ReingestJournal → Type 0
  InSync j = (reopened j).entries ≡ j.entries

  flushing-InSync :
      {A : Type 0} (a : FlushAnswers) (result : A) (entries : Entries) (j : ReingestJournal)
      → a.drop ≡ true
      → is_done (flushing c a result entries j).1 ≡ true
      → InSync (flushing c a result entries j).0
  unfolding flushing flush open_journal
  flushing-InSync a result entries j dropped fine = elim (Option-cases (c.to_bytes entries)) [
    | inl n ↦ let bad : false ≡ true = rw (n, flush, flushing) at fine in absurd (cc)
    | inr (bytes, s) ↦ elim (Bool-cases (a.dirs && a.create && a.write && a.rename)) [
      | inr f ↦ let bad : false ≡ true = rw (s, f, flush, flushing) at fine in absurd (cc)
      | inl t ↦
          rw (s, flushing, flush, t, dropped)
            (rw (c.from_bytes-to_bytes entries bytes s, decoded) refl)
    ]
  ]

  hashed-InSync :
      (a : FlushAnswers) (vpath : Text) (hash : List ℕ) (j : ReingestJournal)
      → InSync j
      → a.drop ≡ true
      → is_done (put_cas_hash c a vpath hash j).1 ≡ true
      → InSync (put_cas_hash c a vpath hash j).0
  unfolding put_cas_hash
  hashed-InSync a vpath hash j sync dropped fine = elim (Option-cases (lookup vpath j.entries)) [
    | inl n ↦ rw (n, put_cas_hash) sync
    | inr (entry, s) ↦
        let fine' = rw (s, put_cas_hash) at fine in
        rw (s, put_cas_hash) (flushing-InSync a tt _ j dropped fine')
  ]

  completed-InSync :
      (a : FlushAnswers) (vpath : Text) (j : ReingestJournal)
      → InSync j
      → a.drop ≡ true
      → is_done (complete c a vpath j).1 ≡ true
      → InSync (complete c a vpath j).0
  unfolding complete
  completed-InSync a vpath j sync dropped fine = elim (Option-cases (lookup vpath j.entries)) [
    | inl n ↦ rw (n, complete) sync
    | inr (entry, s) ↦
        let fine' = rw (s, complete) at fine in
        rw (s, complete) (flushing-InSync a tt _ j dropped fine')
  ]

  cleaned-InSync :
      (a : FlushAnswers) (now : Option ℕ) (max_age : ℕ) (j : ReingestJournal)
      → InSync j
      → a.drop ≡ true
      → is_done (cleanup_stale c a now max_age j).1 ≡ true
      → InSync (cleanup_stale c a now max_age j).0
  unfolding cleanup_stale remove_all
  cleaned-InSync a now max_age j sync dropped fine =
      go (stale_keys (threshold_at now max_age) j.entries) fine
    where
      go :
          (keys : List Text)
          → is_done
              (if length keys == 0
                then (
                  record { entries = remove_all keys j.entries; file = j.file },
                  some (length keys),
                )
                else flushing c a (length keys) (remove_all keys j.entries) j).1
            ≡ true
          → InSync
              (if length keys == 0
                then (
                  record { entries = remove_all keys j.entries; file = j.file },
                  some (length keys),
                )
                else flushing c a (length keys) (remove_all keys j.entries) j).0
      go [] fine = sync
      go (key ∷ keys) fine = elim (Bool-cases (length (key ∷ keys) == 0)) [
        | inl t ↦ absurd (ground arith)
        | inr f ↦
            let fine' = rw f at fine in
            rw f (flushing-InSync a (length (key ∷ keys)) _ j dropped fine')
      ]

  step-InSync :
      (a : FlushAnswers) (op : Operation) (j : ReingestJournal)
      → InSync j
      → a.drop ≡ true
      → (step a op j).1 ≡ true
      → InSync (step a op j).0
  unfolding step record_intent
  step-InSync a (recorded now vpath temp_path) j sync dropped fine =
      flushing-InSync a tt _ j dropped fine
  step-InSync a (hashed vpath hash) j sync dropped fine =
      hashed-InSync a vpath hash j sync dropped fine
  step-InSync a (completed vpath) j sync dropped fine = completed-InSync a vpath j sync dropped fine
  step-InSync a (cleaned now max_age) j sync dropped fine =
      cleaned-InSync a now max_age j sync dropped fine

  abbrev pub all_dropped : List (FlushAnswers × Operation) → Bool
  all_dropped [] = true
  all_dropped ((a, op) ∷ rest) = a.drop && all_dropped rest

  -- After any operations that all returned `Ok`, and of whose writers none failed when it was
  -- dropped, a process that opens the file finds the entries that were in memory, if it would have
  -- before them.
  pub run-InSync :
      (operations : List (FlushAnswers × Operation)) (j : ReingestJournal)
      → InSync j
      → all_dropped operations ≡ true
      → (run operations j).1 ≡ true
      → InSync (run operations j).0
  unfolding run
  run-InSync [] j sync dropped fine = sync
  run-InSync ((a, op) ∷ rest) j sync dropped fine =
      let this : (step a op j).1 ≡ true = ground arith in
      let others : (run rest (step a op j).0).1 ≡ true = ground arith in
      run-InSync rest (step a op j).0 (step-InSync a op j sync (ground arith) this) (ground arith)
        others

  -- A flush whose data fits the buffer puts an empty file in the journal's place before it writes
  -- the data: a process that opens the file between the two finds no entry, whatever was there.
  pub flush_exposes_empty :
      (a : FlushAnswers) (j : ReingestJournal) (bytes : List ℕ)
      → c.to_bytes j.entries ≡ some bytes
      → length bytes < buffer_capacity
      → (a.dirs && a.create && a.write && a.rename) ≡ true
      → ((open_journal c read_all (flush c a j).renamed).entries ≡ [])
        × ((flush c a j).answer ≡ some tt)
  unfolding flush open_journal written_through
  flush_exposes_empty a j bytes s short fine =
      let fits : ltb (length bytes) buffer_capacity ≡ true = ground arith in
      (rw (s, flush, fine, fits) (rw (c.from_bytes-empty, decoded) refl), rw (s, flush, fine) refl)
