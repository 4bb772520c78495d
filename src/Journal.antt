-- ===== src/Journal.antt =====
-- `ReingestJournal` of crates/vrift-vdird/src/journal.rs: the reingests that have begun, in memory
-- and in a file. The encoding of rkyv is a parameter, and what the operating system answers to a
-- `flush` and to `open` is an argument.
pub mod Durable
pub mod Laws
use velo_rift.Prelude.Assoc.{lookup, insert, remove, IsMap}
use velo_rift.Prelude.Text.{Text, text_eq}
use velo_rift.Prelude.{
  ℕ, ◌-◌, ◌≡◌, List, [], ◌∷◌, Option, none, some, Bool, true, false, ◌&&◌, ltb, ◌==◌, if◌then◌else◌,
  length,
}

pub record JournalEntry : Type 0 where
  pub vpath : Text
  pub temp_path : Text
  pub cas_hash : Option (List ℕ)
  pub started_at : ℕ

abbrev pub Entries : Type 0
Entries = List (Text × JournalEntry)

-- rkyv: a map that was encoded is decoded as it was, and the empty file is not an encoding
pub record Codec : Type 0 where
  pub to_bytes : Entries → Option (List ℕ)
  pub from_bytes : List ℕ → Option Entries
  pub from_bytes-to_bytes :
      (entries : Entries) (bytes : List ℕ)
      → to_bytes entries ≡ some bytes
      → from_bytes bytes ≡ some entries
  pub from_bytes-empty : from_bytes [] ≡ none

-- Whether each step of `flush` succeeds. The last is the write that dropping the `BufWriter` does,
-- whose failure nobody sees.
pub record FlushAnswers : Type 0 where
  pub dirs : Bool
  pub create : Bool
  pub write : Bool
  pub rename : Bool
  pub drop : Bool

-- how `open` finds the file: it cannot be opened, or a reading that failed on the way gave `part`
pub data OpenAnswer : Type 0 where
  unopened : OpenAnswer
  read_part : List ℕ → OpenAnswer
  read_all : OpenAnswer

-- the capacity of a `BufWriter`; longer data passes it by
abbrev pub buffer_capacity : ℕ
buffer_capacity = 8192

-- `file` is what the journal's path names.
pub record ReingestJournal : Type 0 where
  pub entries : Entries
  pub file : Option (List ℕ)

-- `flush`: the file between the rename and the drop of the writer, the file after it, and whether
-- it returns `Ok`
pub record Flushed : Type 0 where
  pub renamed : Option (List ℕ)
  pub left : Option (List ℕ)
  pub answer : Option (Unit {0})

-- what has left the buffer when the file is renamed
unfoldable pub written_through : List ℕ → List ℕ
written_through bytes = if ltb (length bytes) buffer_capacity then [] else bytes

unfoldable pub pending_entries : ReingestJournal → List JournalEntry
pending_entries j = values j.entries
  where
    values : Entries → List JournalEntry
    values [] = []
    values ((_, entry) ∷ rest) = entry ∷ values rest

abbrev pub is_hashed : JournalEntry → Bool
is_hashed entry = elim entry.cas_hash [ none ↦ false | some _ ↦ true ]

unfoldable pub hashed_values : Entries → List JournalEntry
hashed_values [] = []
hashed_values ((_, entry) ∷ rest) =
    let more = hashed_values rest in if is_hashed entry then entry ∷ more else more

unfoldable pub recoverable_entries : ReingestJournal → List JournalEntry
recoverable_entries j = hashed_values j.entries

-- the keys of the entries older than the threshold
unfoldable pub stale_keys : ℕ → Entries → List Text
stale_keys threshold [] = []
stale_keys threshold ((key, entry) ∷ rest) =
    let more = stale_keys threshold rest in
    if ltb entry.started_at threshold then key ∷ more else more

unfoldable pub remove_all : List Text → Entries → Entries
remove_all [] entries = entries
remove_all (key ∷ keys) entries = remove_all keys (remove key entries)

-- `now` is none when the clock is before the epoch
abbrev threshold_at : Option ℕ → ℕ → ℕ
threshold_at none max_age = 0
threshold_at (some now) max_age = now - max_age

unfoldable pub len : ReingestJournal → ℕ
len j = length j.entries

unfoldable pub is_empty : ReingestJournal → Bool
is_empty j = len j == 0

module _ (c : Codec) where
  abbrev decoded : List ℕ → Entries
  decoded bytes = elim (c.from_bytes bytes) [ some entries ↦ entries | none ↦ [] ]

  unfoldable pub open_journal : OpenAnswer → Option (List ℕ) → ReingestJournal
  open_journal how none = record { entries = []; file = none }
  open_journal unopened (some bytes) = record { entries = []; file = some bytes }
  open_journal (read_part part) (some bytes) = record { entries = decoded part; file = some bytes }
  open_journal read_all (some bytes) = record { entries = decoded bytes; file = some bytes }

  unfoldable pub flush : FlushAnswers → ReingestJournal → Flushed
  flush a j =
      let failed : Flushed = record { renamed = j.file; left = j.file; answer = none } in
      elim (c.to_bytes j.entries) [
        | none ↦ failed
        | some bytes ↦
            if a.dirs && a.create && a.write && a.rename
            then record {
              renamed = some (written_through bytes);
              left = some (if a.drop then bytes else written_through bytes);
              answer = some tt;
            }
            else failed
      ]

  -- an operation that flushes: the memory is changed whether the flush succeeds or not
  unfoldable pub flushing :
      {A : Type 0} → FlushAnswers → A → Entries → ReingestJournal → ReingestJournal × Option A
  flushing a result entries j =
      let f = flush a (record { entries = entries; file = j.file }) in
      (
        record { entries = entries; file = f.left },
        elim f.answer [ none ↦ none | some _ ↦ some result ],
      )

  -- `now` is the system's time, 0 if it is before the epoch.
  unfoldable pub record_intent :
      FlushAnswers → ℕ → Text → Text → ReingestJournal → ReingestJournal × Option (Unit {0})
  record_intent a now vpath temp_path j =
      let entry : JournalEntry = record {
        vpath = vpath;
        temp_path = temp_path;
        cas_hash = none;
        started_at = now;
      } in
      flushing a tt (insert vpath entry j.entries) j

  unfoldable pub put_cas_hash :
      FlushAnswers → Text → List ℕ → ReingestJournal → ReingestJournal × Option (Unit {0})
  put_cas_hash a vpath hash j = elim (lookup vpath j.entries) [
    | none ↦ (j, some tt)
    | some entry ↦ flushing a tt (insert vpath (record entry { cas_hash = some hash }) j.entries) j
  ]

  unfoldable pub complete :
      FlushAnswers → Text → ReingestJournal → ReingestJournal × Option (Unit {0})
  complete a vpath j = elim (lookup vpath j.entries) [
    | none ↦ (j, some tt)
    | some _ ↦ flushing a tt (remove vpath j.entries) j
  ]

  unfoldable pub cleanup_stale :
      FlushAnswers → Option ℕ → ℕ → ReingestJournal → ReingestJournal × Option ℕ
  cleanup_stale a now max_age_secs j =
      let keys = stale_keys (threshold_at now max_age_secs) j.entries in
      let kept = remove_all keys j.entries in
      if length keys == 0
      then (record { entries = kept; file = j.file }, some (length keys))
      else flushing a (length keys) kept j
