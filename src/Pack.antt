-- ===== src/Pack.antt =====
-- Packfiles: crates/vrift-pack/src/lib.rs. The encoding of rkyv is a parameter. A file is the list
-- of its bytes, and whether the system calls of `finish` succeed is an argument.
pub mod Layout
pub mod Laws
use velo_rift.Prelude.Assoc.{lookup, insert}
use velo_rift.Prelude.Text.{Text, codes, text_beq, text_eq}
use velo_rift.Prelude.{
  ℕ, ◌+◌, ◌-◌, ◌%◌, ◌^◌, ◌≡◌, List, [], ◌∷◌, ◌++◌, Option, none, some, Bool, true, false, not, ◌||◌,
  ◌==◌, ltb, if◌then◌else◌, length, take, drop, replicate,
}

abbrev pub pack_magic : Text
pack_magic = codes "VELOPACK"

abbrev pub pack_version : ℕ
pack_version = 1

abbrev pub header_size : ℕ
header_size = 32

pub record PackHeader : Type 0 where
  pub magic : Text
  pub version : ℕ
  pub entry_count : ℕ
  pub index_offset : ℕ
  pub data_offset : ℕ

pub record PackIndexEntry : Type 0 where
  pub hash : List ℕ
  pub offset : ℕ
  pub length : ℕ

-- the faults of `open` and `get`; the last is a slice out of range, a panic
pub data PackError : Type 0 where
  too_small bad_encoding bad_magic unsupported_version not_found past_end out_of_range : PackError

pub data PackResult (A : Type 0) : Type 0 where
  ok : A → PackResult A
  err : PackError → PackResult A

-- rkyv: what was encoded is decoded as it was, and a header takes the 32 bytes of its fields
pub record PackCodec : Type 0 where
  pub header_to_bytes : PackHeader → Option (List ℕ)
  pub header_from_bytes : List ℕ → Option PackHeader
  pub index_to_bytes : List PackIndexEntry → Option (List ℕ)
  pub index_from_bytes : List ℕ → Option (List PackIndexEntry)
  pub header_length :
      (h : PackHeader) (bytes : List ℕ)
      → header_to_bytes h ≡ some bytes
      → length bytes ≡ header_size
  pub header_from-to :
      (h : PackHeader) (bytes : List ℕ)
      → header_to_bytes h ≡ some bytes
      → header_from_bytes bytes ≡ some h
  pub index_from-to :
      (entries : List PackIndexEntry) (bytes : List ℕ)
      → index_to_bytes entries ≡ some bytes
      → index_from_bytes bytes ≡ some entries

-- `PackHeader::new`
unfoldable pub new_header : ℕ → ℕ → ℕ → PackHeader
new_header entry_count index_offset data_offset = record {
  magic = pack_magic;
  version = pack_version;
  entry_count = entry_count;
  index_offset = index_offset;
  data_offset = data_offset;
}

unfoldable pub validate : PackHeader → Option PackError
validate h =
    if not (text_beq h.magic pack_magic)
    then some bad_magic
    else if not (h.version == pack_version)
    then some unsupported_version
    else none

pub record PackWriter : Type 0 where
  pub entries : List PackIndexEntry
  pub bytes : List ℕ

unfoldable pub new_writer : PackWriter
new_writer = record { entries = []; bytes = [] }

unfoldable pub add : List ℕ → List ℕ → PackWriter → PackWriter
add hash blob w = record {
  entries =
      w.entries ++ (record { hash = hash; offset = length w.bytes; length = length blob } ∷ []);
  bytes = w.bytes ++ blob;
}

-- writing at the start of a file
unfoldable pub overwrite : List ℕ → List ℕ → List ℕ
overwrite bytes file = bytes ++ drop (length bytes) file

pub record PackReader : Type 0 where
  pub mmap : List ℕ
  pub index : List (List ℕ × PackIndexEntry)
  pub data_offset : ℕ

-- `collect` into the map: a later entry of the same hash replaces an earlier one
unfoldable pub collect :
    List PackIndexEntry → List (List ℕ × PackIndexEntry) → List (List ℕ × PackIndexEntry)
collect [] index = index
collect (e ∷ entries) index = collect entries (insert e.hash e index)

-- `&bytes[start..end]`
unfoldable pub slice : ℕ → ℕ → List ℕ → PackResult (List ℕ)
slice start end bytes =
    if ltb end start || ltb (length bytes) end
    then err out_of_range
    else ok (take (end - start) (drop start bytes))

-- `get` from the entry on
unfoldable pub read_entry : PackReader → Option PackIndexEntry → PackResult (List ℕ)
read_entry r none = err not_found
read_entry r (some entry) =
    let start = (r.data_offset + entry.offset) % 2 ^ 64 in
    let end = (start + entry.length) % 2 ^ 64 in
    if ltb (length r.mmap) end then err past_end else slice start end r.mmap

unfoldable pub get : List ℕ → PackReader → PackResult (List ℕ)
get hash r = read_entry r (lookup hash r.index)

abbrev pub is_some : {A : Type 0} → Option A → Bool
is_some none = false
is_some (some _) = true

unfoldable pub contains : List ℕ → PackReader → Bool
contains hash r = is_some (lookup hash r.index)

unfoldable pub len : PackReader → ℕ
len r = length r.index

unfoldable pub is_empty : PackReader → Bool
is_empty r = length r.index == 0

module _ (c : PackCodec) where
  unfoldable pub finish : Bool → PackWriter → Option (List ℕ)
  finish io w =
      if io
      then elim (c.index_to_bytes w.entries) [
        | none ↦ none
        | some index_bytes ↦
            let data_offset = header_size + length index_bytes in
            elim (c.header_to_bytes
              (new_header (length w.entries % 2 ^ 32) header_size data_offset)) [
                | none ↦ none
                | some header_bytes ↦
                    some
                      (overwrite header_bytes (replicate header_size 0 ++ (index_bytes ++ w.bytes)))
              ]
      ]
      else none

  -- the index of a file whose header was read
  unfoldable pub open_index : List ℕ → PackHeader → PackResult PackReader
  open_index mmap header = elim (slice header.index_offset header.data_offset mmap) [
    | err fault ↦ err fault
    | ok index_bytes ↦ elim (c.index_from_bytes index_bytes) [
      | none ↦ err bad_encoding
      | some entries ↦
          ok (record { mmap = mmap; index = collect entries []; data_offset = header.data_offset })
    ]
  ]

  unfoldable pub open_pack : List ℕ → PackResult PackReader
  open_pack mmap =
      if ltb (length mmap) header_size
      then err too_small
      else elim (c.header_from_bytes (take header_size mmap)) [
        | none ↦ err bad_encoding
        | some header ↦ elim (validate header) [
          | some fault ↦ err fault
          | none ↦ open_index mmap header
        ]
      ]

-- `AccessProfile`: the hashes in the order of their first access
unfoldable pub has_hash : List ℕ → List (List ℕ) → Bool
has_hash hash [] = false
has_hash hash (known ∷ order) = let rest = has_hash hash order in text_beq known hash || rest

unfoldable pub record_access : List ℕ → List (List ℕ) → List (List ℕ)
record_access hash access_order =
    if has_hash hash access_order then access_order else access_order ++ (hash ∷ [])
