-- ===== src/Tests/Pack.antt =====
-- A packfile under a plain encoding.
use velo_rift.Pack.{
  header_size, PackHeader, PackIndexEntry, ok, PackCodec, new_header, new_writer, add, finish,
  PackReader, open_pack, get, overwrite,
}
use velo_rift.Pack.Laws.{found, pack-roundtrip}
use velo_rift.Pack.Layout.{Blobs, add_all, last_blob}
use velo_rift.Prelude.{
  ℕ, zero, suc, ◌^◌, ◌<◌, ◌≡◌, ◌==◌, refl, sym, ap, ◌∙◌, subst, List, [], ◌∷◌, ◌++◌, Option, none,
  some, true, take, drop, length, replicate, arith, Bool-cases, inl, inr, if◌then◌else◌,
  length-append,
}
use velo_rift.Tests.Journal.{put, cut, cut_then, take_front, drop_front}

abbrev fields : PackHeader → List ℕ
fields h = h.version ∷ h.entry_count ∷ h.index_offset ∷ h.data_offset ∷ replicate 20 0

abbrev header_bytes : PackHeader → Option (List ℕ)
header_bytes h = if length h.magic == 8 then some (h.magic ++ fields h) else none

abbrev with_fields : List ℕ → List ℕ → Option PackHeader
with_fields magic (version ∷ entry_count ∷ index_offset ∷ data_offset ∷ rest) = some (record {
  magic = magic;
  version = version;
  entry_count = entry_count;
  index_offset = index_offset;
  data_offset = data_offset;
})
with_fields magic _ = none

abbrev header_of : List ℕ → Option PackHeader
header_of bytes = with_fields (take 8 bytes) (drop 8 bytes)

header_bytes-magic :
    (h : PackHeader) (bytes : List ℕ)
    → header_bytes h ≡ some bytes
    → (length h.magic ≡ 8) × (h.magic ++ fields h ≡ bytes)
header_bytes-magic h bytes e = elim (Bool-cases (length h.magic == 8)) [
  | inl t ↦
      let same : some (h.magic ++ fields h) ≡ some bytes = rw t at e in (ground (arith, t), cc)
  | inr f ↦ let bad : none ≡ some bytes = rw f at e in absurd (cc)
]

header_bytes-length :
    (h : PackHeader) (bytes : List ℕ) → header_bytes h ≡ some bytes → length bytes ≡ header_size
unfolding replicate
header_bytes-length h bytes e =
    let (width, same) = header_bytes-magic h bytes e in
    let fixed : length (fields h) ≡ 24 = refl in
    let both = length-append h.magic (fields h) in
    let total : length (h.magic ++ fields h) ≡ header_size = omega (arith, both, fixed, width) in
    sym (ap length same) ∙ total

header_of-bytes :
    (h : PackHeader) (bytes : List ℕ) → header_bytes h ≡ some bytes → header_of bytes ≡ some h
header_of-bytes h bytes e =
    let (width, same) = header_bytes-magic h bytes e in
    subst (λ (b : List ℕ). header_of b ≡ some h) same
      (subst
        (λ n. with_fields (take n (h.magic ++ fields h)) (drop n (h.magic ++ fields h)) ≡ some h)
        width (rw (take_front h.magic (fields h), drop_front h.magic (fields h)) refl))

abbrev put_entries : List PackIndexEntry → List ℕ
put_entries [] = []
put_entries (e ∷ entries) = put e.hash (e.offset ∷ e.length ∷ put_entries entries)

abbrev index_bytes : List PackIndexEntry → Option (List ℕ)
index_bytes entries = some (length entries ∷ put_entries entries)

abbrev before_all : PackIndexEntry → Option (List PackIndexEntry) → Option (List PackIndexEntry)
before_all entry none = none
before_all entry (some entries) = some (entry ∷ entries)

abbrev entry_from :
    (List ℕ → Option (List PackIndexEntry)) → List ℕ → List ℕ → Option (List PackIndexEntry)
entry_from next hash (offset ∷ length ∷ rest) =
    before_all (record { hash = hash; offset = offset; length = length }) (next rest)
entry_from next hash _ = none

abbrev cut_entries : ℕ → List ℕ → Option (List PackIndexEntry)
cut_entries zero bytes = some []
cut_entries (suc n) bytes = cut_then (cut bytes) (entry_from (cut_entries n))

abbrev index_of : List ℕ → Option (List PackIndexEntry)
index_of [] = none
index_of (n ∷ bytes) = cut_entries n bytes

cut_entries-put :
    (entries : List PackIndexEntry)
    → cut_entries (length entries) (put_entries entries) ≡ some entries
cut_entries-put [] = refl
cut_entries-put (e ∷ entries) =
    let tail = e.offset ∷ e.length ∷ put_entries entries in
    rw (take_front e.hash tail, drop_front e.hash tail)
      (ap (before_all e) (cut_entries-put entries))

index_of-bytes :
    (entries : List PackIndexEntry) (bytes : List ℕ)
    → index_bytes entries ≡ some bytes
    → index_of bytes ≡ some entries
index_of-bytes entries bytes e =
    let same : length entries ∷ put_entries entries ≡ bytes = cc in
    subst (λ (b : List ℕ). index_of b ≡ some entries) same (cut_entries-put entries)

abbrev codec : PackCodec
codec = record {
  header_to_bytes = header_bytes;
  header_from_bytes = header_of;
  index_to_bytes = index_bytes;
  index_from_bytes = index_of;
  header_length = header_bytes-length;
  header_from-to = header_of-bytes;
  index_from-to = index_of-bytes;
}

-- two blobs, the first of which is added again with other bytes
abbrev blobs : Blobs
blobs = (1 ∷ [], 5 ∷ 6 ∷ []) ∷ (2 ∷ [], 7 ∷ []) ∷ (1 ∷ [], 8 ∷ []) ∷ []

abbrev or_empty : Option (List ℕ) → List ℕ
or_empty none = []
or_empty (some file) = file

abbrev packed : List ℕ
packed = or_empty (finish codec true (add_all blobs new_writer))

packed_finishes : finish codec true (add_all blobs new_writer) ≡ some packed
unfolding finish add_all add new_writer new_header overwrite
packed_finishes = refl

packed_fits : length packed < 2 ^ 64
unfolding finish add_all add new_writer new_header overwrite replicate
packed_fits = omega arith

pack-roundtrip_example :
    (r : PackReader) × (open_pack codec packed ≡ ok r)
    × ((h : List ℕ) → get h r ≡ found (last_blob h blobs none))
pack-roundtrip_example = pack-roundtrip codec blobs packed packed_finishes packed_fits
