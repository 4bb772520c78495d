-- ===== src/Pack/Laws.antt =====
-- A packfile that was written is read back (crates/vrift-pack/src/lib.rs).
use velo_rift.Pack.Layout.{
  Blobs, add_all, last_blob, all_bytes, entries_at, drop-append, take-front, Points, add_all-writer,
  collect-Points,
}
use velo_rift.Pack.{
  header_size, PackIndexEntry, not_found, PackResult, ok, err, PackCodec, new_header, validate,
  PackWriter, new_writer, overwrite, PackReader, collect, slice, read_entry, get, finish,
  open_index, open_pack, pack_magic,
}
use mathlib.Core.List.{append_assoc}
use velo_rift.Prelude.Assoc.{lookup}
use velo_rift.Prelude.Text.{text_beq_refl, text_eq}
use velo_rift.Prelude.{
  ℕ, ◌+◌, ◌-◌, ◌%◌, ◌^◌, ◌<◌, ◌≡◌, refl, sym, ap, ◌∙◌, subst, List, [], ◌++◌, Option, none, some,
  true, false, ltb, length, take, drop, replicate, arith, length-append, length-replicate,
  Option-cases, inl, inr,
}

-- what a file that holds these blobs answers
abbrev pub found : Option (List ℕ) → PackResult (List ℕ)
found none = err not_found
found (some blob) = ok blob

validate-new : (n i d : ℕ) → validate (new_header n i d) ≡ none
unfolding validate new_header
validate-new n i d = rw (text_beq_refl pack_magic) refl

slice-middle :
    (xs ys zs : List ℕ) → slice (length xs) (length xs + length ys) (xs ++ (ys ++ zs)) ≡ ok ys
unfolding slice
slice-middle xs ys zs =
    let len = length-append xs (ys ++ zs) in
    let len' = length-append ys zs in
    let in_order : ltb (length xs + length ys) (length xs) ≡ false = ground arith in
    let inside : ltb (length (xs ++ (ys ++ zs))) (length xs + length ys) ≡ false =
      ground (arith, len, len') in
    let width : length xs + length ys - length xs ≡ length ys = omega arith in
    let at : drop (length xs) (xs ++ (ys ++ zs)) ≡ ys ++ zs =
      ap (λ n. drop n (xs ++ (ys ++ zs))) (unit_right (length xs)) ∙ drop-append xs (ys ++ zs) 0 in
    rw (in_order, inside, width, at) (ap ok (take-front ys zs))
  where
    unit_right : (n : ℕ) → n ≡ n + 0
    unit_right n = omega arith

-- the blob that an entry points at, read from the file
read_entry-Points :
    (front bytes : List ℕ) (index : List (List ℕ × PackIndexEntry)) (o : Option PackIndexEntry)
    (blob : Option (List ℕ))
    → length front + length bytes < 2 ^ 64
    → Points bytes o blob
    → read_entry (record { mmap = front ++ bytes; index = index; data_offset = length front }) o
      ≡ found blob
unfolding read_entry slice
read_entry-Points front bytes index none none fits points = refl
read_entry-Points front bytes index none (some blob) fits points = absurd points
read_entry-Points front bytes index (some entry) none fits points = absurd points
read_entry-Points front bytes index (some entry) (some blob) fits (width, le, at) =
    let len = length-append front bytes in
    let from = length front + entry.offset in
    let start : (length front + entry.offset) % 2 ^ 64 ≡ from = omega arith in
    let end : (from + entry.length) % 2 ^ 64 ≡ from + entry.length = omega arith in
    let inside : ltb (length (front ++ bytes)) (from + entry.length) ≡ false =
      ground (arith, len) in
    let in_order : ltb (from + entry.length) from ≡ false = ground arith in
    let size : from + entry.length - from ≡ length blob = omega arith in
    rw (start, end, inside, in_order, size)
      (ap ok (ap (take (length blob)) (drop-append front bytes entry.offset) ∙ at))

abbrev reader_of : List ℕ → List PackIndexEntry → ℕ → PackReader
reader_of mmap entries data_offset = record {
  mmap = mmap;
  index = collect entries [];
  data_offset = data_offset;
}

overwritten :
    (header_bytes rest : List ℕ)
    → length header_bytes ≡ header_size
    → overwrite header_bytes (replicate header_size 0 ++ rest) ≡ header_bytes ++ rest
unfolding overwrite
overwritten header_bytes rest len =
    let reserved = length-replicate {A = ℕ} header_size 0 in
    let skipped : length header_bytes ≡ length (replicate header_size 0) + 0 =
      omega (arith, len, reserved) in
    ap (λ n. header_bytes ++ drop n (replicate header_size 0 ++ rest)) skipped
    ∙ ap (λ (t : List ℕ). header_bytes ++ t) (drop-append (replicate header_size 0) rest 0)

module _ (c : PackCodec) where
  -- the file that `finish` returns
  finish-file :
      (w : PackWriter) (file : List ℕ)
      → finish c true w ≡ some file
      → (index_bytes header_bytes : List ℕ) × (c.index_to_bytes w.entries ≡ some index_bytes)
        × (c.header_to_bytes (
              new_header (length w.entries % 2 ^ 32) header_size (header_size + length index_bytes))
            ≡ some header_bytes)
        × (file ≡ header_bytes ++ (index_bytes ++ w.bytes))
  unfolding finish overwrite
  finish-file w file ran = elim (Option-cases (c.index_to_bytes w.entries)) [
    | inl n ↦ let bad : none ≡ some file = rw (n, finish) at ran in absurd (cc)
    | inr (index_bytes, s) ↦
        let header =
          new_header (length w.entries % 2 ^ 32) header_size (header_size + length index_bytes) in
        elim (Option-cases (c.header_to_bytes header)) [
          | inl n ↦ let bad : none ≡ some file = rw (s, n, finish) at ran in absurd (cc)
          | inr (header_bytes, s') ↦
              let same : some
                    (overwrite header_bytes (replicate header_size 0 ++ (index_bytes ++ w.bytes)))
                  ≡ some file =
                rw (s, s', finish) at ran in
              let file_e : overwrite header_bytes
                    (replicate header_size 0 ++ (index_bytes ++ w.bytes))
                  ≡ file =
                cc in
              (
                index_bytes,
                header_bytes,
                s,
                s',
                sym file_e
                    ∙ overwritten header_bytes (index_bytes ++ w.bytes)
                        (c.header_length header header_bytes s'),
              )
        ]
  ]

  open_pack-file :
      (entries : List PackIndexEntry) (n : ℕ) (index_bytes header_bytes bytes : List ℕ)
      → c.index_to_bytes entries ≡ some index_bytes
      → c.header_to_bytes (new_header n header_size (header_size + length index_bytes))
        ≡ some header_bytes
      → open_pack c (header_bytes ++ (index_bytes ++ bytes))
        ≡ ok (record {
          mmap = header_bytes ++ (index_bytes ++ bytes);
          index = collect entries [];
          data_offset = header_size + length index_bytes;
        })
  unfolding open_pack open_index new_header
  open_pack-file entries n index_bytes header_bytes bytes s s' =
      let header = new_header n header_size (header_size + length index_bytes) in
      let file = header_bytes ++ (index_bytes ++ bytes) in
      let len = c.header_length header header_bytes s' in
      let total = length-append header_bytes (index_bytes ++ bytes) in
      let long : ltb (length file) header_size ≡ false = ground (arith, len, total) in
      let front : take header_size file ≡ header_bytes =
        ap (λ k. take k file) (sym len) ∙ take-front header_bytes (index_bytes ++ bytes) in
      let back = c.header_from-to header header_bytes s' in
      let valid = validate-new n header_size (header_size + length index_bytes) in
      let middle : slice header_size (header_size + length index_bytes) file ≡ ok index_bytes =
        subst (λ k. slice k (k + length index_bytes) file ≡ ok index_bytes) len
          (slice-middle header_bytes index_bytes bytes) in
      let index = c.index_from-to entries index_bytes s in
      rw (long, front, back, valid, open_index, middle, index) refl

  -- A packfile that was written from any blobs, and is shorter than 2 ^ 64 bytes, is opened, and a
  -- hash reads from it as the last blob that was added under this hash, or as not found.
  pub pack-roundtrip :
      (blobs : Blobs) (file : List ℕ)
      → finish c true (add_all blobs new_writer) ≡ some file
      → length file < 2 ^ 64
      → (r : PackReader) × (open_pack c file ≡ ok r)
        × ((h : List ℕ) → get h r ≡ found (last_blob h blobs none))
  unfolding get new_writer lookup
  pack-roundtrip blobs file ran fits =
      let w = add_all blobs new_writer in
      let (index_bytes, header_bytes, s, s', file_e) = finish-file w file ran in
      let (entries_e, bytes_e) = add_all-writer blobs new_writer in
      let front = header_bytes ++ index_bytes in
      let bytes = all_bytes blobs in
      let index = collect (entries_at 0 blobs) [] in
      let header =
        new_header (length w.entries % 2 ^ 32) header_size (header_size + length index_bytes) in
      let start : length front ≡ header_size + length index_bytes =
        length-append header_bytes index_bytes
        ∙ ap (λ n. n + length index_bytes) (c.header_length header header_bytes s') in
      let regrouped : file ≡ front ++ bytes =
        file_e
        ∙ ap (λ bs. header_bytes ++ (index_bytes ++ bs)) bytes_e
        ∙ sym (append_assoc header_bytes index_bytes bytes) in
      let total = length-append front bytes in
      let bound : length front + length bytes < 2 ^ 64 =
        subst (λ n. n < 2 ^ 64) (ap length regrouped ∙ total) fits in
      let opened : open_pack c file
          ≡ ok (reader_of (front ++ bytes) (entries_at 0 blobs) (length front)) =
        ap (open_pack c) file_e
        ∙ open_pack-file w.entries (length w.entries % 2 ^ 32) index_bytes header_bytes w.bytes s s'
        ∙ ap (λ f. ok (reader_of f w.entries (header_size + length index_bytes)))
            (sym file_e ∙ regrouped)
        ∙ ap (λ es. ok (reader_of (front ++ bytes) es (header_size + length index_bytes))) entries_e
        ∙ ap (λ n. ok (reader_of (front ++ bytes) (entries_at 0 blobs) n)) (sym start) in
      (
        reader_of (front ++ bytes) (entries_at 0 blobs) (length front),
        opened,
        λ h.
            read_entry-Points front bytes index (lookup h index) (last_blob h blobs none) bound
              (collect-Points blobs [] h [] none tt),
      )
