-- ===== src/Manifest/Lmdb/Commit.antt =====
-- `commit` moves the changes into the database: readers see what they saw.
use velo_rift.Manifest.Lmdb.{
  Backend, overlay, DeltaEntry, modified, deleted, LmdbManifest, get_by_hash, get, is_nil,
  apply_delta, apply_all, commit, added, removed, len, compute_path_hash,
}
use velo_rift.Manifest.Types.{ManifestEntry}
use velo_rift.Prelude.Assoc.{Eq, beq_refl, lookup, IsMap}
use velo_rift.Prelude.{
  ◌⊎◌, ◌≡◌, ◌+◌, refl, sym, ap, ◌∙◌, List, [], ◌∷◌, Option, none, some, Bool, true, false,
  if◌then◌else◌, arith, ℕ, Option-cases, Bool-cases, inl, inr,
}

overlay-some :
    (d : DeltaEntry) (o o' : Option ManifestEntry) → overlay (some d) o ≡ overlay (some d) o'
overlay-some (modified x) o o' = refl
overlay-some deleted o o' = refl

module _ {PathHash : Type 0} ⦃e : Eq PathHash⦄ (b : Backend PathHash) where
  abbrev Dbs : Type 0
  Dbs = b.entries_type.Db × b.paths_type.Db

  -- the database of entries after one round
  apply_delta-entries :
      (known : b.path_map.Map) (h : PathHash) (d : DeltaEntry) (dbs dbs' : Dbs)
      → apply_delta b known h d dbs ≡ some dbs'
      → elim d [
        | modified x ↦ b.entries_type.put h x dbs.0
        | deleted ↦ b.entries_type.delete h dbs.0
      ]
        ≡ some (dbs'.0)
  unfolding apply_delta
  apply_delta-entries known h (modified x) dbs dbs' s = ground arith
  apply_delta-entries known h deleted dbs dbs' s = ground arith

  apply_delta-get :
      (known : b.path_map.Map) (h : PathHash) (d : DeltaEntry) (dbs dbs' : Dbs) (k : PathHash)
      → apply_delta b known h d dbs ≡ some dbs'
      → b.entries_type.get k dbs'.0
        ≡ (if e.beq h k then overlay (some d) none else b.entries_type.get k dbs.0)
  apply_delta-get known h (modified x) dbs dbs' k s =
      b.entries_type.get-put h k x dbs.0 dbs'.0
        (apply_delta-entries known h (modified x) dbs dbs' s)
  apply_delta-get known h deleted dbs dbs' k s =
      b.entries_type.get-delete h k dbs.0 dbs'.0 (apply_delta-entries known h deleted dbs dbs' s)

  apply_all-next :
      (known : b.path_map.Map) (h : PathHash) (d : DeltaEntry) (rest : List (PathHash × DeltaEntry))
      (dbs dbs' : Dbs)
      → apply_all b known ((h, d) ∷ rest) dbs ≡ some dbs'
      → (dbs1 : Dbs) × (apply_delta b known h d dbs ≡ some dbs1)
        × (apply_all b known rest dbs1 ≡ some dbs')
  apply_all-next known h d rest dbs dbs' s = elim (Option-cases (apply_delta b known h d dbs)) [
    | inl n ↦
        let out : apply_all b known ((h, d) ∷ rest) dbs ≡ none =
          unfold apply_all in rw (n, apply_all) refl in
        absurd (cc)
    | inr (dbs1, q) ↦
        let out : apply_all b known ((h, d) ∷ rest) dbs ≡ apply_all b known rest dbs1 =
          unfold apply_all in rw (q, apply_all) refl in
        (dbs1, q, sym out ∙ s)
  ]

  apply_all-get :
      (known : b.path_map.Map) (ds : List (PathHash × DeltaEntry)) (dbs dbs' : Dbs) (k : PathHash)
      → IsMap ds
      → apply_all b known ds dbs ≡ some dbs'
      → b.entries_type.get k dbs'.0 ≡ overlay (lookup k ds) (b.entries_type.get k dbs.0)
  apply_all-get known [] dbs dbs' k u s =
      let s' : some dbs ≡ some dbs' = (unfold apply_all in s) in unfold lookup in ground arith
  apply_all-get known ((h, d) ∷ rest) dbs dbs' k (u, us) s =
      let (dbs1, q, s1) = apply_all-next known h d rest dbs dbs' s in
      let now = apply_delta-get known h d dbs dbs1 k q in
      apply_all-get known rest dbs1 dbs' k us s1
      ∙ ap (overlay (lookup k rest)) now
      ∙ elim (Bool-cases (e.beq h k)) [
        | inl t ↦
            let gone : lookup k rest ≡ none =
              ap (λ j. lookup j rest) (sym ((e.beq_iff h k).0 t)) ∙ u in
            rw (gone, t) (unfold lookup in rw t (overlay-some d _ _))
        | inr f ↦ rw f (unfold lookup in rw f refl)
      ]

  lookup-other :
      (h j : PathHash) (d : DeltaEntry) (ds : List (PathHash × DeltaEntry))
      → lookup h ((j, d) ∷ ds) ≡ none
      → (e.beq h j ≡ false) × (lookup h ds ≡ none)
  unfolding lookup
  lookup-other h j d ds n = ground (arith, e.beq_iff h j, e.beq_iff j h)

  added_congr :
      (h : PathHash) (o : Option ManifestEntry) (db db' : b.entries_type.Db)
      (ds : List (PathHash × DeltaEntry))
      → ((k : PathHash)
          → b.entries_type.get k db' ≡ (if e.beq h k then o else b.entries_type.get k db))
      → lookup h ds ≡ none
      → (added b db' ds ≡ added b db ds) × (removed b db' ds ≡ removed b db ds)
  unfolding added removed
  added_congr h o db db' [] same n = (refl, refl)
  added_congr h o db db' ((j, modified x) ∷ ds) same n =
      let (f, n') = lookup-other h j (modified x) ds n in
      let at : b.entries_type.get j db' ≡ b.entries_type.get j db = same j ∙ rw f refl in
      let r = added_congr h o db db' ds same n' in (rw (at, r.0) refl, r.1)
  added_congr h o db db' ((j, deleted) ∷ ds) same n =
      let (f, n') = lookup-other h j deleted ds n in
      let at : b.entries_type.get j db' ≡ b.entries_type.get j db = same j ∙ rw f refl in
      let r = added_congr h o db db' ds same n' in (r.0, rw (at, r.1) refl)

  apply_all-len :
      (known : b.path_map.Map) (ds : List (PathHash × DeltaEntry)) (dbs dbs' : Dbs)
      → IsMap ds
      → apply_all b known ds dbs ≡ some dbs'
      → b.entries_type.len dbs'.0 + removed b dbs.0 ds ≡ b.entries_type.len dbs.0 + added b dbs.0 ds
  unfolding added removed
  apply_all-len known [] dbs dbs' u s =
      let s' : some dbs ≡ some dbs' = (unfold apply_all in s) in
      let same : dbs.0 ≡ dbs'.0 = ground arith in rw same refl
  apply_all-len known ((h, modified x) ∷ ds) dbs dbs' (u, us) s =
      let (dbs1, q, s1) = apply_all-next known h (modified x) ds dbs dbs' s in
      let now = λ (k : PathHash). apply_delta-get known h (modified x) dbs dbs1 k q in
      let same = added_congr h (some x) dbs.0 dbs1.0 ds now u in
      let grown =
        b.entries_type.len-put h x dbs.0 dbs1.0
          (apply_delta-entries known h (modified x) dbs dbs1 q) in
      let rest = apply_all-len known ds dbs1 dbs' us s1 in
      omega (arith, same.0, same.1, grown, rest)
  apply_all-len known ((h, deleted) ∷ ds) dbs dbs' (u, us) s =
      let (dbs1, q, s1) = apply_all-next known h deleted ds dbs dbs' s in
      let now = λ (k : PathHash). apply_delta-get known h deleted dbs dbs1 k q in
      let same = added_congr h none dbs.0 dbs1.0 ds now u in
      let shrunk =
        b.entries_type.len-delete h dbs.0 dbs1.0 (apply_delta-entries known h deleted dbs dbs1 q) in
      let rest = apply_all-len known ds dbs1 dbs' us s1 in
      omega (arith, same.0, same.1, shrunk, rest)

  commit-applied :
      (synced : Bool) (m m' : LmdbManifest b)
      → commit b synced m ≡ some m'
      → ((m ≡ m') × (is_nil (b.delta_map.entries m.delta) ≡ true))
        ⊎ ((dbs : Dbs) × (apply_all b m.delta_paths
                (b.delta_map.entries m.delta)
                (m.entries_db, m.paths_db)
              ≡ some dbs)
            × (m'.entries_db ≡ dbs.0)
            × (m'.delta ≡ b.delta_map.empty))
  unfolding commit
  commit-applied synced m m' s = elim (Bool-cases (is_nil (b.delta_map.entries m.delta))) [
    | inl t ↦ let s' : some m ≡ some m' = rw t at s in inl (ground arith, t)
    | inr f ↦
        elim (Option-cases
          (apply_all b m.delta_paths (b.delta_map.entries m.delta) (m.entries_db, m.paths_db))) [
            | inl n ↦ absurd (ground arith)
            | inr (dbs, q) ↦ inr (dbs, q, ground arith, ground arith)
          ]
  ]

  nothing_held :
      (ds : List (PathHash × DeltaEntry)) → ((k : PathHash) → lookup k ds ≡ none) → ds ≡ []
  unfolding lookup
  nothing_held [] h = refl
  nothing_held ((k, d) ∷ ds) h = let n = h k in let r = beq_refl k in absurd (ground arith)

  entries-nil :
      (k : PathHash) (ds : List (PathHash × DeltaEntry)) → is_nil ds ≡ true → lookup k ds ≡ none
  unfolding lookup
  entries-nil k [] t = refl
  entries-nil k (d ∷ ds) t = absurd (ground arith)

  entries-empty : b.delta_map.entries b.delta_map.empty ≡ []
  entries-empty =
      nothing_held _ (λ k. b.delta_map.lookup-entries k b.delta_map.empty ∙ b.delta_map.get-empty k)

  committed-get :
      (m m' : LmdbManifest b) (h : PathHash) (dbs : Dbs)
      → apply_all b m.delta_paths (b.delta_map.entries m.delta) (m.entries_db, m.paths_db)
        ≡ some dbs
      → m'.entries_db ≡ dbs.0
      → m'.delta ≡ b.delta_map.empty
      → get_by_hash b h m' ≡ get_by_hash b h m
  unfolding get_by_hash
  committed-get m m' h dbs q es empty =
      rw (empty, es, b.delta_map.get-empty h)
        (apply_all-get m.delta_paths (b.delta_map.entries m.delta) (m.entries_db, m.paths_db) dbs h
            (b.delta_map.entries-IsMap m.delta) q
          ∙ ap (λ o. overlay o (b.entries_type.get h m.entries_db))
              (b.delta_map.lookup-entries h m.delta))

  committed-len :
      (m m' : LmdbManifest b) (dbs : Dbs)
      → apply_all b m.delta_paths (b.delta_map.entries m.delta) (m.entries_db, m.paths_db)
        ≡ some dbs
      → m'.entries_db ≡ dbs.0
      → m'.delta ≡ b.delta_map.empty
      → len b m' ≡ len b m
  unfolding len added removed
  committed-len m m' dbs q es empty =
      let counts =
        apply_all-len m.delta_paths (b.delta_map.entries m.delta) (m.entries_db, m.paths_db) dbs
          (b.delta_map.entries-IsMap m.delta) q in
      rw (empty, es, entries-empty) (omega (arith, counts))

  -- A commit that succeeds leaves every path reading as before, and the number of entries as
  -- before, and after it no change is pending for any path.
  pub commit-get :
      (synced : Bool) (m m' : LmdbManifest b) (path : List ℕ)
      → commit b synced m ≡ some m'
      → (get b path m' ≡ get b path m)
        × (len b m' ≡ len b m)
        × (b.delta_map.get (compute_path_hash b path) m'.delta ≡ none)
  unfolding get
  commit-get synced m m' path s =
      let h = compute_path_hash b path in
      elim (commit-applied synced m m' s) [
        | inl (same, nil) ↦ (
          ap (get_by_hash b h) (sym same),
          ap (len b) (sym same),
          ap (λ (n : LmdbManifest b). b.delta_map.get h n.delta) (sym same)
              ∙ sym (b.delta_map.lookup-entries h m.delta)
              ∙ entries-nil h _ nil,
        )
        | inr (dbs, q, es, empty) ↦ (
          committed-get m m' h dbs q es empty,
          committed-len m m' dbs q es empty,
          ap (b.delta_map.get h) empty ∙ b.delta_map.get-empty h,
        )
      ]
