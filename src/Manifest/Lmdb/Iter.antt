-- ===== src/Manifest/Lmdb/Iter.antt =====
-- `iter` and `stats` of crates/vrift-manifest/src/lmdb.rs: the rows of the two layers together.
use velo_rift.Manifest.Lmdb.{Backend, DeltaEntry, modified, deleted, LmdbManifest, get_by_hash}
use velo_rift.Manifest.Types.{AssetTier, tier1_immutable, tier2_mutable, ManifestEntry, is_dir}
use velo_rift.Prelude.Assoc.{Eq, beq_refl, lookup, IsMap}
use velo_rift.Prelude.{
  ◌⊎◌, ◌≡◌, ◌+◌, refl, sym, ap, ◌∙◌, List, [], ◌∷◌, ◌++◌, none, some, length, if◌then◌else◌, arith,
  ℕ, Option-cases, Bool-cases, inl, inr,
}

pub record ManifestStats : Type 0 where
  pub file_count : ℕ
  pub dir_count : ℕ
  pub total_size : ℕ
  pub tier1_count : ℕ
  pub tier2_count : ℕ

abbrev pub Row : Type 0
Row = List ℕ × ManifestEntry

abbrev pub in_tier1 : AssetTier → ℕ
in_tier1 tier1_immutable = 1
in_tier1 tier2_mutable = 0

abbrev pub in_tier2 : AssetTier → ℕ
in_tier2 tier1_immutable = 0
in_tier2 tier2_mutable = 1

-- The loop of `stats` over the rest of the rows. The 64-bit sum of the sizes is taken not to
-- overflow.
unfoldable pub stats_of : List Row → ManifestStats
stats_of [] = record {
  file_count = 0;
  dir_count = 0;
  total_size = 0;
  tier1_count = 0;
  tier2_count = 0;
}
stats_of ((path, entry) ∷ rows) =
    let rest = stats_of rows in
    record {
      file_count = rest.file_count + (if is_dir entry.vnode then 0 else 1);
      dir_count = rest.dir_count + (if is_dir entry.vnode then 1 else 0);
      total_size = rest.total_size + (if is_dir entry.vnode then 0 else entry.vnode.size);
      tier1_count = rest.tier1_count + in_tier1 entry.tier;
      tier2_count = rest.tier2_count + in_tier2 entry.tier;
    }

one_tier : (t : AssetTier) → in_tier1 t + in_tier2 t ≡ 1
one_tier tier1_immutable = refl
one_tier tier2_mutable = refl

stats_of-sums :
    (rows : List Row)
    → ((stats_of rows).file_count + (stats_of rows).dir_count ≡ length rows)
      × ((stats_of rows).tier1_count + (stats_of rows).tier2_count ≡ length rows)
unfolding stats_of
stats_of-sums [] = (refl, refl)
stats_of-sums ((path, entry) ∷ rows) =
    let rest = stats_of-sums rows in
    (ground (arith, rest.0), omega (arith, rest.1, one_tier entry.tier))

module _ {PathHash : Type 0} ⦃e : Eq PathHash⦄ (b : Backend PathHash) where
  -- the loop over the layer of changes
  unfoldable pub delta_rows : b.path_map.Map → List (PathHash × DeltaEntry) → List Row
  delta_rows known [] = []
  delta_rows known ((h, deleted) ∷ rest) = delta_rows known rest
  delta_rows known ((h, modified entry) ∷ rest) = elim (b.path_map.get h known) [
    | none ↦ delta_rows known rest
    | some path ↦ (path, entry) ∷ delta_rows known rest
  ]

  -- The loop over the database. The hashes that the code collects as deleted are in the layer of
  -- changes too.
  unfoldable pub base_rows : LmdbManifest b → List (PathHash × ManifestEntry) → List Row
  base_rows m [] = []
  base_rows m ((h, entry) ∷ rest) = elim (b.delta_map.get h m.delta) [
    | some _ ↦ base_rows m rest
    | none ↦ elim (b.paths_type.get h m.paths_db) [
      | none ↦ base_rows m rest
      | some path ↦ (path, entry) ∷ base_rows m rest
    ]
  ]

  unfoldable pub iter : LmdbManifest b → List Row
  iter m =
      delta_rows m.delta_paths (b.delta_map.entries m.delta)
      ++ base_rows m (b.entries_type.entries m.entries_db)

  unfoldable pub stats : LmdbManifest b → ManifestStats
  stats m = stats_of (iter m)

  -- The row is what some hash reads as, under a path that is recorded for that hash.
  abbrev pub Shown : LmdbManifest b → Row → Type 0
  Shown m (path, entry) =
      (h : PathHash) × (get_by_hash b h m ≡ some entry)
      × ((b.path_map.get h m.delta_paths ≡ some path) ⊎ (b.paths_type.get h m.paths_db ≡ some path))

  abbrev pub AllShown : LmdbManifest b → List Row → Type 0
  AllShown m [] = Unit {0}
  AllShown m (row ∷ rows) = Shown m row × AllShown m rows

  AllShown-append :
      (m : LmdbManifest b) (xs ys : List Row)
      → AllShown m xs
      → AllShown m ys
      → AllShown m (xs ++ ys)
  AllShown-append m [] ys a c = c
  AllShown-append m (x ∷ xs) ys (s, a) c = (s, AllShown-append m xs ys a c)

  -- what a list holds under its first key, and under the keys of its rest
  lookup-first :
      {V : Type 0} (h : PathHash) (v : V) (rest : List (PathHash × V))
      → lookup h ((h, v) ∷ rest) ≡ some v
  unfolding lookup
  lookup-first h v rest = rw (beq_refl h) refl

  lookup-rest :
      {V : Type 0} (h k : PathHash) (v w : V) (rest : List (PathHash × V))
      → lookup h rest ≡ none
      → lookup k rest ≡ some w
      → lookup k ((h, v) ∷ rest) ≡ some w
  unfolding lookup
  lookup-rest h k v w rest absent held = elim (Bool-cases (e.beq h k)) [
    | inr f ↦ rw f held
    | inl t ↦
        let gone : lookup k rest ≡ none =
          ap (λ j. lookup j rest) (sym ((e.beq_iff h k).0 t)) ∙ absent in
        absurd (cc)
  ]

  delta_rows-Shown :
      (m : LmdbManifest b) (ds : List (PathHash × DeltaEntry))
      → IsMap ds
      → ((k : PathHash) (d : DeltaEntry)
          → lookup k ds ≡ some d
          → b.delta_map.get k m.delta ≡ some d)
      → AllShown m (delta_rows m.delta_paths ds)
  unfolding delta_rows
  delta_rows-Shown m [] u held = tt
  delta_rows-Shown m ((h, deleted) ∷ ds) (u, us) held =
      delta_rows-Shown m ds us (λ k d l. held k d (lookup-rest h k deleted d ds u l))
  delta_rows-Shown m ((h, modified x) ∷ ds) (u, us) held =
      let rest =
        delta_rows-Shown m ds us (λ k d l. held k d (lookup-rest h k (modified x) d ds u l)) in
      let here = held h (modified x) (lookup-first h (modified x) ds) in
      elim (Option-cases (b.path_map.get h m.delta_paths)) [
        | inl n ↦ rw (n, delta_rows) rest
        | inr (p, s) ↦ rw (s, delta_rows) ((h, over_delta m h x here, inl s), rest)
      ]
    where
      over_delta :
          (m : LmdbManifest b) (h : PathHash) (x : ManifestEntry)
          → b.delta_map.get h m.delta ≡ some (modified x)
          → get_by_hash b h m ≡ some x
      over_delta m h x here = unfold get_by_hash in rw here refl

  base_rows-Shown :
      (m : LmdbManifest b) (es : List (PathHash × ManifestEntry))
      → IsMap es
      → ((k : PathHash) (x : ManifestEntry)
          → lookup k es ≡ some x
          → b.entries_type.get k m.entries_db ≡ some x)
      → AllShown m (base_rows m es)
  unfolding base_rows
  base_rows-Shown m [] u held = tt
  base_rows-Shown m ((h, x) ∷ es) (u, us) held =
      let rest = base_rows-Shown m es us (λ k y l. held k y (lookup-rest h k x y es u l)) in
      elim (Option-cases (b.delta_map.get h m.delta)) [
        | inr (d, s) ↦ rw (s, base_rows) rest
        | inl n ↦ elim (Option-cases (b.paths_type.get h m.paths_db)) [
          | inl np ↦ rw (n, base_rows, np) rest
          | inr (p, s) ↦
              rw (n, base_rows, s)
                ((h, under_delta m h n ∙ held h x (lookup-first h x es), inr s), rest)
        ]
      ]
    where
      under_delta :
          (m : LmdbManifest b) (h : PathHash)
          → b.delta_map.get h m.delta ≡ none
          → get_by_hash b h m ≡ b.entries_type.get h m.entries_db
      under_delta m h n = unfold get_by_hash in rw n refl

  -- Every row of the listing is the entry that its hash reads as in the two layers together, under
  -- a path that one of the layers records for the hash.
  pub iter-Shown : (m : LmdbManifest b) → AllShown m (iter m)
  unfolding iter
  iter-Shown m =
      AllShown-append m (delta_rows m.delta_paths (b.delta_map.entries m.delta)) _
        (delta_rows-Shown m (b.delta_map.entries m.delta) (b.delta_map.entries-IsMap m.delta)
          (λ k d l. sym (b.delta_map.lookup-entries k m.delta) ∙ l))
        (base_rows-Shown m (b.entries_type.entries m.entries_db)
          (b.entries_type.entries-IsMap m.entries_db)
          (λ k x l. sym (b.entries_type.lookup-entries k m.entries_db) ∙ l))

  -- The statistics count every row of the listing once as a file or a directory, and once in one of
  -- the tiers.
  pub stats-sums :
      (m : LmdbManifest b)
      → ((stats m).file_count + (stats m).dir_count ≡ length (iter m))
        × ((stats m).tier1_count + (stats m).tier2_count ≡ length (iter m))
  unfolding stats
  stats-sums m = stats_of-sums (iter m)
