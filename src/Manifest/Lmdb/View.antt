-- ===== src/Manifest/Lmdb/View.antt =====
-- What a reader of the manifest sees after each operation on the layer of changes.
use velo_rift.Manifest.Lmdb.{
  Backend, overlay, DeltaEntry, modified, deleted, LmdbManifest, compute_path_hash, insert,
  get_by_hash, get, made_stale, with_delta, with_path, mark_stale, remove,
}
use velo_rift.Manifest.Types.{AssetTier, VnodeEntry, ManifestEntry}
use velo_rift.Prelude.Assoc.{Eq}
use velo_rift.Prelude.Loop.{map_option}
use velo_rift.Prelude.{
  ◌≡◌, refl, sym, ap, ◌∙◌, List, Option, none, some, true, false, if◌then◌else◌, arith, ℕ,
  Option-cases, Bool-cases, inl, inr,
}

-- the same entry, marked as stale
abbrev pub as_stale : Option ManifestEntry → Option ManifestEntry
as_stale none = none
as_stale (some x) = some (record { vnode = x.vnode; tier = x.tier; stale = true })

made_stale-as_stale : (o : Option ManifestEntry) → map_option made_stale o ≡ as_stale o
made_stale-as_stale none = refl
made_stale-as_stale (some x) = refl

module _ {PathHash : Type 0} ⦃e : Eq PathHash⦄ (b : Backend PathHash) where
  with_delta-get :
      (h j : PathHash) (d : DeltaEntry) (m : LmdbManifest b)
      → get_by_hash b j (with_delta b h d m)
        ≡ (if e.beq h j then overlay (some d) none else get_by_hash b j m)
  unfolding with_delta get_by_hash
  with_delta-get h j (modified x) m =
      rw (b.delta_map.get-insert h j (modified x) m.delta) (ground arith)
  with_delta-get h j deleted m = rw (b.delta_map.get-insert h j deleted m.delta) (ground arith)

  with_path-get :
      (h j : PathHash) (p : Option (List ℕ)) (m : LmdbManifest b)
      → get_by_hash b j (with_path b h p m) ≡ get_by_hash b j m
  unfolding with_path get_by_hash
  with_path-get h j none m = refl
  with_path-get h j (some p) m = refl

  mark_stale_present :
      (p : List ℕ) (j : PathHash) (x : ManifestEntry) (m : LmdbManifest b)
      → get_by_hash b (compute_path_hash b p) m ≡ some x
      → get_by_hash b j (mark_stale b p m)
        ≡ get_by_hash b j (with_delta b (compute_path_hash b p) (modified (made_stale x)) m)
  unfolding mark_stale
  mark_stale_present p j x m seen =
      let h = compute_path_hash b p in
      elim (Option-cases (b.delta_map.get h m.delta)) [
        | inl n ↦ rw (n, mark_stale, seen) (with_path-get h j _ _)
        | inr (modified y, s) ↦
            let y_e : some y ≡ some x = unfold get_by_hash in rw s at seen in
            rw (s, mark_stale)
              (ap
                (λ (o : Option ManifestEntry).
                  get_by_hash b j
                    (elim o [ none ↦ m | some z ↦ with_delta b h (modified (made_stale z)) m ]))
                y_e)
        | inr (deleted, s) ↦
            let bad : none ≡ some x = unfold get_by_hash in rw s at seen in absurd (cc)
      ]

  mark_stale_absent :
      (p : List ℕ) (m : LmdbManifest b)
      → get_by_hash b (compute_path_hash b p) m ≡ none
      → mark_stale b p m ≡ m
  unfolding mark_stale
  mark_stale_absent p m seen =
      let h = compute_path_hash b p in
      elim (Option-cases (b.delta_map.get h m.delta)) [
        | inl n ↦ rw (n, mark_stale, seen) refl
        | inr (modified y, s) ↦
            let bad : some y ≡ none = unfold get_by_hash in rw s at seen in absurd (cc)
        | inr (deleted, s) ↦ rw (s, mark_stale) refl
      ]

  same_key :
      (h j : PathHash) (m : LmdbManifest b)
      → e.beq h j ≡ true
      → get_by_hash b h m ≡ get_by_hash b j m
  same_key h j m t = ap (λ k. get_by_hash b k m) ((e.beq_iff h j).0 t)

  mark_stale-get :
      (p : List ℕ) (j : PathHash) (m : LmdbManifest b)
      → get_by_hash b j (mark_stale b p m) ≡ (
          if e.beq (compute_path_hash b p) j
          then map_option made_stale (get_by_hash b j m)
          else get_by_hash b j m)
  mark_stale-get p j m =
      let h = compute_path_hash b p in
      elim (Option-cases (get_by_hash b h m)) [
        | inl n ↦ ap (get_by_hash b j) (mark_stale_absent p m n) ∙ elim (Bool-cases (e.beq h j)) [
          | inl t ↦ rw (t, sym (same_key h j m t) ∙ n) refl
          | inr f ↦ rw f refl
        ]
        | inr (x, s) ↦
            mark_stale_present p j x m s
            ∙ with_delta-get h j (modified (made_stale x)) m
            ∙ elim (Bool-cases (e.beq h j)) [
              | inl t ↦ rw (t, sym (same_key h j m t) ∙ s) refl
              | inr f ↦ rw f refl
            ]
      ]

  -- A path reads as inserted after `insert` of a path with its hash, as absent after `remove` of
  -- one, and as before but stale after `mark_stale` of one, and every other path reads as before.
  pub get_updated :
      (m : LmdbManifest b) (p q : List ℕ) (vnode : VnodeEntry) (tier : AssetTier)
      → (get b q (insert b p vnode tier m) ≡ (
          if e.beq (compute_path_hash b p) (compute_path_hash b q)
          then some (record { vnode = vnode; tier = tier; stale = false })
          else get b q m))
        × (get b q (remove b p m)
            ≡ (if e.beq (compute_path_hash b p) (compute_path_hash b q) then none else get b q m))
        × (get b q (mark_stale b p m) ≡ (
            if e.beq (compute_path_hash b p) (compute_path_hash b q)
            then as_stale (get b q m)
            else get b q m))
  unfolding get insert remove with_delta get_by_hash
  get_updated m p q vnode tier =
      let h = compute_path_hash b p in
      let j = compute_path_hash b q in
      (
        with_delta-get h j (modified (record { vnode = vnode; tier = tier; stale = false })) m,
        with_delta-get h j deleted m,
        mark_stale-get p j m
            ∙ ap (λ (o : Option ManifestEntry). if e.beq h j then o else get b q m)
                (made_stale-as_stale (get b q m)),
      )
