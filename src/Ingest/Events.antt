-- ===== src/Ingest/Events.antt =====
-- What `IngestHandler::handle` of crates/vrift-vdird/src/ingest.rs makes of the manifest, written
-- out for each event.
use velo_rift.Ingest.{IngestEvent, file_changed, dir_created, removed, symlink_created, event_path}
use velo_rift.Ingest.Applied.{entry_after, handle-get}
use velo_rift.Ingest.Handler.{
  Answers, TierPatterns, IngestHandler, classify_tier, below_root, to_manifest_key, changed_entry,
  dir_entry, symlink_entry, handle,
}
use velo_rift.Manifest.Lmdb.{Backend, LmdbManifest, compute_path_hash, get}
use velo_rift.Manifest.Tier.{matches_any}
use velo_rift.Manifest.Types.{
  AssetTier, tier1_immutable, tier2_mutable, VnodeEntry, ManifestEntry, slash,
}
use velo_rift.Prelude.Assoc.{Eq}
use velo_rift.Prelude.Text.{Text, trim_end, strip_prefix, strip_prefix-append, strip_prefix-some}
use velo_rift.Prelude.{
  ℕ, ◌≡◌, ◌≢◌, ◌⊎◌, refl, sym, ap, ◌∙◌, List, [], ◌∷◌, ◌++◌, Option, none, some, Bool, true, false,
  replicate, if◌then◌else◌, ◌==◌, length, map, arith, Bool-cases, Option-cases, inl, inr,
}
use mathlib.Core.List.{append-nil}

-- The key of a path below the project's root is what follows the root, that of the root is a slash,
-- and that of any other path is the path.
abbrev pub IsKey : Text → Text → Text → Type 0
IsKey root path key =
    ((rest : Text) × (path ≡ root ++ (slash ∷ rest)) × (key ≡ slash ∷ rest))
    ⊎ ((path ≡ root) × (key ≡ slash ∷ []))
    ⊎ ((path ≢ root) × ((rest : Text) → path ≢ root ++ (slash ∷ rest)) × (key ≡ path))

-- the tier of a key: immutable if one of those patterns is part of it
abbrev pub tier_of : TierPatterns → Text → AssetTier
tier_of patterns key =
    if matches_any (map trim_end patterns.tier1_patterns) key
    then tier1_immutable
    else tier2_mutable

abbrev pub fresh : VnodeEntry → AssetTier → Option ManifestEntry
fresh vnode tier = some (record { vnode = vnode; tier = tier; stale = false })

abbrev pub file_shown :
    TierPatterns
    → Text
    → Option (List ℕ × ℕ)
    → Option (ℕ × ℕ)
    → Option ManifestEntry
    → Option ManifestEntry
file_shown patterns key (some (hash, size)) (some (mtime, mode)) before =
    fresh (record { content_hash = hash; size = size; mtime = mtime; mode = mode; flags = 0 })
      (tier_of patterns key)
file_shown patterns key _ _ before = before

abbrev pub directory_shown : Option (ℕ × ℕ) → Option ManifestEntry → Option ManifestEntry
directory_shown (some (mtime, mode)) before =
    fresh
      (record { content_hash = replicate 32 0; size = 0; mtime = mtime; mode = mode; flags = 1 })
      tier2_mutable
directory_shown none before = before

abbrev pub link_shown :
    Text → Option (List ℕ × ℕ) → Option (ℕ × ℕ) → Option ManifestEntry → Option ManifestEntry
link_shown target (some (hash, _)) (some (mtime, _)) before =
    fresh
      (record { content_hash = hash; size = length target; mtime = mtime; mode = 0x1ff; flags = 2 })
      tier2_mutable
link_shown target _ _ before = before

-- what the paths of the key show after an event, if they showed `before`
abbrev pub shown_after :
    IngestHandler → Answers → Text → IngestEvent → Option ManifestEntry → Option ManifestEntry
shown_after h a key (file_changed path) before =
    file_shown h.patterns key a.stored a.metadata before
shown_after h a key (dir_created path) before = directory_shown a.metadata before
shown_after h a key (removed path) before = none
shown_after h a key (symlink_created path target) before =
    link_shown target a.stored a.metadata before

to_manifest_key-IsKey :
    (h : IngestHandler) (path : Text) → IsKey h.project_root path (to_manifest_key h path)
unfolding to_manifest_key below_root
to_manifest_key-IsKey h path =
    let root = h.project_root in
    elim (Option-cases (strip_prefix root path)) [
      | inl n ↦
          let apart : (rest : Text) → path ≢ root ++ rest = λ rest same.
            let found : strip_prefix root path ≡ some rest =
              ap (strip_prefix root) same ∙ strip_prefix-append root rest in
            absurd (let bad : none ≡ some rest = sym n ∙ found in cc) in
          rw (n, to_manifest_key, below_root)
            (inr (
              inr (
                λ same. apart [] (same ∙ sym (append-nil root)),
                λ rest. apart (slash ∷ rest),
                refl,
              )))
      | inr ([], s) ↦
          rw (s, to_manifest_key, below_root)
            (inr (inl (strip_prefix-some root path [] s ∙ append-nil root, refl)))
      | inr (c ∷ rest, s) ↦
          let whole : path ≡ root ++ (c ∷ rest) = strip_prefix-some root path (c ∷ rest) s in
          elim (Bool-cases (c == slash)) [
            | inl t ↦
                let same : c ≡ slash = ground (arith, t) in
                rw (s, to_manifest_key, below_root, t)
                  (inl (rest, whole ∙ ap (λ k. root ++ (k ∷ rest)) same, refl))
            | inr f ↦
                let other : (text : Text) → path ≡ root ++ text → c ∷ rest ≡ text = λ text same.
                  let found : strip_prefix root path ≡ some text =
                    ap (strip_prefix root) same ∙ strip_prefix-append root text in
                  let both : some (c ∷ rest) ≡ some text = sym s ∙ found in cc in
                rw (s, to_manifest_key, below_root, f)
                  (inr (
                    inr (
                      λ same.
                          let bad : c ∷ rest ≡ [] = other [] (same ∙ sym (append-nil root)) in
                          absurd (cc),
                      λ text same.
                          let heads : c ∷ rest ≡ slash ∷ text = other (slash ∷ text) same in
                          let first : c ≡ slash = cc in absurd (ground (arith, f, first)),
                      refl,
                    )))
          ]
    ]

one_tier : (b : Bool) (t : AssetTier) → (if b then t else t) ≡ t
one_tier true t = refl
one_tier false t = refl

classify_tier-tier_of :
    (patterns : TierPatterns) (key : Text) → classify_tier patterns key ≡ tier_of patterns key
unfolding classify_tier
classify_tier-tier_of patterns key =
    ap (λ t. if matches_any (map trim_end patterns.tier1_patterns) key then tier1_immutable else t)
      (one_tier (matches_any (map trim_end patterns.tier2_patterns) key) tier2_mutable)

entry_after-shown_after :
    (h : IngestHandler) (stored : Option (List ℕ × ℕ)) (metadata : Option (ℕ × ℕ))
    (event : IngestEvent) (before : Option ManifestEntry)
    → let a : Answers = record { stored = stored; metadata = metadata } in
      entry_after h a event before
      ≡ shown_after h a (to_manifest_key h (event_path event)) event before
unfolding changed_entry dir_entry symlink_entry
entry_after-shown_after h none metadata (file_changed path) before = refl
entry_after-shown_after h (some (hash, size)) none (file_changed path) before = refl
entry_after-shown_after h (some (hash, size)) (some (mtime, mode)) (file_changed path) before =
    ap (fresh (record { content_hash = hash; size = size; mtime = mtime; mode = mode; flags = 0 }))
      (classify_tier-tier_of h.patterns (to_manifest_key h path))
entry_after-shown_after h stored none (dir_created path) before = refl
entry_after-shown_after h stored (some (mtime, mode)) (dir_created path) before = refl
entry_after-shown_after h stored metadata (removed path) before = refl
entry_after-shown_after h none none (symlink_created path target) before = refl
entry_after-shown_after h none (some (mtime, mode)) (symlink_created path target) before = refl
entry_after-shown_after h (some (hash, size)) none (symlink_created path target) before = refl
entry_after-shown_after h (some (hash, size)) (some (mtime, mode)) (symlink_created path target)
      before =
    refl

module _ {PathHash : Type 0} ⦃e : Eq PathHash⦄ (b : Backend PathHash) where
  -- The key of an event is its path below the project's root, or the path if it is not below. After
  -- the event, the paths whose hash is the key's show what the event reports. A changed file shows
  -- the hash and size of its content, its time and mode, and the tier of its key. A directory shows
  -- the flag 1 and no content, a link the flag 2, the hash of the stored target and its length. They
  -- show nothing after a removal, and what they did if the content store or the file system failed.
  -- All other paths show what they did.
  pub handle-shown :
      (h : IngestHandler) (a : Answers) (event : IngestEvent) (m : LmdbManifest b) (q : Text)
      → (key : Text) × IsKey h.project_root (event_path event) key
        × (get b q (handle b h a event m) ≡ (
            if e.beq (compute_path_hash b key) (compute_path_hash b q)
            then shown_after h a key event (get b q m)
            else get b q m))
  handle-shown h a event m q =
      let key = to_manifest_key h (event_path event) in
      (
        key,
        to_manifest_key-IsKey h (event_path event),
        handle-get b h a event m q
            ∙ ap
                (λ (o : Option ManifestEntry).
                  if e.beq (compute_path_hash b key) (compute_path_hash b q) then o else get b q m)
                (entry_after-shown_after h a.stored a.metadata event (get b q m)),
      )
