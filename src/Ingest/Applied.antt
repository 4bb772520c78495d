-- ===== src/Ingest/Applied.antt =====
-- What the manifest shows after an event (crates/vrift-vdird/src/ingest.rs).
use velo_rift.Ingest.{IngestEvent, file_changed, dir_created, removed, symlink_created, event_path}
use velo_rift.Ingest.Handler.{
  Answers, IngestHandler, to_manifest_key, changed_entry, dir_entry, symlink_entry, insert_some,
  handle,
}
use velo_rift.Manifest.Lmdb.{Backend, LmdbManifest, compute_path_hash, get}
use velo_rift.Manifest.Lmdb.View.{get_updated}
use velo_rift.Manifest.Types.{AssetTier, tier2_mutable, VnodeEntry, ManifestEntry}
use velo_rift.Prelude.Assoc.{Eq}
use velo_rift.Prelude.Text.{Text}
use velo_rift.Prelude.{
  ◌≡◌, refl, sym, ap, ◌∙◌, [], Option, none, some, true, false, if◌then◌else◌, Bool-cases, inl, inr,
}

abbrev pub entry_or : Option (VnodeEntry × AssetTier) → Option ManifestEntry → Option ManifestEntry
entry_or none before = before
entry_or (some (vnode, tier)) before = some (record { vnode = vnode; tier = tier; stale = false })

-- what an event makes of the entry of its path
abbrev pub entry_after :
    IngestHandler → Answers → IngestEvent → Option ManifestEntry → Option ManifestEntry
entry_after h a (file_changed path) before = entry_or (changed_entry h a path) before
entry_after h a (dir_created path) before = entry_or (dir_entry a) before
entry_after h a (removed path) before = none
entry_after h a (symlink_created path target) before = entry_or (symlink_entry a target) before

module _ {PathHash : Type 0} ⦃e : Eq PathHash⦄ (b : Backend PathHash) where
  abbrev pub event_hash : IngestHandler → IngestEvent → PathHash
  event_hash h event = compute_path_hash b (to_manifest_key h (event_path event))

  insert_some-get :
      (m : LmdbManifest b) (key q : Text) (o : Option (VnodeEntry × AssetTier))
      → get b q (insert_some b key o m) ≡ (
          if e.beq (compute_path_hash b key) (compute_path_hash b q)
          then entry_or o (get b q m)
          else get b q m)
  insert_some-get m key q none =
      elim (Bool-cases (e.beq (compute_path_hash b key) (compute_path_hash b q))) [
        | inl t ↦ rw t refl
        | inr f ↦ rw f refl
      ]
  insert_some-get m key q (some (vnode, tier)) = (get_updated b m key q vnode tier).0

  -- An event changes what the paths of its key's hash show, by `entry_after`, and no other.
  pub handle-get :
      (h : IngestHandler) (a : Answers) (event : IngestEvent) (m : LmdbManifest b) (q : Text)
      → get b q (handle b h a event m) ≡ (
          if e.beq (event_hash h event) (compute_path_hash b q)
          then entry_after h a event (get b q m)
          else get b q m)
  unfolding handle
  handle-get h a (file_changed path) m q =
      insert_some-get m (to_manifest_key h path) q (changed_entry h a path)
  handle-get h a (dir_created path) m q = insert_some-get m (to_manifest_key h path) q (dir_entry a)
  handle-get h a (removed path) m q =
      (get_updated b m (to_manifest_key h path) q
        (record { content_hash = []; size = 0; mtime = 0; mode = 0; flags = 0 }) tier2_mutable).1
  handle-get h a (symlink_created path target) m q =
      insert_some-get m (to_manifest_key h path) q (symlink_entry a target)

  handle-get_hit :
      (h : IngestHandler) (a : Answers) (event : IngestEvent) (m : LmdbManifest b) (q : Text)
      → e.beq (event_hash h event) (compute_path_hash b q) ≡ true
      → get b q (handle b h a event m) ≡ entry_after h a event (get b q m)
  handle-get_hit h a event m q t = handle-get h a event m q ∙ rw t refl

  handle-get_miss :
      (h : IngestHandler) (a : Answers) (event : IngestEvent) (m : LmdbManifest b) (q : Text)
      → e.beq (event_hash h event) (compute_path_hash b q) ≡ false
      → get b q (handle b h a event m) ≡ get b q m
  handle-get_miss h a event m q f = handle-get h a event m q ∙ rw f refl

  -- an event on another path changes nothing for the one that is handled around it
  handle-around :
      (h : IngestHandler) (a a' : Answers) (event event' : IngestEvent) (m : LmdbManifest b)
      (q : Text)
      → e.beq (event_hash h event') (compute_path_hash b q) ≡ false
      → get b q (handle b h a' event' (handle b h a event m))
        ≡ get b q (handle b h a event (handle b h a' event' m))
  handle-around h a a' event event' m q f' =
      handle-get_miss h a' event' (handle b h a event m) q f'
      ∙ elim (Bool-cases (e.beq (event_hash h event) (compute_path_hash b q))) [
        | inl t ↦
            handle-get_hit h a event m q t
            ∙ ap (entry_after h a event) (sym (handle-get_miss h a' event' m q f'))
            ∙ sym (handle-get_hit h a event (handle b h a' event' m) q t)
        | inr f ↦
            handle-get_miss h a event m q f
            ∙ sym (handle-get_miss h a' event' m q f')
            ∙ sym (handle-get_miss h a event (handle b h a' event' m) q f)
      ]

  -- The events of a batch are handled by concurrent tasks. Two whose keys have different hashes may
  -- be handled in either order: every path shows the same afterwards.
  pub handle-commute :
      (h : IngestHandler) (a a' : Answers) (event event' : IngestEvent) (m : LmdbManifest b)
      (q : Text)
      → e.beq (event_hash h event) (event_hash h event') ≡ false
      → get b q (handle b h a' event' (handle b h a event m))
        ≡ get b q (handle b h a event (handle b h a' event' m))
  handle-commute h a a' event event' m q apart =
      let k = compute_path_hash b q in
      elim (Bool-cases (e.beq (event_hash h event') k)) [
        | inr f' ↦ handle-around h a a' event event' m q f'
        | inl t' ↦ elim (Bool-cases (e.beq (event_hash h event) k)) [
          | inr f ↦ sym (handle-around h a' a event' event m q f)
          | inl t ↦
              let same =
                (e.beq_iff (event_hash h event) k).0 t
                ∙ sym ((e.beq_iff (event_hash h event') k).0 t') in
              let met = (e.beq_iff (event_hash h event) (event_hash h event')).1 same in absurd (cc)
        ]
      ]
