-- ===== src/Commands/Views.antt =====
-- What a client of the daemon sees of a path, after each request that writes the table of changes.
use velo_rift.Commands.{
  CommandHandler, to_vnode, from_vnode, after_upsert, handle_manifest_get, existing, with_vdir,
  put_entry,
}
use velo_rift.Ipc.Messages.{VeloResponse, manifest_ack, error, internal, new_error}
use velo_rift.Manifest.Lmdb.{Backend, get}
use velo_rift.Manifest.Types.{VnodeEntry, ManifestEntry}
use velo_rift.Prelude.Assoc.{Eq}
use velo_rift.Prelude.Loop.{map_option}
use velo_rift.Prelude.Text.{Text}
use velo_rift.Prelude.{
  ◌⊎◌, ◌≡◌, ◌≢◌, refl, ap, ◌∙◌, ℕ, ◌*◌, ◌^◌, ◌<◌, List, Option, none, some, false, ◌&&◌, ◌==◌,
  if◌then◌else◌, Option-cases, Bool-cases, inl, inr,
}
use velo_rift.Tracker.{fnv1a_hash}
use velo_rift.VDir.Dirty.{lookup_marked}
use velo_rift.VDir.Store.{VDir, Io, Fault, Result, ok, err, lookup, upsert, flagged}
use velo_rift.VDir.Types.{VDirEntry}
use velo_rift.VDir.Upsert.{reads_after, upsert-Upserts}
use velo_rift.VDir.Write.{IsValid}

-- the table of changes over the manifest: the abstract map that the requests read and write
abbrev pub shown : Option VDirEntry → Option ManifestEntry → Option VnodeEntry
shown (some entry) below = some (to_vnode entry)
shown none (some entry) = some entry.vnode
shown none none = none

-- the response that the answer of the table calls for
abbrev pub expected : (Fault → Text) → VeloResponse → Result (Unit {0}) → VeloResponse
expected describe sent (ok _) = sent
expected describe sent (err f) =
    error (record { kind = internal; message = describe f; path = none })

after_upsert-expected :
    (describe : Fault → Text) (sent : VeloResponse) (r : Result (Unit {0}))
    → after_upsert describe sent r ≡ expected describe sent r
unfolding after_upsert new_error
after_upsert-expected describe sent (ok _) = refl
after_upsert-expected describe sent (err f) = refl

-- all of an entry but its flags, whose dirty bit `rename` and `remove` clear
abbrev pub attributes : VnodeEntry → List ℕ × ℕ × ℕ × ℕ
attributes v = (v.content_hash, v.size, v.mtime, v.mode)

abbrev pub seen_after :
    Result (Unit {0}) → ℕ → VnodeEntry → ℕ → Option VnodeEntry → Option VnodeEntry
seen_after (ok _) h v g before = if h == g then some v else before
seen_after (err _) h v g before = before

pub shown-attributes :
    (o : Option VDirEntry) (below : Option ManifestEntry)
    → map_option attributes (shown (lookup_marked false o) below)
      ≡ map_option attributes (shown o below)
unfolding to_vnode flagged
shown-attributes none below = refl
shown-attributes (some entry) below = refl

pub reads_visible :
    (r : Result (Unit {0})) (v : VDir) (entry : VDirEntry) (g : ℕ) (below : Option ManifestEntry)
    → shown (reads_after r v entry g) below
      ≡ seen_after r entry.path_hash (to_vnode entry) g (shown (lookup v g) below)
reads_visible (ok _) v entry g below = elim (Bool-cases (entry.path_hash == g)) [
  | inl t ↦ rw t refl
  | inr f ↦ rw f refl
]
reads_visible (err _) v entry g below = refl

module _ {PathHash : Type 0} ⦃e : Eq PathHash⦄ (b : Backend PathHash) where
  abbrev pub visible : CommandHandler b → Text → Option VnodeEntry
  visible s path = shown (lookup s.vdir (fnv1a_hash path)) (get b path s.manifest)

  -- `handle_manifest_get` answers what is visible.
  pub handle_manifest_get-visible :
      (path : Text) (s : CommandHandler b)
      → handle_manifest_get b path s ≡ manifest_ack (visible s path)
  unfolding handle_manifest_get
  handle_manifest_get-visible path s = elim (Option-cases (lookup s.vdir (fnv1a_hash path))) [
    | inr (entry, l) ↦ rw (l, handle_manifest_get) refl
    | inl n ↦ elim (Option-cases (get b path s.manifest)) [
      | inr (entry, g) ↦ rw (n, g, handle_manifest_get) refl
      | inl g ↦ rw (n, g, handle_manifest_get) refl
    ]
  ]

  pub existing-visible :
      (path : Text) (s : CommandHandler b)
      → map_option to_vnode (existing b path s) ≡ visible s path
  unfolding existing from_vnode to_vnode
  existing-visible path s = elim (Option-cases (lookup s.vdir (fnv1a_hash path))) [
    | inr (entry, l) ↦ rw (l, existing) refl
    | inl n ↦ elim (Option-cases (get b path s.manifest)) [
      | inr (entry, g) ↦ rw (n, g, existing) refl
      | inl g ↦ rw (n, g, existing) refl
    ]
  ]

  -- A request that stores `entry` after reaching `s`.
  pub record Puts (io : Io) (describe : Fault → Text) (sent : VeloResponse) (h : ℕ) (v : VnodeEntry)
      (s : CommandHandler b) (out : CommandHandler b × VeloResponse) : Type 0 where
    pub answer : Result (Unit {0})
    pub response : out.1 ≡ expected describe sent answer
    pub sees : (q : Text) → visible out.0 q ≡ seen_after answer h v (fnv1a_hash q) (visible s q)
    pub valid : IsValid out.0.vdir
    pub manifest : out.0.manifest ≡ s.manifest
    pub succeeds : (answer ≡ ok tt) ⊎ ((io.remap && io.flush) ≡ false)

  module _ (crc32 : List ℕ → ℕ) (describe : Fault → Text) where
    pub put_entry-Puts :
        (io : Io) (s : CommandHandler b) (entry : VDirEntry) (sent : VeloResponse)
        → IsValid s.vdir
        → entry.path_hash ≢ 0
        → 2 * s.vdir.capacity < 2 ^ 32
        → Puts io describe sent entry.path_hash
            (to_vnode entry)
            s
            (put_entry b crc32 describe io s entry sent)
    unfolding put_entry with_vdir
    put_entry-Puts io s entry sent valid nz small =
        let u = upsert-Upserts crc32 io entry valid nz small in
        let out = upsert crc32 io s.vdir entry in
        record {
          answer = out.1;
          response = after_upsert-expected describe sent out.1;
          sees = λ q.
              ap (λ o. shown o (get b q s.manifest)) (u.reads (fnv1a_hash q))
              ∙ reads_visible out.1 s.vdir entry (fnv1a_hash q) (get b q s.manifest);
          valid = u.valid;
          manifest = refl;
          succeeds = u.succeeds;
        }
