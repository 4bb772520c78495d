-- ===== src/Commands/Requests.antt =====
-- The requests of a client, one after the other: what each of them answers and leaves visible.
use velo_rift.Commands.{
  CommandHandler, to_vnode, from_vnode, existing, with_vdir, put_entry, handle_manifest_upsert,
  handle_manifest_remove, handle_manifest_rename, handle_manifest_update_mtime,
}
use velo_rift.Commands.Views.{
  shown, attributes, shown-attributes, visible, Puts, put_entry-Puts, existing-visible,
}
use velo_rift.Ipc.Messages.{manifest_ack}
use velo_rift.Manifest.Lmdb.{Backend, get}
use velo_rift.Manifest.Types.{VnodeEntry, ManifestEntry}
use velo_rift.Prelude.Assoc.{Eq}
use velo_rift.Prelude.Loop.{map_option}
use velo_rift.Prelude.Text.{Text}
use velo_rift.Prelude.{
  ◌≡◌, ◌≢◌, refl, sym, ap, ◌∙◌, subst, ℕ, ◌*◌, ◌/◌, ◌%◌, ◌^◌, ◌<◌, List, Option, none, some, Bool,
  false, ◌==◌, ==_iff, if◌then◌else◌, arith, Option-cases, Bool-cases, inl, inr,
}
use velo_rift.Tracker.{fnv1a_hash}
use velo_rift.VDir.Dirty.{lookup_marked, mark_dirty-Marks}
use velo_rift.VDir.Probe.{find_slot-Found, stored_at, lookup-find_slot}
use velo_rift.VDir.Store.{VDir, Io, Fault, lookup, mark_dirty, begin_write, end_write}
use velo_rift.VDir.Table.{entry_at, find_slot}
use velo_rift.VDir.Types.{VDirEntry, is_empty}
use velo_rift.VDir.Write.{IsValid}

lookup_hash : (v : VDir) (h : ℕ) (entry : VDirEntry) → lookup v h ≡ some entry → entry.path_hash ≡ h
lookup_hash v h entry l = elim (Option-cases (find_slot v.slots v.capacity h)) [
  | inl n ↦
      let bad : none ≡ some entry =
        sym (lookup-find_slot v.slots v.capacity h ∙ ap (stored_at v.slots v.capacity) n) ∙ l in
      absurd (cc)
  | inr (s, f) ↦
      let hit = (find_slot-Found v.slots v.capacity h s f).hit in
      let there : stored_at v.slots v.capacity (some s) ≡ some entry =
        sym (lookup-find_slot v.slots v.capacity h ∙ ap (stored_at v.slots v.capacity) f) ∙ l in
      elim (Bool-cases (is_empty (entry_at v.slots s))) [
        | inl free ↦ let bad : none ≡ some entry = rw free at there in absurd (cc)
        | inr full ↦
            let same : some (entry_at v.slots s) ≡ some entry = rw full at there in
            let at_hash : (entry_at v.slots s).path_hash ≡ h = ground arith in
            subst (λ (o : Option VDirEntry). elim o [ none ↦ Unit {0} | some x ↦ x.path_hash ≡ h ])
              same at_hash
      ]
]

-- what the cleared dirty bit of the entry at `h` changes of the attributes: nothing
pub marked_attributes :
    (v : VDir) (h g : ℕ) (below : Option ManifestEntry)
    → map_option attributes
        (shown (if h == g then lookup_marked false (lookup v h) else lookup v g) below)
      ≡ map_option attributes (shown (lookup v g) below)
marked_attributes v h g below = elim (Bool-cases (h == g)) [
  | inl t ↦
      let same = (==_iff h g).0 t in
      rw t (
        shown-attributes (lookup v h) below
        ∙ ap (λ n. map_option attributes (shown (lookup v n) below)) same)
  | inr f ↦ rw f refl
]

module _ (crc32 : List ℕ → ℕ) where
  pub mark_dirty-capacity :
      (v : VDir) (h : ℕ) (dirty : Bool) → (mark_dirty crc32 v h dirty).0.capacity ≡ v.capacity
  unfolding mark_dirty begin_write end_write
  mark_dirty-capacity v h dirty = elim (Option-cases (find_slot v.slots v.capacity h)) [
    | inl n ↦ rw (n, mark_dirty) refl
    | inr (s, f) ↦ rw (f, mark_dirty) (ground arith)
  ]

module _ {PathHash : Type 0} ⦃e : Eq PathHash⦄ (b : Backend PathHash) where
  -- where a visible entry comes from
  pub existing_found :
      (path : Text) (s : CommandHandler b) (v : VnodeEntry)
      → visible b s path ≡ some v
      → (entry : VDirEntry) × (existing b path s ≡ some entry)
        × (to_vnode entry ≡ v)
        × (entry.path_hash ≡ fnv1a_hash path)
  unfolding existing from_vnode to_vnode
  existing_found path s v seen = elim (Option-cases (lookup s.vdir (fnv1a_hash path))) [
    | inr (entry, l) ↦
        let same : some (to_vnode entry) ≡ some v = rw l at seen in
        (entry, rw (l, existing) refl, cc, lookup_hash s.vdir (fnv1a_hash path) entry l)
    | inl n ↦ elim (Option-cases (get b path s.manifest)) [
      | inr (found, g) ↦
          let same : some found.vnode ≡ some v = rw (n, g) at seen in
          (from_vnode (fnv1a_hash path) found.vnode, rw (n, g, existing) refl, cc, refl)
      | inl g ↦ let bad : none ≡ some v = rw (n, g) at seen in absurd (cc)
    ]
  ]

  pub existing_hash :
      (path : Text) (s : CommandHandler b) (entry : VDirEntry)
      → existing b path s ≡ some entry
      → entry.path_hash ≡ fnv1a_hash path
  existing_hash path s entry x =
      let seen = sym (existing-visible b path s) ∙ ap (map_option to_vnode) x in
      let (entry', x', _, eh) = existing_found path s (to_vnode entry) seen in
      let same : some entry' ≡ some entry = sym x' ∙ x in
      subst
        (λ (o : Option VDirEntry). elim o [
          | none ↦ Unit {0}
          | some d ↦ d.path_hash ≡ fnv1a_hash path
        ])
        same eh

  existing-none :
      (path : Text) (s : CommandHandler b) → visible b s path ≡ none → existing b path s ≡ none
  existing-none path s seen = elim (Option-cases (existing b path s)) [
    | inl n ↦ n
    | inr (entry, x) ↦
        let bad : some (to_vnode entry) ≡ none =
          sym (ap (map_option to_vnode) x) ∙ existing-visible b path s ∙ seen in
        absurd (cc)
  ]

  module _ (crc32 : List ℕ → ℕ) (describe : Fault → Text) where
    -- An `upsert` of a path into a valid table, unless its hash is 0 and while twice the capacity
    -- fits 32 bits, answers with the entry and makes exactly it visible at the paths of this hash,
    -- or, only when the operating system fails, answers with the error and changes nothing that is
    -- visible.
    pub handle_manifest_upsert-Puts :
        (io : Io) (path : Text) (entry : VnodeEntry) (s : CommandHandler b)
        → IsValid s.vdir
        → fnv1a_hash path ≢ 0
        → 2 * s.vdir.capacity < 2 ^ 32
        → Puts b io describe
            (manifest_ack (some entry))
            (fnv1a_hash path)
            entry
            s
            (handle_manifest_upsert b crc32 describe io path entry s)
    unfolding handle_manifest_upsert from_vnode to_vnode
    handle_manifest_upsert-Puts io path entry s valid nz small =
        put_entry-Puts b crc32 describe io s (from_vnode (fnv1a_hash path) entry)
          (manifest_ack (some entry)) valid nz small

    -- At a path where nothing is visible, a rename and an update of the time do nothing.
    pub absent-unchanged :
        (io : Io) (path new_path : Text) (mtime_ns : ℕ) (s : CommandHandler b)
        → visible b s path ≡ none
        → (handle_manifest_rename b crc32 describe io path new_path s ≡ (s, manifest_ack none))
          × (handle_manifest_update_mtime b crc32 describe io path mtime_ns s
              ≡ (s, manifest_ack none))
    unfolding handle_manifest_rename handle_manifest_update_mtime
    absent-unchanged io path new_path mtime_ns s seen =
        let x = existing-none path s seen in
        (rw (x, handle_manifest_rename) refl, rw (x, handle_manifest_update_mtime) refl)

    -- An update of the time, in nanoseconds, at a path where `v` is visible, under the conditions of
    -- an `upsert`, makes `v` with the seconds of that time visible at the paths of this hash, or,
    -- only when the operating system fails, answers with the error and changes nothing visible.
    pub handle_manifest_update_mtime-Puts :
        (io : Io) (path : Text) (mtime_ns : ℕ) (s : CommandHandler b) (v : VnodeEntry)
        → IsValid s.vdir
        → fnv1a_hash path ≢ 0
        → 2 * s.vdir.capacity < 2 ^ 32
        → visible b s path ≡ some v
        → Puts b io describe
            (manifest_ack none)
            (fnv1a_hash path)
            (record v { mtime = mtime_ns / 1000000000 })
            s
            (handle_manifest_update_mtime b crc32 describe io path mtime_ns s)
    unfolding handle_manifest_update_mtime to_vnode
    handle_manifest_update_mtime-Puts io path mtime_ns s v valid nz small seen =
        let (entry, x, same, eh) = existing_found path s v seen in
        let updated = record entry {
          mtime_sec = mtime_ns / 1000000000;
          mtime_nsec = mtime_ns % 1000000000;
        } in
        let run = put_entry b crc32 describe io s updated (manifest_ack none) in
        let p =
          put_entry-Puts b crc32 describe io s updated (manifest_ack none) valid
            (λ z. nz (sym eh ∙ z)) small in
        rw (x, handle_manifest_update_mtime)
          (subst
            (λ n.
              Puts b io describe (manifest_ack none) n (record v { mtime = mtime_ns / 1000000000 })
                s run)
            eh
            (subst
              (λ (w : VnodeEntry).
                Puts b io describe (manifest_ack none) entry.path_hash
                  (record w { mtime = mtime_ns / 1000000000 }) s run)
              same p))

    -- A `remove` in a valid table answers that it is done, and leaves what is visible at every path
    -- as it was, but for the flags.
    pub handle_manifest_remove-sees :
        (path : Text) (s : CommandHandler b)
        → IsValid s.vdir
        → let out = handle_manifest_remove b crc32 describe path s in
          (out.1 ≡ manifest_ack none)
          × IsValid out.0.vdir
          × (out.0.manifest ≡ s.manifest)
          × ((q : Text)
              → map_option attributes (visible b out.0 q) ≡ map_option attributes (visible b s q))
    unfolding handle_manifest_remove with_vdir
    handle_manifest_remove-sees path s valid =
        let m = mark_dirty-Marks crc32 (fnv1a_hash path) false valid in
        (
          refl,
          m.valid,
          refl,
          λ q.
              ap (λ o. map_option attributes (shown o (get b q s.manifest)))
                (m.reads (fnv1a_hash q))
              ∙ marked_attributes s.vdir (fnv1a_hash path) (fnv1a_hash q) (get b q s.manifest),
        )
