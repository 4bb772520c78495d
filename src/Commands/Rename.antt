-- ===== src/Commands/Rename.antt =====
-- `rename` of crates/vrift-vdird/src/commands.rs: what it answers and leaves visible.
use velo_rift.Commands.{CommandHandler, to_vnode, put_entry, with_vdir, handle_manifest_rename}
use velo_rift.Commands.Views.{shown, attributes, expected, seen_after, visible, put_entry-Puts}
use velo_rift.Ipc.Messages.{VeloResponse, manifest_ack}
use velo_rift.Manifest.Lmdb.{Backend, get}
use velo_rift.Manifest.Types.{VnodeEntry}
use velo_rift.Prelude.Assoc.{Eq}
use velo_rift.Prelude.Text.{Text}
use velo_rift.Prelude.{
  ◌⊎◌, ◌≡◌, ◌≢◌, refl, ap, ◌∙◌, ℕ, ◌*◌, ◌/◌, ◌%◌, ◌^◌, ◌<◌, sym, subst, ==_iff, if◌then◌else◌, Bool,
  true, List, Option, none, some, false, ◌&&◌, ◌==◌, arith, Bool-cases, inl, inr,
}
use velo_rift.Tracker.{fnv1a_hash}
use velo_rift.VDir.Dirty.{lookup_marked, flagged-IsMarked, mark_dirty-Marks}
use velo_rift.VDir.Types.{VDirEntry}
use velo_rift.Manifest.Types.{ManifestEntry}
use velo_rift.VDir.Store.{VDir, Io, Fault, Result, ok, err, lookup, flagged, mark_dirty}
use velo_rift.VDir.Write.{IsValid}
use velo_rift.Commands.Requests.{mark_dirty-capacity, existing_found}

-- the same entry but for its dirty bit, or none as before
abbrev pub SameButDirty : Option VnodeEntry → Option VnodeEntry → Type 0
SameButDirty none after = after ≡ none
SameButDirty (some v) after =
    (v' : VnodeEntry) × (after ≡ some v')
    × (attributes v' ≡ attributes v)
    × (v'.flags / 2 % 2 ^ 15 ≡ v.flags / 2 % 2 ^ 15)

abbrev pub KeptAt : Bool → Option VnodeEntry → Option VnodeEntry → Type 0
KeptAt true before after = SameButDirty before after
KeptAt false before after = after ≡ before

-- what a path of the hash `g` shows after a rename of `v` from the hash `old` to `new`
abbrev pub RenamedAt : Bool → Bool → VnodeEntry → Option VnodeEntry → Option VnodeEntry → Type 0
RenamedAt true is_old v before after = after ≡ some v
RenamedAt false is_old v before after = KeptAt is_old before after

abbrev pub RenamedTo :
    Result (Unit {0}) → ℕ → ℕ → VnodeEntry → ℕ → Option VnodeEntry → Option VnodeEntry → Type 0
RenamedTo (ok _) old new v g before after = RenamedAt (new == g) (old == g) v before after
RenamedTo (err _) old new v g before after = RenamedAt false (old == g) v before after

shown-SameButDirty :
    (o : Option VDirEntry) (below : Option ManifestEntry)
    → SameButDirty (shown o below) (shown (lookup_marked false o) below)
unfolding to_vnode
shown-SameButDirty none none = refl
shown-SameButDirty none (some entry) = (entry.vnode, refl, refl, refl)
shown-SameButDirty (some entry) below =
    (to_vnode (flagged false entry), refl, unfold flagged in refl, (flagged-IsMarked false entry).1)

marked-KeptAt :
    (v : VDir) (h g : ℕ) (below : Option ManifestEntry)
    → KeptAt
        (h == g)
        (shown (lookup v g) below)
        (shown (if h == g then lookup_marked false (lookup v h) else lookup v g) below)
marked-KeptAt v h g below = elim (Bool-cases (h == g)) [
  | inl t ↦
      let same = (==_iff h g).0 t in
      rw t (
        subst
          (λ n.
            SameButDirty (shown (lookup v n) below)
              (shown (lookup_marked false (lookup v h)) below))
          same (shown-SameButDirty (lookup v h) below))
  | inr f ↦ rw f refl
]

seen-RenamedTo :
    (r : Result (Unit {0})) (old new g : ℕ) (v w : VnodeEntry)
    (before between after : Option VnodeEntry)
    → w ≡ v
    → KeptAt (old == g) before between
    → after ≡ seen_after r new w g between
    → RenamedTo r old new v g before after
seen-RenamedTo (ok _) old new g v w before between after same kept seen =
    elim (Bool-cases (new == g)) [
      | inl t ↦ let moved : after ≡ some w = rw t at seen in rw t (moved ∙ ap some same)
      | inr f ↦
          let stays : after ≡ between = rw f at seen in
          rw f (subst (KeptAt (old == g) before) (sym stays) kept)
    ]
seen-RenamedTo (err _) old new g v w before between after same kept seen =
    subst (KeptAt (old == g) before) (sym seen) kept

module _ {PathHash : Type 0} ⦃e : Eq PathHash⦄ (b : Backend PathHash) where
  -- What `rename` promises of the response and of every path, for the entry `v` seen at the old path.
  pub record Renames (io : Io) (describe : Fault → Text) (old new : ℕ) (v : VnodeEntry)
      (s : CommandHandler b) (out : CommandHandler b × VeloResponse) : Type 0 where
    pub answer : Result (Unit {0})
    pub response : out.1 ≡ expected describe (manifest_ack none) answer
    pub sees :
        (q : Text) → RenamedTo answer old new v (fnv1a_hash q) (visible b s q) (visible b out.0 q)
    pub valid : IsValid out.0.vdir
    pub manifest : out.0.manifest ≡ s.manifest
    pub succeeds : (answer ≡ ok tt) ⊎ ((io.remap && io.flush) ≡ false)

  module _ (crc32 : List ℕ → ℕ) (describe : Fault → Text) where
    -- A rename of a path at which `v` is visible, under the conditions of an `upsert` of the new
    -- path, makes exactly `v` visible at the paths of the new hash. The paths of the old hash, if
    -- it is another, still show what they did, but for the dirty bit, and all other paths are as
    -- they were. It answers that it is done, or, only when the operating system fails, with an
    -- internal error, when `v` is not stored.
    pub handle_manifest_rename-Renames :
        (io : Io) (old_path new_path : Text) (s : CommandHandler b) (v : VnodeEntry)
        → IsValid s.vdir
        → fnv1a_hash new_path ≢ 0
        → 2 * s.vdir.capacity < 2 ^ 32
        → visible b s old_path ≡ some v
        → Renames io describe
            (fnv1a_hash old_path)
            (fnv1a_hash new_path)
            v
            s
            (handle_manifest_rename b crc32 describe io old_path new_path s)
    unfolding handle_manifest_rename to_vnode with_vdir
    handle_manifest_rename-Renames io old_path new_path s v valid nz small seen =
        let (entry, x, same, eh) = existing_found b old_path s v seen in
        let h = fnv1a_hash old_path in
        let m = mark_dirty-Marks crc32 h false valid in
        let marked = with_vdir b s (mark_dirty crc32 s.vdir h false).0 in
        let moved = record entry { path_hash = fnv1a_hash new_path } in
        let cap = mark_dirty-capacity crc32 s.vdir h false in
        let p =
          put_entry-Puts b crc32 describe io marked moved (manifest_ack none) m.valid nz
            (omega (arith, cap)) in
        let kept = λ (q : Text).
          subst (λ o. KeptAt (h == fnv1a_hash q) (visible b s q) (shown o (get b q s.manifest)))
            (sym (m.reads (fnv1a_hash q)))
            (marked-KeptAt s.vdir h (fnv1a_hash q) (get b q s.manifest)) in
        rw (x, handle_manifest_rename)
          (record {
            answer = p.answer;
            response = p.response;
            sees = λ q.
                seen-RenamedTo p.answer h (fnv1a_hash new_path) (fnv1a_hash q) v (to_vnode entry)
                  (visible b s q) (visible b marked q)
                  (visible b (put_entry b crc32 describe io marked moved (manifest_ack none)).0 q)
                  same (kept q) (p.sees q);
            valid = p.valid;
            manifest = p.manifest;
            succeeds = p.succeeds;
          })
