-- ===== src/Tests/Inception.antt =====
-- Paths below the project root `/p`, with the file system at `/p`.
use velo_rift.Inception.FixedString.{is_utf8}
use velo_rift.Inception.Normalize.{
  components, split_slashes, add_all, add_component, add_name, go_up, step_back, raw_path_normalize,
}
use velo_rift.Inception.Resolve.{PathResolver, applies}
use velo_rift.Inception.Resolve.Laws.{Covers, applies_iff}
use velo_rift.Prelude.Text.{Text, codes, text_beq}
use velo_rift.Prelude.{◌≡◌, ◌↔◌, refl, some, true}

abbrev crooked : Text
crooked = codes "/a//b/./../c"

crooked_normalized : raw_path_normalize 64 crooked ≡ some (codes "/a/c")
unfolding raw_path_normalize components split_slashes add_all add_component add_name go_up step_back
crooked_normalized = unfold text_beq in refl

-- going up leaves the slash of the directory
up_leaves_slash : raw_path_normalize 64 (codes "/a/b/..") ≡ some (codes "/a/")
unfolding raw_path_normalize components split_slashes add_all add_component add_name go_up step_back
up_leaves_slash = unfold text_beq in refl

-- `..` in a relative path leaves the first byte of its first name
relative_up : raw_path_normalize 64 (codes "ab/../c") ≡ some (codes "a/c")
unfolding raw_path_normalize components split_slashes add_all add_component add_name go_up step_back
relative_up = unfold text_beq in refl

abbrev resolver : PathResolver
resolver = record {
  vfs_prefix = record { bytes = codes "/p" };
  project_root = record { bytes = codes "/p" };
}

applies_iff_example : (applies resolver (codes "/p/a") ≡ true) ↔ Covers (codes "/p") (codes "/p/a")
applies_iff_example = applies_iff resolver (codes "/p/a") (unfold is_utf8 in refl)
