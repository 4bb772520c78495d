-- ===== src/Inception/Normalize/Total.antt =====
-- `raw_path_normalize` as a whole, on absolute paths.
use velo_rift.Inception.Normalize.Reference.{render}
use velo_rift.Manifest.Types.{slash}
use velo_rift.Prelude.Text.{Text}
use velo_rift.Prelude.{List, [], ◌∷◌}

-- the normal form of the stack of names
abbrev pub normal_path : List Text → Text
normal_path [] = slash ∷ []
normal_path (name ∷ stack) = render (name ∷ stack) []
