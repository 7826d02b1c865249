-- ===== src/Spool/Path.antt =====
-- The names of the spool files: `/SPOOL/<seq>.PKT` (src/telestore.cpp).
use vorsprung_logger.Base.{ℕ, ◌+◌, List, [], ◌∷◌, ◌++◌, Option, none, some, drop}
use vorsprung_logger.Text.Cstring.{last_index}
use vorsprung_logger.Text.Number.{decimal, atoi}

-- "/SPOOL/"
abbrev folder : List ℕ
folder = b'/' ∷ b'S' ∷ b'P' ∷ b'O' ∷ b'O' ∷ b'L' ∷ b'/' ∷ []

-- ".PKT"
abbrev suffix : List ℕ
suffix = b'.' ∷ b'P' ∷ b'K' ∷ b'T' ∷ []

unfoldable pub spool_path : ℕ → List ℕ
spool_path seq = folder ++ (decimal seq ++ suffix)

-- The name behind the last slash, read as a number.
abbrev base_name : Option ℕ → List ℕ → List ℕ
base_name none name = name
base_name (some i) name = drop (i + 1) name

unfoldable pub file_seq : List ℕ → ℕ
file_seq name = atoi (base_name (last_index b'/' name) name)
