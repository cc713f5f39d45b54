-- ===== src/Fonts/Format/Runs.antt =====
-- Bytes written as runs: a count, and the byte that stands there so often in a row.
use popcorn.Prelude.{ℕ, List, [], ◌∷◌, ◌++◌, replicate}

unfoldable pub runs : List (ℕ × ℕ) → List ℕ
runs [] = []
runs ((n, b) ∷ l) = replicate n b ++ runs l
