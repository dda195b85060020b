-- ===== src/Tests/Texts.antt =====
-- The theorem about truncate.py at a concrete text of numbers.
use codex_latest.Prelude.{ℕ, ◌≡◌, min, none, some, List, [], ◌∷◌, length, pos, arith}
use codex_latest.Truncate.{maybe_truncate, length-maybe_truncate}

abbrev text : List ℕ
text = 1 ∷ 2 ∷ 3 ∷ 4 ∷ 5 ∷ 6 ∷ []

length-maybe_truncate_example :
    length (maybe_truncate text (some (pos 4)) (0 ∷ []) (λ n. none)) ≡ min 4 6
length-maybe_truncate_example = length-maybe_truncate text (0 ∷ []) (λ n. none) 4 (omega arith)
