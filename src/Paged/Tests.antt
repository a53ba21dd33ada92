-- ===== src/Paged/Tests.antt =====
-- Concrete pages of a table.
use vantric.Prelude.{ℕ, ◌≤◌, List, [], ◌∷◌, length, arith}
use vantric.Paged.{shown}
use vantric.Paged.Slices.{length-shown_bounds}

abbrev rows : List ℕ
rows = 1 ∷ 2 ∷ 3 ∷ []

length-shown_bounds_example : (1 ≤ length (shown rows 2 7)) × (length (shown rows 2 7) ≤ 2)
length-shown_bounds_example = length-shown_bounds rows 2 7 (omega arith) (omega arith)
