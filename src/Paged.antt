-- ===== src/Paged.antt =====
-- frontend/src/components/usePaged.tsx: the page of a table whose rows are in hand.
pub mod Tests
pub mod Slices
use vantric.Prelude.{ℕ, ◌+◌, ◌-◌, ◌*◌, ◌/◌, List, length, take, drop, min}

-- `Math.max(0, Math.ceil(rows.length / perPage) - 1)`
unfoldable pub last_page : ℕ → ℕ → ℕ
last_page rows per_page = (rows + (per_page - 1)) / per_page - 1

-- A page that no longer exists gives way to the last.
unfoldable pub current_page : ℕ → ℕ → ℕ → ℕ
unfolding last_page
current_page rows per_page page = min page (last_page rows per_page)

-- `rows.slice(current * perPage, current * perPage + perPage)`
unfoldable pub page_rows : {A : Type 0} → List A → ℕ → ℕ → List A
page_rows rows per_page current = take per_page (drop (current * per_page) rows)

unfoldable pub shown : {A : Type 0} → List A → ℕ → ℕ → List A
unfolding current_page page_rows
shown rows per_page page = page_rows rows per_page (current_page (length rows) per_page page)
