-- ===== src/Paged/Slices.antt =====
-- What the pages of a table show.
use vantric.Prelude.{
  ℕ, zero, suc, ◌+◌, ◌-◌, ◌*◌, ◌/◌, ◌≤◌, ◌<◌, min, List, [], ◌∷◌, ◌++◌, length, take, drop, ◌≡◌,
  refl, arith, ap, ◌∙◌,
}
use native.Mathlib.Nat.{div-add-mod, mul-le-mul_right, suc-mul}
use vantric.Paged.{last_page, current_page, page_rows, shown}

length-drop : {A : Type 0} (n : ℕ) (xs : List A) → length (drop n xs) ≡ length xs - n
length-drop zero xs = omega arith
length-drop (suc n) [] = omega arith
length-drop (suc n) (x ∷ xs) = omega (arith, length-drop n xs)

length-take : {A : Type 0} (n : ℕ) (xs : List A) → length (take n xs) ≡ min n (length xs)
length-take zero xs = omega arith
length-take (suc n) [] = omega arith
length-take (suc n) (x ∷ xs) = omega (arith, length-take n xs)

pred_times : (q p : ℕ) → (q - 1) * p ≡ q * p - p
pred_times zero p = omega arith
pred_times (suc q) p = let e : suc q - 1 ≡ q = omega arith in rw e (omega (arith, suc-mul q p))

last_page_bound :
    (rows per_page : ℕ) → 0 < rows → 0 < per_page → last_page rows per_page * per_page < rows
unfolding last_page
last_page_bound rows per_page some_row some_size =
    let padded = rows + (per_page - 1) in
    omega (arith, div-add-mod padded per_page, pred_times (padded / per_page) per_page)

current_page_bound :
    (rows per_page page : ℕ)
    → 0 < rows
    → 0 < per_page
    → current_page rows per_page page * per_page < rows
unfolding current_page
current_page_bound rows per_page page some_row some_size =
    let last = last_page rows per_page in
    let small : min page last ≤ last = omega arith in
    omega (arith, mul-le-mul_right per_page small, last_page_bound rows per_page some_row some_size)

-- A table that has rows shows some, whatever page it was on: no page is longer than asked, and none
-- is empty.
pub length-shown_bounds :
    {A : Type 0} (rows : List A) (per_page page : ℕ)
    → 0 < length rows
    → 0 < per_page
    → (1 ≤ length (shown rows per_page page)) × (length (shown rows per_page page) ≤ per_page)
unfolding shown page_rows
length-shown_bounds rows per_page page some_row some_size =
    let start = current_page (length rows) per_page page * per_page in
    let inside = current_page_bound (length rows) per_page page some_row some_size in
    let size = length-take per_page (drop start rows) in
    let rest = length-drop start rows in (omega arith, omega arith)

take-add : {A : Type 0} (m n : ℕ) (xs : List A) → take m xs ++ take n (drop m xs) ≡ take (m + n) xs
take-add zero n xs = let e : 0 + n ≡ n = omega arith in rw e refl
take-add (suc m) zero [] = let e : suc m + 0 ≡ suc m = omega arith in rw e refl
take-add (suc m) (suc n) [] = let e : suc m + suc n ≡ suc (m + suc n) = omega arith in rw e refl
take-add (suc m) n (x ∷ xs) =
    let e : suc m + n ≡ suc (m + n) = omega arith in rw e (ap (λ ys. x ∷ ys) (take-add m n xs))

-- The pages follow on from each other: a page shows the rows after those of the pages before it, and
-- none between is left out.
pub page_rows_tile :
    {A : Type 0} (rows : List A) (per_page current : ℕ)
    → take (current * per_page) rows ++ page_rows rows per_page current
      ≡ take (suc current * per_page) rows
unfolding page_rows
page_rows_tile rows per_page current =
    take-add (current * per_page) per_page rows
    ∙ ap (λ n. take n rows) (omega (arith, suc-mul current per_page))
