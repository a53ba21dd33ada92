-- ===== src/Favorites/Toggled.antt =====
-- What a toggle changes.
use vantric.Prelude.{false, not, ◌||◌, List, [], ◌∷◌, ◌++◌, if◌then◌else◌, filter_by, ◌≡◌, arith}
use vantric.Prelude.Text.{Text, same, same_iff, among}
use vantric.Favorites.{is_favorite, toggle}

among-append : (x y : Text) (xs : List Text) → among x (xs ++ y ∷ []) ≡ (among x xs || same x y)
unfolding among
among-append x y [] = ground arith
among-append x y (z ∷ xs) = ground (arith, among-append x y xs)

among-without :
    (x y : Text) (xs : List Text)
    → among x (filter_by (λ f. not (same f y)) xs) ≡ (if same x y then false else among x xs)
unfolding among
among-without x y [] = ground arith
among-without x y (z ∷ xs) =
    ground (arith, among-without x y xs, same_iff x y, same_iff x z, same_iff z y)

-- A toggle turns the section's own star around and leaves every other as it was.
pub is_favorite-toggle :
    (id other : Text) (favorites : List Text)
    → is_favorite other (toggle id favorites)
      ≡ (if same other id then not (is_favorite other favorites) else is_favorite other favorites)
unfolding is_favorite toggle
is_favorite-toggle id other favorites =
    ground
      (arith, among-append other id favorites, among-without other id favorites, same_iff other id)
