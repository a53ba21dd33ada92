-- ===== src/Favorites.antt =====
-- frontend/src/favorites.ts: the sections pinned to the menu.
pub mod Toggled
use vantric.Prelude.{
  Bool, true, false, not, Option, none, some, List, [], ◌∷◌, ◌++◌, if◌then◌else◌, filter_by,
}
use vantric.Prelude.Text.{Text, same, among}

unfoldable pub is_favorite : Text → List Text → Bool
unfolding among
is_favorite id favorites = among id favorites

-- The list that `toggle` saves
unfoldable pub toggle : Text → List Text → List Text
unfolding is_favorite same
toggle id favorites =
    if is_favorite id favorites
    then filter_by (λ f. not (same f id)) favorites
    else favorites ++ id ∷ []
