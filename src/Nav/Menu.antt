-- ===== src/Nav/Menu.antt =====
-- The global menu of frontend/src/components/Shell.tsx: which sections it lists, and which section has a
-- nav of its own.
use vantric.Prelude.{
  ◌≡◌, refl, Bool, true, false, not, ◌&&◌, ◌||◌, Option, none, some, List, [], ◌∷◌, ◌↔◌, ◌⊎◌, inl,
  inr, filter_by, In, In-filter_iff, and_iff, or_iff, arith, if◌then◌else◌,
}
use vantric.Prelude.Text.{Text, text, same, among}
use vantric.Roles.{viewer, Held, grants_by_section}
use vantric.Roles.Held.{has_entry, has_entry-grants_by_section}
use vantric.Roles.Allowed.{SomeGrants, allowed_iff}
use vantric.Favorites.{is_favorite}
use vantric.Nav.{SectionItem, SectionGroup, Section}
use vantric.Nav.Table.{sections, section_ids, section_for}
use vantric.Nav.Lab.{overview_section, shortcuts_section}

abbrev pub top_section_ids : List Text
top_section_ids = text "overview" ∷ text "shortcuts" ∷ []

abbrev pub always_visible : List Text
always_visible = text "overview" ∷ text "shortcuts" ∷ text "docs" ∷ []

unfoldable pub visible : Held → Text → Bool
unfolding among has_entry text
visible held id = among id always_visible || has_entry held id

unfoldable pub is_listed : Held → Section → Bool
unfolding visible
is_listed held s = not (among s.id top_section_ids) && visible held s.id

unfoldable pub listed : Held → List Section
unfolding is_listed
listed held = filter_by (is_listed held) sections

unfoldable pub pinned : Held → List Text → List Section
unfolding listed is_favorite
pinned held favorites = filter_by (λ s. is_favorite s.id favorites) (listed held)

-- `sections.find((s) => s.id === id)`, and the ones of a list that are found
unfoldable pub section_named : Text → List Section → Option Section
unfolding same
section_named id [] = none
section_named id (s ∷ rest) = if same s.id id then some s else section_named id rest

abbrev cons_found : Option Section → List Section → List Section
cons_found none found = found
cons_found (some s) found = s ∷ found

unfoldable pub found_sections : List Text → List Section
unfolding section_named
found_sections [] = []
found_sections (id ∷ ids) = cons_found (section_named id sections) (found_sections ids)

-- The entries above the favourites
unfoldable pub top_entries : Held → List Section
unfolding visible found_sections
top_entries held = found_sections (filter_by (visible held) top_section_ids)

abbrev lists_something : List SectionItem → List SectionGroup → Bool
lists_something [] [] = false
lists_something [] (g ∷ groups) = true
lists_something (i ∷ items) groups = true

abbrev kept_nav : Option Section → Option Section
kept_nav none = none
kept_nav (some s) = if lists_something s.items s.groups then some s else none

-- A section with nothing to list gets no drawer.
unfoldable pub section_nav : Text → Option Section
unfolding section_for
section_nav pathname = kept_nav (section_for pathname)

visible_iff :
    (roles : List Text) (id : Text)
    → (visible (grants_by_section roles section_ids) id ≡ true)
      ↔ ((among id always_visible ≡ true) ⊎ SomeGrants section_ids id viewer roles)
unfolding visible
visible_iff roles id = rw (has_entry-grants_by_section roles section_ids id) (
  λ h. elim ((or_iff _ _).0 h) [
    | inl e ↦ inl e
    | inr e ↦ inr ((allowed_iff roles section_ids id viewer (omega arith)).0 e)
  ],
  λ h. elim h [
    | inl e ↦ (or_iff _ _).1 (inl e)
    | inr e ↦ (or_iff _ _).1 (inr ((allowed_iff roles section_ids id viewer (omega arith)).1 e))
  ],
)

not_iff : (b : Bool) → (not b ≡ true) ↔ (b ≡ false)
not_iff b = ground arith

listed_iff :
    (roles : List Text) (s : Section)
    → In s (listed (grants_by_section roles section_ids)) ↔ (
        In s sections
        × (among s.id top_section_ids ≡ false)
        × ((among s.id always_visible ≡ true) ⊎ SomeGrants section_ids s.id viewer roles))
unfolding listed is_listed
listed_iff roles s = (
  λ h.
      let kept = (In-filter_iff (is_listed (grants_by_section roles section_ids)) s sections).0 h in
      let tests = (and_iff _ _).0 kept.1 in
      (kept.0, (not_iff _).0 tests.0, (visible_iff roles s.id).0 tests.1),
  λ h.
      (In-filter_iff (is_listed (grants_by_section roles section_ids)) s sections).1
        (h.0, (and_iff _ _).1 ((not_iff _).1 h.1, (visible_iff roles s.id).1 h.2)),
)

top_entries_all : (held : Held) → top_entries held ≡ overview_section ∷ shortcuts_section ∷ []
unfolding top_entries visible found_sections section_named among same text
top_entries_all held = refl

-- The menu of an account has the overview and the shortcuts on top, whatever its roles are; below them
-- it lists exactly the other sections of the console on which one of its roles lets it view, and the
-- documentation; and the favourites are those of the list that are starred.
pub menu_lists_viewable :
    (roles favorites : List Text)
    → (top_entries (grants_by_section roles section_ids)
        ≡ overview_section ∷ shortcuts_section ∷ [])
      × ((s : Section)
          → In s (listed (grants_by_section roles section_ids)) ↔ (
              In s sections
              × (among s.id top_section_ids ≡ false)
              × ((among s.id always_visible ≡ true) ⊎ SomeGrants section_ids s.id viewer roles)))
      × ((s : Section)
          → In s (pinned (grants_by_section roles section_ids) favorites) ↔ (
              In s (listed (grants_by_section roles section_ids))
              × (is_favorite s.id favorites ≡ true)))
unfolding pinned
menu_lists_viewable roles favorites = (
  top_entries_all (grants_by_section roles section_ids),
  listed_iff roles,
  λ s.
      In-filter_iff (λ t. is_favorite t.id favorites) s
        (listed (grants_by_section roles section_ids)),
)
