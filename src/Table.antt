-- ===== src/Table.antt =====
-- frontend/src/components/DataTable.tsx: what the console's table adds to the library that holds its rows.
-- Which rows match, their order and their pages are the library's; `to_lower_case` is the platform's.
pub mod Reported
pub mod Matching
pub mod Tests
use vantric.Prelude.{
  ℕ, Bool, true, false, Option, none, some, List, [], ◌∷◌, ◌++◌, filter_by, map, if◌then◌else◌,
}
use vantric.Prelude.Text.{Text, text, same, is_empty, trim, includes, split, join}

-- What an accessor may return; a number, and anything else, is only sorted on.
pub data Value : Type 0 where
  undefined null : Value
  string : Text → Value
  number : ℕ → Value

-- `value === '' || value === null ? undefined : value`
unfoldable pub normalised : Value → Value
normalised undefined = undefined
normalised null = undefined
normalised (string s) = if is_empty s then undefined else string s
normalised (number n) = number n

-- What `meta.filterText` gives for the row, where the column has one; it may give nothing.
abbrev pub raw_value : Option (Option Text) → Value → Value
raw_value none value = normalised value
raw_value (some none) value = undefined
raw_value (some (some shown)) value = string shown

abbrev pub text_of : Value → Option Text
text_of (string s) = some s
text_of undefined = none
text_of null = none
text_of (number n) = none

module _ (to_lower_case : Text → Text) where
  abbrev pub holds_needle : Text → Option Text → Bool
  holds_needle needle none = false
  holds_needle needle (some raw) = includes needle (to_lower_case raw)

  unfoldable pub searchable_text : Text → Option (Option Text) → Value → Bool
  unfolding trim includes normalised
  searchable_text typed filter_text value =
      let needle = trim (to_lower_case typed) in
      if is_empty needle then true else holds_needle needle (text_of (raw_value filter_text value))

-- A list that the server pages and sorts: what is shown of it, and what it is asked for next.
pub record Change (S : Type 0) : Type 0 where
  pub page : ℕ
  pub page_size : ℕ
  pub sorting : S

-- `onSortingChange`: a new sort starts at the first page.
abbrev pub sorting_change : {S : Type 0} → Change S → (S → S) → Change S
sorting_change server updater = record {
  page = 0;
  page_size = server.page_size;
  sorting = updater server.sorting;
}

-- `onPageChange` and `onRowsPerPageChange`
abbrev pub page_change : {S : Type 0} → Change S → ℕ → Change S
page_change server next = record {
  page = next;
  page_size = server.page_size;
  sorting = server.sorting;
}

abbrev pub rows_per_page_change : {S : Type 0} → Change S → ℕ → Change S
rows_per_page_change server size = record { page = 0; page_size = size; sorting = server.sorting }

-- `rowSelection`, with its keys in order
abbrev pub row_selection : List Text → List (Text × Bool)
row_selection selection = map (λ id. (id, true)) selection

-- `Object.keys(next).filter((id) => next[id])`
unfoldable pub selected_ids : List (Text × Bool) → List Text
selected_ids next = map (λ e. e.0) (filter_by (λ e. e.1) next)

-- `filteredIDs.join()`
unfoldable pub filtered_key : List Text → Text
unfolding text join
filtered_key ids = join (text ",") ids

-- `lastFiltered`, and the calls of `onFilteredChange` so far, the last one first
pub record Told : Type 0 where
  pub last_filtered : Option Text
  pub calls : List (List Text)

abbrev pub new_told : Told
new_told = record { last_filtered = none; calls = [] }

abbrev pub is_last : Option Text → Text → Bool
is_last none key = false
is_last (some last) key = same last key

unfoldable pub ids_of_key : Text → List Text
unfolding split
ids_of_key key = if is_empty key then [] else split b',' key

-- The effect that runs when a render changes the key
unfoldable pub tell : Text → Told → Told
unfolding ids_of_key same
tell key told =
    if is_last told.last_filtered key
    then told
    else record { last_filtered = some key; calls = ids_of_key key ∷ told.calls }

-- A render for each list of rows that the filter matches
unfoldable pub render_all : List (List Text) → Told → Told
unfolding tell filtered_key
render_all [] told = told
render_all (ids ∷ renders) told = render_all renders (tell (filtered_key ids) told)
