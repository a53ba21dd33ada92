-- ===== src/Table/Tests.antt =====
-- A concrete table.
use vantric.Prelude.{◌≡◌, refl, none, List, [], ◌∷◌, ◌++◌, ◌⊎◌, ◌↔◌, true}
use vantric.Prelude.Text.{Text, text, trim, lower_ascii}
use vantric.Table.{string, raw_value, text_of, searchable_text, new_told, render_all}
use vantric.Table.Reported.{Latest, render_all-told}
use vantric.Table.Matching.{Shown, searchable_text_iff}

abbrev both : List Text
both = text "a" ∷ text "b" ∷ []

render_all-told_example :
    Latest (render_all ((text "a" ∷ []) ∷ [] ∷ [] ++ both ∷ []) new_told).calls both
    × (render_all ((text "a" ∷ []) ∷ [] ∷ [] ++ both ∷ both ∷ []) new_told
        ≡ render_all ((text "a" ∷ []) ∷ [] ∷ [] ++ both ∷ []) new_told)
unfolding text
render_all-told_example =
    render_all-told ((text "a" ∷ []) ∷ [] ∷ []) both ((refl, (refl, tt)), ((refl, (refl, tt)), tt))

searchable_text_iff_example :
    (searchable_text lower_ascii (text " Web ") none (string (text "webserver")) ≡ true) ↔ (
      (trim (lower_ascii (text " Web ")) ≡ [])
      ⊎ Shown lower_ascii
          (trim (lower_ascii (text " Web ")))
          (text_of (raw_value none (string (text "webserver")))))
searchable_text_iff_example =
    searchable_text_iff lower_ascii (text " Web ") none (string (text "webserver"))
