-- ===== src/Table/Matching.antt =====
-- Which rows the filter of a table keeps.
use vantric.Prelude.{
  ◌≡◌, refl, sym, ◌∙◌, ap, true, Option, none, some, [], ◌∷◌, ◌++◌, ◌⊎◌, inl, inr, ◌↔◌, arith,
  Bool-cases, or_iff, and_iff, ==_iff,
}
use vantric.Prelude.Text.{Text, starts, includes, is_empty, is_empty_iff, trim}
use vantric.Table.{Value, raw_value, text_of, holds_needle, searchable_text}

-- A text stands in another.
abbrev pub StandsIn : Text → Text → Type 0
StandsIn part whole = (before : Text) × (after : Text) × (whole ≡ before ++ (part ++ after))

starts_sound : (p s : Text) → starts p s ≡ true → (after : Text) × (s ≡ p ++ after)
unfolding starts
starts_sound [] s h = (s, refl)
starts_sound (c ∷ p) [] h = absurd (cc)
starts_sound (c ∷ p) (d ∷ s) h =
    let both = (and_iff _ _).0 h in
    let rest = starts_sound p s both.1 in
    (rest.0, ap (λ t. d ∷ t) rest.1 ∙ ap (λ x. x ∷ p ++ rest.0) (sym ((==_iff c d).0 both.0)))

starts-append : (p s : Text) → starts p (p ++ s) ≡ true
unfolding starts
starts-append [] s = refl
starts-append (c ∷ p) s = (and_iff _ _).1 ((==_iff c c).1 refl, starts-append p s)

includes_sound : (p s : Text) → includes p s ≡ true → StandsIn p s
unfolding includes
includes_sound p [] h = let found = starts_sound p [] h in ([], found.0, found.1)
includes_sound p (c ∷ s) h = elim ((or_iff _ _).0 h) [
  | inl e ↦ let found = starts_sound p (c ∷ s) e in ([], found.0, found.1)
  | inr e ↦ let found = includes_sound p s e in (c ∷ found.0, found.1, ap (λ t. c ∷ t) found.2)
]

includes-starts : (p s : Text) → starts p s ≡ true → includes p s ≡ true
unfolding includes
includes-starts p [] h = h
includes-starts p (c ∷ s) h = (or_iff _ _).1 (inl h)

includes-append : (p before after : Text) → includes p (before ++ (p ++ after)) ≡ true
unfolding includes
includes-append p [] after = includes-starts p (p ++ after) (starts-append p after)
includes-append p (c ∷ before) after = (or_iff _ _).1 (inr (includes-append p before after))

includes_iff : (p s : Text) → (includes p s ≡ true) ↔ StandsIn p s
includes_iff p s = (includes_sound p s, λ found. rw found.2 (includes-append p found.0 found.1))

-- Some text of the column holds what was typed, in lower case.
abbrev pub Shown : (Text → Text) → Text → Option Text → Type 0
Shown to_lower_case needle none = ⊥
Shown to_lower_case needle (some raw) = StandsIn needle (to_lower_case raw)

holds_needle_iff :
    (to_lower_case : Text → Text) (needle : Text) (raw : Option Text)
    → (holds_needle to_lower_case needle raw ≡ true) ↔ Shown to_lower_case needle raw
holds_needle_iff to_lower_case needle none = (λ h. absurd (cc), λ h. absurd h)
holds_needle_iff to_lower_case needle (some raw) = includes_iff needle (to_lower_case raw)

-- A column matches exactly if nothing but white space was typed, or if what was typed, trimmed and in
-- lower case, stands in the lower case of a text of the column: the one that the column names for the
-- filter where it names one, and otherwise its value, if that is a text and not empty.
pub searchable_text_iff :
    (to_lower_case : Text → Text) (typed : Text) (filter_text : Option (Option Text))
    (value : Value)
    → (searchable_text to_lower_case typed filter_text value ≡ true) ↔ (
        (trim (to_lower_case typed) ≡ [])
        ⊎ Shown to_lower_case (trim (to_lower_case typed)) (text_of (raw_value filter_text value)))
unfolding searchable_text
searchable_text_iff to_lower_case typed filter_text value =
    elim (Bool-cases (is_empty (trim (to_lower_case typed)))) [
      | inl e ↦ rw e (λ _. inl ((is_empty_iff _).0 e), λ _. refl)
      | inr e ↦ rw e (
        λ h. inr ((holds_needle_iff to_lower_case _ _).0 h),
        λ h. elim h [
          | inl empty ↦ absurd (ground (arith, (is_empty_iff _).1 empty))
          | inr shown ↦ (holds_needle_iff to_lower_case _ _).1 shown
        ],
      )
    ]
