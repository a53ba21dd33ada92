-- ===== src/TimeRange/Relative.antt =====
-- What `parseRelative` makes of the shorthand.
use vantric.Prelude.{
  ℕ, ◌+◌, ◌*◌, ◌<◌, ◌≡◌, ◌≢◌, refl, ap, ◌∙◌, false, Option, none, some, [], ◌∷◌, ◌++◌, ◌==◌,
  if◌then◌else◌, arith, sym, subst, Bool-cases, inl, inr,
}
use vantric.Prelude.Text.{
  text, show_from, without_last, Text, is_digit, is_empty, is_space, trim_start, show,
}
use vantric.Prelude.Text.Decimal.{AllDigits, show-AllDigits, number-show, show-ne-nil}
use vantric.TimeRange.{
  TimeUnit, seconds, minutes, hours, days, weeks, unit_of, unit_seconds, unit_word, returns,
  digit_run, unit_at_end, matched, match_run, match_relative, throws, rejects, since_bound,
  relative_label, last_range, parse_relative,
}

-- The letter that stands for a unit
abbrev pub letter : TimeUnit → ℕ
letter seconds = b's'
letter minutes = b'm'
letter hours = b'h'
letter days = b'd'
letter weeks = b'w'

digit_run-append :
    (u : Text) (c : ℕ) (s : Text)
    → AllDigits u
    → is_digit c ≡ false
    → digit_run (u ++ c ∷ s) ≡ (u, c ∷ s)
unfolding digit_run
digit_run-append [] c s h k = rw k refl
digit_run-append (d ∷ u) c s (hd, h) k = rw (hd, digit_run-append u c s h k) refl

trim_start_of_digits : (u s : Text) → AllDigits u → u ≢ [] → trim_start (u ++ s) ≡ u ++ s
unfolding trim_start is_space
trim_start_of_digits [] s h some_digit = absurd (some_digit refl)
trim_start_of_digits (d ∷ u) s (hd, h) some_digit = ground arith

unit_at_end-letter : (unit : TimeUnit) → unit_at_end (letter unit ∷ []) ≡ some unit
unfolding unit_at_end unit_of trim_start
unit_at_end-letter seconds = refl
unit_at_end-letter unit = refl

trim_start-letter : (unit : TimeUnit) → trim_start (letter unit ∷ []) ≡ letter unit ∷ []
unfolding trim_start is_space
trim_start-letter seconds = refl
trim_start-letter unit = refl

letter_no_digit : (unit : TimeUnit) → is_digit (letter unit) ≡ false
letter_no_digit seconds = refl
letter_no_digit unit = refl

matched-show : (value : ℕ) (unit : TimeUnit) → matched (show value) (some unit) ≡ some (value, unit)
unfolding matched
matched-show value unit =
    rw (not_empty (show value) (show-ne-nil value)) (ap (λ n. some (n, unit)) (number-show value))
  where
    not_empty : (u : Text) → u ≢ [] → is_empty u ≡ false
    not_empty [] h = absurd (h refl)
    not_empty (c ∷ u) h = refl

match_relative-show :
    (value : ℕ) (unit : TimeUnit)
    → match_relative (show value ++ letter unit ∷ []) ≡ some (value, unit)
unfolding match_relative match_run
match_relative-show value unit =
    ap (λ s. match_run (digit_run s))
      (trim_start_of_digits (show value) (letter unit ∷ []) (show-AllDigits value)
        (show-ne-nil value))
    ∙ ap match_run (
        digit_run-append (show value) (letter unit) [] (show-AllDigits value)
          (letter_no_digit unit))
    ∙ ap (λ s. matched (show value) (unit_at_end s)) (trim_start-letter unit)
    ∙ ap (matched (show value)) (unit_at_end-letter unit)
    ∙ matched-show value unit

parse_relative_cases :
    (iso_before : ℕ → ℕ → Option Text) (now value : ℕ) (unit : TimeUnit)
    → parse_relative iso_before (show value ++ letter unit ∷ []) now ≡ (
        if value == 0
        then rejects
        else since_bound
            (relative_label value unit)
            (iso_before now (value * unit_seconds unit * 1000)))
unfolding parse_relative last_range
parse_relative_cases iso_before now value unit = rw (match_relative-show value unit) refl

-- How long a unit is, in milliseconds, and what it is called of one and of many
abbrev pub milliseconds : TimeUnit → ℕ
milliseconds seconds = 1000
milliseconds minutes = 60000
milliseconds hours = 3600000
milliseconds days = 86400000
milliseconds weeks = 604800000

unfoldable pub one_of_unit : TimeUnit → Text
unfolding text
one_of_unit seconds = text "Last 1 second"
one_of_unit minutes = text "Last 1 minute"
one_of_unit hours = text "Last 1 hour"
one_of_unit days = text "Last 1 day"
one_of_unit weeks = text "Last 1 week"

unfoldable pub many_of_unit : TimeUnit → Text
unfolding text
many_of_unit seconds = text " seconds"
many_of_unit minutes = text " minutes"
many_of_unit hours = text " hours"
many_of_unit days = text " days"
many_of_unit weeks = text " weeks"

unfoldable pub says : ℕ → TimeUnit → Text
unfolding one_of_unit many_of_unit text show
says value unit =
    if value == 1 then one_of_unit unit else text "Last " ++ (show value ++ many_of_unit unit)

milliseconds_of_seconds :
    (value : ℕ) (unit : TimeUnit) → value * unit_seconds unit * 1000 ≡ value * milliseconds unit
milliseconds_of_seconds value seconds = omega arith
milliseconds_of_seconds value minutes = omega arith
milliseconds_of_seconds value hours = omega arith
milliseconds_of_seconds value days = omega arith
milliseconds_of_seconds value weeks = omega arith

label_of_one : (unit : TimeUnit) → relative_label 1 unit ≡ says 1 unit
unfolding relative_label says one_of_unit many_of_unit show show_from text unit_word without_last
label_of_one seconds = refl
label_of_one minutes = refl
label_of_one hours = refl
label_of_one days = refl
label_of_one weeks = refl

word_of_many : (unit : TimeUnit) → text " " ++ unit_word unit ≡ many_of_unit unit
unfolding unit_word many_of_unit text
word_of_many seconds = refl
word_of_many minutes = refl
word_of_many hours = refl
word_of_many days = refl
word_of_many weeks = refl

label_of_many :
    (value : ℕ) (unit : TimeUnit)
    → (value == 1) ≡ false
    → relative_label value unit ≡ says value unit
unfolding relative_label says
label_of_many value unit h = rw h (ap (λ w. text "Last " ++ (show value ++ w)) (word_of_many unit))

relative_label-says : (value : ℕ) (unit : TimeUnit) → relative_label value unit ≡ says value unit
relative_label-says value unit = elim (Bool-cases (value == 1)) [
  | inl e ↦
      let one : value ≡ 1 = ground arith in
      subst (λ n. relative_label n unit ≡ says n unit) (sym one) (label_of_one unit)
  | inr e ↦ label_of_many value unit e
]

not_zero : (n : ℕ) → n ≢ 0 → (n == 0) ≡ false
not_zero n h = ground arith

-- The shorthand of a number and a unit is read as what it says: 0 is refused, and any other number gives
-- the window that starts so many of the unit before now and has no end, under the label that says so,
-- where the platform has a date for its start.
pub parse_relative-show :
    (iso_before : ℕ → ℕ → Option Text) (now value : ℕ) (unit : TimeUnit) (since : Text)
    → value ≢ 0
    → iso_before now (value * milliseconds unit) ≡ some since
    → (parse_relative iso_before (show 0 ++ letter unit ∷ []) now ≡ rejects)
      × (parse_relative iso_before (show value ++ letter unit ∷ []) now
          ≡ returns (record { label = says value unit; since = some since; until = none }))
parse_relative-show iso_before now value unit since some_value dated = (
  parse_relative_cases iso_before now 0 unit,
  parse_relative_cases iso_before now value unit
      ∙ ap
          (λ b.
            if b
            then rejects
            else since_bound (relative_label value unit)
                (iso_before now (value * unit_seconds unit * 1000)))
          (not_zero value some_value)
      ∙ ap (λ ms. since_bound (relative_label value unit) (iso_before now ms))
          (milliseconds_of_seconds value unit)
      ∙ ap (since_bound (relative_label value unit)) dated
      ∙ ap (λ l. returns (record { label = l; since = some since; until = none }))
          (relative_label-says value unit),
)

-- The field does not refuse every number that is too large: where the dates of the platform end
-- 8,640,000,000,000,000 milliseconds before 1970, a number of weeks that reaches beyond them makes the
-- call throw.
pub parse_relative-throws :
    (iso_before : ℕ → ℕ → Option Text) (now value : ℕ)
    → ((back : ℕ) → now + 8640000000000000 < back → iso_before now back ≡ none)
    → now + 8640000000000000 < value * 604800000
    → parse_relative iso_before (show value ++ b'w' ∷ []) now ≡ throws
parse_relative-throws iso_before now value limit far =
    parse_relative_cases iso_before now value weeks
    ∙ out_of_dates (iso_before now (value * 604800 * 1000))
        (limit (value * 604800 * 1000) (omega arith))
  where
    out_of_dates :
        (o : Option Text)
        → o ≡ none
        → (if value == 0 then rejects else since_bound (relative_label value weeks) o) ≡ throws
    out_of_dates none h = ground arith
    out_of_dates (some iso) h = absurd (cc)
