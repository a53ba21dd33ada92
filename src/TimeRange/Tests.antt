-- ===== src/TimeRange/Tests.antt =====
-- A platform whose dates are written as their milliseconds and start 8,640,000,000,000,000 before 1970.
use vantric.Prelude.{
  refl, ℕ, ◌+◌, ◌-◌, ◌*◌, ◌<◌, ◌≡◌, true, Option, none, some, [], ◌∷◌, ◌++◌, ltb, if◌then◌else◌,
  arith, ◌↔◌,
}
use vantric.Prelude.Text.{Text, text, show}
use vantric.TimeRange.{
  TimeRange, unix, hours, rejects, throws, returns, parse_relative, in_range, bound, at_time,
}
use vantric.TimeRange.Relative.{
  letter, milliseconds, says, parse_relative-show, parse_relative-throws,
}
use vantric.TimeRange.Within.{Within, in_range_iff}

-- The milliseconds are counted from the first date.
abbrev iso_before : ℕ → ℕ → Option Text
iso_before now back =
    if ltb (now + 8640000000000000) back then none else some (show (now + 8640000000000000 - back))

abbrev three_hours_before : Text
three_hours_before = show (1800000000000 + 8640000000000000 - 3 * 3600000)

dated : iso_before 1800000000000 (3 * milliseconds hours) ≡ some three_hours_before
dated = refl

parse_relative-show_example :
    (parse_relative iso_before (show 0 ++ letter hours ∷ []) 1800000000000 ≡ rejects)
    × (parse_relative iso_before (show 3 ++ letter hours ∷ []) 1800000000000
        ≡ returns (record { label = says 3 hours; since = some three_hours_before; until = none }))
parse_relative-show_example =
    parse_relative-show iso_before 1800000000000 3 hours three_hours_before
      (λ e. absurd (omega arith)) dated

dates_end :
    (back : ℕ) → 1800000000000 + 8640000000000000 < back → iso_before 1800000000000 back ≡ none
dates_end back h = ground arith

parse_relative-throws_example :
    parse_relative iso_before (show 99999999 ++ b'w' ∷ []) 1800000000000 ≡ throws
parse_relative-throws_example =
    parse_relative-throws iso_before 1800000000000 99999999 dates_end (omega arith)

abbrev since_2026 : TimeRange
since_2026 = record { label = text "Since"; since = some (text "2026"); until = none }

abbrev year_of : Text → Option ℕ
year_of iso = some 1767225600000

in_range_iff_example :
    (in_range year_of since_2026 (unix 1767225601) ≡ true)
    ↔ Within
        (bound year_of since_2026.since)
        (bound year_of since_2026.until)
        (at_time year_of (unix 1767225601))
in_range_iff_example = in_range_iff year_of since_2026 (unix 1767225601)
