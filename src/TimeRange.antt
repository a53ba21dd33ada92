-- ===== src/TimeRange.antt =====
-- frontend/src/timeRange.ts: the windows of time that the console passes around. A moment is the
-- milliseconds since 1970; what the platform's Date makes of one is a parameter, and so is its reading of
-- a text. Counts are exact.
pub mod Relative
pub mod Within
pub mod Tests
use vantric.Prelude.{
  ℕ, ◌*◌, Bool, true, false, not, ◌&&◌, ◌||◌, Option, none, some, List, [], ◌∷◌, ◌++◌, ltb, ◌==◌,
  if◌then◌else◌,
}
use vantric.Prelude.Text.{
  Text, text, is_empty, is_digit, is_space, trim_start, number, show, without_last,
}

-- A bound that is absent or empty counts as none.
pub record TimeRange : Type 0 where
  pub label : Text
  pub since : Option Text
  pub until : Option Text

abbrev pub any_time : TimeRange
any_time = record { label = text "Any time"; since = none; until = none }

abbrev preset : Text → ℕ → Text × ℕ
preset label seconds = (label, seconds)

abbrev pub presets : List (Text × ℕ)
presets =
    preset (text "Last 15 minutes") (15 * 60)
    ∷ preset (text "Last 30 minutes") (30 * 60)
    ∷ preset (text "Last 1 hour") 3600
    ∷ preset (text "Last 3 hours") (3 * 3600)
    ∷ preset (text "Last 6 hours") (6 * 3600)
    ∷ preset (text "Last 12 hours") (12 * 3600)
    ∷ preset (text "Last 24 hours") (24 * 3600)
    ∷ preset (text "Last 7 days") (7 * 24 * 3600)
    ∷ preset (text "Last 30 days") (30 * 24 * 3600)
    ∷ preset (text "Last 90 days") (90 * 24 * 3600)
    ∷ []

-- The units of the shorthand
pub data TimeUnit : Type 0 where
  seconds minutes hours days weeks : TimeUnit

-- `[smhdw]` in either case
unfoldable pub unit_of : ℕ → Option TimeUnit
unit_of c =
    if c == b's' || c == b'S'
    then some seconds
    else if c == b'm' || c == b'M'
    then some minutes
    else if c == b'h' || c == b'H'
    then some hours
    else if c == b'd' || c == b'D'
    then some days
    else if c == b'w' || c == b'W'
    then some weeks
    else none

abbrev pub unit_seconds : TimeUnit → ℕ
unit_seconds seconds = 1
unit_seconds minutes = 60
unit_seconds hours = 3600
unit_seconds days = 24 * 3600
unit_seconds weeks = 7 * 24 * 3600

unfoldable pub unit_word : TimeUnit → Text
unfolding text
unit_word seconds = text "seconds"
unit_word minutes = text "minutes"
unit_word hours = text "hours"
unit_word days = text "days"
unit_word weeks = text "weeks"

-- `\d*` at the start of a text, and the rest
unfoldable pub digit_run : Text → Text × Text
digit_run [] = ([], [])
digit_run (c ∷ text_after) =
    let rest = digit_run text_after in
    if is_digit c then (c ∷ rest.0, rest.1) else ([], c ∷ text_after)

-- `(s|m|h|d|w)\s*$`
unfoldable pub unit_at_end : Text → Option TimeUnit
unfolding unit_of trim_start
unit_at_end [] = none
unit_at_end (c ∷ rest) = if is_empty (trim_start rest) then unit_of c else none

unfoldable pub matched : Text → Option TimeUnit → Option (ℕ × TimeUnit)
unfolding number
matched run none = none
matched run (some unit) = if is_empty run then none else some (number run, unit)

unfoldable pub match_run : Text × Text → Option (ℕ × TimeUnit)
unfolding matched unit_at_end trim_start
match_run (run, rest) = matched run (unit_at_end (trim_start rest))

-- `relativeRe.exec(text)`: the number and the unit
unfoldable pub match_relative : Text → Option (ℕ × TimeUnit)
unfolding match_run digit_run trim_start
match_relative typed = match_run (digit_run (trim_start typed))

-- What a call comes to: `toISOString` throws where there is no such date.
pub data Parsed : Type 0 where
  throws rejects : Parsed
  returns : TimeRange → Parsed

abbrev pub since_bound : Text → Option Text → Parsed
since_bound label none = throws
since_bound label (some since) =
    returns (record { label = label; since = some since; until = none })

-- `Last ${value} ${value === 1 ? word.slice(0, -1) : word}`
unfoldable pub relative_label : ℕ → TimeUnit → Text
unfolding unit_word show without_last text
relative_label value unit =
    text "Last "
    ++ (show value
        ++ (text " " ++ (if value == 1 then without_last 1 (unit_word unit) else unit_word unit)))

-- `iso_before now back` is the ISO text of the moment that lies `back` milliseconds before `now`.
module _ (iso_before : ℕ → ℕ → Option Text) where
  unfoldable pub last_range : Text → ℕ → ℕ → Parsed
  last_range label seconds_back now = since_bound label (iso_before now (seconds_back * 1000))

  abbrev relative_range : Option (ℕ × TimeUnit) → ℕ → Parsed
  relative_range none now = rejects
  relative_range (some (value, unit)) now =
      if value == 0
      then rejects
      else last_range (relative_label value unit) (value * unit_seconds unit) now

  unfoldable pub parse_relative : Text → ℕ → Parsed
  unfolding match_relative last_range relative_label
  parse_relative typed now = relative_range (match_relative typed) now

-- When something happened, as the API sends it
pub data At : Type 0 where
  absent : At
  unix : ℕ → At
  written : Text → At

abbrev pub starts_by : Option ℕ → ℕ → Bool
starts_by none ms = true
starts_by (some since) ms = not (ltb ms since)

abbrev pub ends_by : Option ℕ → ℕ → Bool
ends_by none ms = true
ends_by (some until) ms = not (ltb until ms)

abbrev pub has_bound : Option Text → Bool
has_bound none = false
has_bound (some iso) = not (is_empty iso)

-- `time_of` is `new Date(text).getTime()`, with nothing where that is NaN.
module _ (time_of : Text → Option ℕ) where
  abbrev pub at_time : At → Option ℕ
  at_time absent = none
  at_time (unix n) = some (n * 1000)
  at_time (written at) = if is_empty at then none else time_of at

  -- A bound that is no date lets everything pass, as a comparison with NaN is false.
  abbrev pub bound : Option Text → Option ℕ
  bound none = none
  bound (some iso) = if is_empty iso then none else time_of iso

  abbrev pub in_bounds : TimeRange → Option ℕ → Bool
  in_bounds range none = true
  in_bounds range (some ms) = starts_by (bound range.since) ms && ends_by (bound range.until) ms

  unfoldable pub in_range : TimeRange → At → Bool
  in_range range at =
      if not (has_bound range.since) && not (has_bound range.until)
      then true
      else in_bounds range (at_time at)
