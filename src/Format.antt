-- ===== src/Format.antt =====
-- frontend/src/format.ts: numbers for display. A count of bytes or seconds is whole and is divided exactly;
-- `rounded` and `tenths` are what Math.round and toFixed(1) make of a fraction.
pub mod Sizes
pub mod Tests
use vantric.Prelude.{
  ℕ, zero, suc, ◌+◌, ◌-◌, ◌*◌, ◌/◌, ◌%◌, ◌^◌, Bool, true, false, ◌&&◌, ◌||◌, List, [], ◌∷◌, ◌++◌,
  ltb, leb, ◌==◌, if◌then◌else◌,
}
use vantric.Prelude.Text.{Text, text, show}

-- `Math.round(n / d)`: halves go up
unfoldable pub rounded : ℕ → ℕ → ℕ
rounded n d = (2 * n + d) / (2 * d)

-- `(n / d).toFixed(1)`
unfoldable pub tenths : ℕ → ℕ → Text
unfolding show rounded
tenths n d = let t = rounded (10 * n) d in show (t / 10) ++ b'.' ∷ show (t % 10)

-- `while (value >= 1024 && unit < units.length - 1)`: how often a count is divided, `left` times at most
unfoldable pub unit_index : ℕ → ℕ → ℕ
unit_index zero bytes = 0
unit_index (suc left) bytes =
    let more = unit_index left (bytes / 1024) in if leb 1024 bytes then suc more else 0

unfoldable pub unit_name : ℕ → Text
unfolding text
unit_name n =
    if n == 0
    then text "B"
    else if n == 1
    then text "KB"
    else if n == 2
    then text "MB"
    else if n == 3
    then text "GB"
    else text "TB"

unfoldable pub format_value : ℕ → ℕ → Text
unfolding rounded tenths show
format_value n d = if leb (100 * d) n then show (rounded n d) else tenths n d

unfoldable pub format_bytes : ℕ → Text
unfolding unit_index unit_name format_value text
format_bytes bytes =
    if bytes == 0
    then text "—"
    else format_value bytes (1024 ^ unit_index 4 bytes)
      ++ (text " " ++ unit_name (unit_index 4 bytes))

unfoldable pub format_bytes_per_sec : ℕ → Text
unfolding format_bytes text
format_bytes_per_sec bytes = if bytes == 0 then text "0" else format_bytes bytes ++ text "/s"

unfoldable pub format_uptime : ℕ → Text
unfolding show text
format_uptime seconds =
    let days = seconds / 86400 in
    let hours = seconds % 86400 / 3600 in
    let minutes = seconds % 3600 / 60 in
    if seconds == 0
    then text "—"
    else if ltb 0 days
    then show days ++ (text "d " ++ (show hours ++ text "h"))
    else if ltb 0 hours
    then show hours ++ (text "h " ++ (show minutes ++ text "m"))
    else show minutes ++ text "m"

unfoldable pub format_duration : ℕ → Text
unfolding format_uptime show text
format_duration seconds =
    if ltb seconds 1
    then text "<1s"
    else if ltb seconds 60
    then show seconds ++ text "s"
    else format_uptime seconds

abbrev plural : ℕ → Text → Text → Text
plural n one many = if n == 1 then one else many

-- The words for a span of so many whole seconds; one that is not over yet is just now.
unfoldable pub span_words : ℕ → Text
unfolding rounded show text
span_words seconds =
    let minutes = rounded seconds 60 in
    let hours = rounded minutes 60 in
    let days = rounded hours 24 in
    if ltb seconds 60
    then text "just now"
    else if ltb minutes 60
    then show minutes ++ plural minutes (text " minute ago") (text " minutes ago")
    else if ltb hours 24
    then text "about " ++ (show hours ++ plural hours (text " hour ago") (text " hours ago"))
    else show days ++ plural days (text " day ago") (text " days ago")

-- `now` is `Date.now()`, in milliseconds.
unfoldable pub time_ago : ℕ → ℕ → Text
unfolding span_words rounded text
time_ago now unix_seconds =
    if unix_seconds == 0
    then text "never"
    else if ltb now (unix_seconds * 1000)
    then text "just now"
    else span_words (rounded (now - unix_seconds * 1000) 1000)

unfoldable pub format_memory : ℕ → Text
unfolding show tenths text
format_memory mb =
    if ltb mb 1
    then []
    else if ltb mb 1024
    then show mb ++ text " MB"
    else if mb % 1024 == 0
    then show (mb / 1024) ++ text " GB"
    else tenths mb 1024 ++ text " GB"
