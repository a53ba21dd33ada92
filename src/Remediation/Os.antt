-- ===== src/Remediation/Os.antt =====
-- `isNewerOS` and `newestOSInEstate` of frontend/src/remediation.ts: reported systems of one family, by
-- their trailing numbers, which are exact here.
use vantric.Prelude.{
  ℕ, Bool, false, ◌&&◌, ◌||◌, Option, none, some, List, [], ◌∷◌, ◌++◌, map, ltb, ◌==◌,
  if◌then◌else◌, not, filter_by,
}
use vantric.Prelude.Text.{Text, text, same, is_digit, is_empty, trim, trim_start, split, number}

-- `[\d.]`, and what `.` of an expression does not match
abbrev pub is_version_unit : ℕ → Bool
is_version_unit c = is_digit c || c == b'.'

abbrev pub ends_line : ℕ → Bool
ends_line c = c == 10 || c == 13 || c == 0x2028 || c == 0x2029

-- The longest run of `[\d.]` and what follows
unfoldable pub version_run : Text → Text × Text
version_run [] = ([], [])
version_run (c ∷ s) =
    let rest = version_run s in if is_version_unit c then (c ∷ rest.0, rest.1) else ([], c ∷ s)

-- `\s*(LTS)?$`
unfoldable pub is_tail : Text → Bool
unfolding trim_start same text
is_tail s = is_empty (trim_start s) || same (trim_start s) (text "LTS")

-- `([\d.]+)\s*(LTS)?$` at the start of a text
unfoldable pub version_here : Text → Option Text
unfolding version_run is_tail
version_here s =
    let run = version_run s in if not (is_empty run.0) && is_tail run.1 then some run.0 else none

-- `^(.*?)` before it, as short as can be: the family and the version
unfoldable pub match_version : Text → Text → Option (Text × Text)
unfolding version_here
match_version family [] = none
match_version family (c ∷ s) =
    let later = match_version (family ++ c ∷ []) s in
    elim (version_here (c ∷ s)) [
      | some version ↦ some (family, version)
      | none ↦ if ends_line c then none else later
    ]

-- `parts`: no part is NaN, since its units are digits
unfoldable pub version_parts : Text → List ℕ
unfolding split number
version_parts version = map number (filter_by (λ part. not (is_empty part)) (split b'.' version))

abbrev parsed : Option (Text × Text) → Option (Text × List ℕ)
parsed none = none
parsed (some (family, version)) = some (trim family, version_parts version)

unfoldable pub parse_os : Text → Option (Text × List ℕ)
unfolding match_version version_parts trim
parse_os s = parsed (match_version [] s)

-- The loop over the parts: one that is missing counts as 0.
unfoldable pub newer_parts : List ℕ → List ℕ → Bool
newer_parts [] [] = false
newer_parts [] (y ∷ ys) = let rest = newer_parts [] ys in if 0 == y then rest else ltb 0 y
newer_parts (x ∷ xs) [] = let rest = newer_parts xs [] in if x == 0 then rest else ltb x 0
newer_parts (x ∷ xs) (y ∷ ys) = let rest = newer_parts xs ys in if x == y then rest else ltb x y

unfoldable pub newer_parsed : Option (Text × List ℕ) → Option (Text × List ℕ) → Bool
unfolding newer_parts same
newer_parsed none right = false
newer_parsed (some left) none = false
newer_parsed (some (family, xs)) (some (other, ys)) = same family other && newer_parts xs ys

-- Whether `b` is newer than `a`
unfoldable pub is_newer_os : Text → Text → Bool
unfolding parse_os newer_parsed
is_newer_os a b = newer_parsed (parse_os a) (parse_os b)

-- The loop over the hosts
unfoldable pub newest : Text → List Text → Text
unfolding is_newer_os
newest os [] = os
newest os (h ∷ hosts) = newest (if is_newer_os os h then h else os) hosts

unfoldable pub newest_os_in_estate : Text → List Text → Option Text
unfolding newest same
newest_os_in_estate os hosts = if same (newest os hosts) os then none else some (newest os hosts)
