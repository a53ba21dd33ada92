-- ===== src/Validation/Names.antt =====
-- The names of frontend/src/validation.ts: resources, instances, identifiers, keys and buckets.
-- `to_lower_case` is the platform's `toLowerCase`, whose Unicode tables are not part of the program.
pub mod Accepts
use vantric.Prelude.{
  ℕ, Bool, true, false, not, ◌&&◌, ◌||◌, Option, none, some, [], ◌∷◌, ◌++◌, ltb, ◌==◌,
  if◌then◌else◌, length, any_of,
}
use vantric.Prelude.Text.{
  Text, text, same, is_empty, is_space, trim, has, includes, is_digit, is_lower, is_upper,
}
use vantric.Regex.{Regex, cls, seq, star, plus, test, label, bounded_label}

abbrev pub lower_or_digit : ℕ → Bool
lower_or_digit c = is_lower c || is_digit c

abbrev pub letter : ℕ → Bool
letter c = is_lower c || is_upper c

abbrev pub alphanumeric : ℕ → Bool
alphanumeric c = letter c || is_digit c

-- `[-a-z0-9]`
abbrev pub resource_unit : ℕ → Bool
resource_unit c = c == b'-' || lower_or_digit c

-- `/^[a-z]([-a-z0-9]{0,61}[a-z0-9])?$/`
pub resource_name_re : Regex
resource_name_re = bounded_label 61 is_lower resource_unit lower_or_digit

pub resource_name_error : (Text → Text) → Text → Option Text
unfolding resource_name_re
resource_name_error to_lower_case value =
    if is_empty value
    then none
    else if not (test resource_name_re value)
    then some (
        if not (same value (to_lower_case value))
        then text "Use lowercase only — no capital letters"
        else text "Lowercase letters, numbers and hyphens, starting with a letter")
    else none

-- `[a-zA-Z0-9-]`
abbrev pub instance_unit : ℕ → Bool
instance_unit c = alphanumeric c || c == b'-'

-- `/^[a-zA-Z0-9]([a-zA-Z0-9-]*[a-zA-Z0-9])?$/`
pub instance_name_re : Regex
instance_name_re = label alphanumeric instance_unit alphanumeric

pub instance_name_error : Text → Option Text
instance_name_error value =
    let trimmed = trim value in
    if is_empty trimmed
    then none
    else if ltb 63 (length trimmed)
    then some (text "Too long — 63 characters at most")
    else if not (test instance_name_re trimmed)
    then some (text "Letters, digits and hyphens only, starting and ending with one")
    else none

-- `[A-Za-z_]` and `[A-Za-z0-9_$-]`
abbrev pub identifier_start : ℕ → Bool
identifier_start c = letter c || c == b'_'

abbrev pub identifier_unit : ℕ → Bool
identifier_unit c = alphanumeric c || c == b'_' || c == b'$' || c == b'-'

-- `/^[A-Za-z_]/`, with no anchor at the end
pub identifier_start_test : Text → Bool
identifier_start_test [] = false
identifier_start_test (c ∷ s) = identifier_start c

-- `/^[A-Za-z_][A-Za-z0-9_$-]*$/`
pub identifier_re : Regex
identifier_re = seq (cls identifier_start) (star (cls identifier_unit))

pub identifier_error : Text → Option Text
identifier_error value =
    let name = trim value in
    if is_empty name
    then none
    else if not (identifier_start_test name)
    then some (text "Start with a letter or underscore")
    else if not (test identifier_re name)
    then some (text "Use letters, digits, underscore or hyphen only")
    else if ltb 63 (length name)
    then some (text "Keep it under 64 characters")
    else none

-- `[/\\?#%]`
abbrev pub unaddressable : ℕ → Bool
unaddressable c = c == b'/' || c == b'\\' || c == b'?' || c == b'#' || c == b'%'

pub access_key_error : Text → Option Text
access_key_error value =
    let key = trim value in
    if is_empty key
    then none
    else if ltb (length key) 3
    then some (text "Must be at least 3 characters")
    else if any_of is_space key
    then some (text "Can't contain spaces")
    else if any_of unaddressable key
    then some (text "Can't contain / \\ ? # or %")
    else none

pub secret_key_error : Text → Option Text
secret_key_error value =
    if is_empty value
    then none
    else if ltb (length value) 8
    then some (text "Must be at least 8 characters")
    else none

-- `[a-z0-9.-]`
abbrev pub bucket_unit : ℕ → Bool
bucket_unit c = lower_or_digit c || c == b'.' || c == b'-'

-- `/^\d+\.\d+\.\d+\.\d+$/`
pub dotted_quad_re : Regex
dotted_quad_re =
    let dot = cls (λ c. c == b'.') in
    let digits = plus (cls is_digit) in
    seq digits (seq dot (seq digits (seq dot (seq digits (seq dot digits)))))

-- `/^[a-z0-9][a-z0-9.-]*[a-z0-9]$/`
pub bucket_name_re : Regex
bucket_name_re = seq (cls lower_or_digit) (seq (star (cls bucket_unit)) (cls lower_or_digit))

pub bucket_name_error : (Text → Text) → Text → Option Text
bucket_name_error to_lower_case value =
    let name = trim value in
    if is_empty name
    then none
    else if not (same name (to_lower_case name))
    then some (text "Bucket names are lowercase only")
    else if has b'_' name
    then some (text "Underscores aren't allowed — use hyphens")
    else if ltb (length name) 3 || ltb 63 (length name)
    then some (text "Must be 3 to 63 characters")
    else if includes (text "..") name
    then some (text "Can't contain two dots in a row")
    else if test dotted_quad_re name
    then some (text "Can't look like an IP address")
    else if not (test bucket_name_re name)
    then some (text "Lowercase letters, digits, dots and hyphens, starting and ending with one")
    else none

-- `extensions.test(name)` is the caller's, and `hint` its wording.
pub filename_error : Text → (Text → Bool) → Text → Option Text
filename_error value extensions hint =
    let name = trim value in
    if is_empty name
    then none
    else if has b'/' name
    then some (text "Just the file name, without any path")
    else if not (extensions name)
    then some (text "Must end in " ++ hint)
    else none
