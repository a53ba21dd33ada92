-- ===== src/Client/Encode.antt =====
-- The encodings of the platform that frontend/src/api/client.ts calls: `encodeURIComponent`, and
-- the form encoding of URLSearchParams.
pub mod Safe
use vantric.Prelude.{
  ℕ, ◌+◌, ◌-◌, ◌*◌, ◌/◌, ◌%◌, Bool, true, false, ◌&&◌, ◌||◌, Option, none, some, [], ◌∷◌, ◌++◌, ltb,
  leb, ◌==◌, if◌then◌else◌,
}
use vantric.Prelude.Text.{Text, has, is_digit, is_lower, is_upper}

abbrev hex_digit : ℕ → ℕ
hex_digit n = if ltb n 10 then b'0' + n else b'A' + (n - 10)

-- `%XX`
unfoldable pub percent : ℕ → Text
percent byte = b'%' ∷ hex_digit (byte / 16 % 16) ∷ hex_digit (byte % 16) ∷ []

-- The UTF-8 bytes of a code point, each as `%XX`
unfoldable pub utf8_percent : ℕ → Text
unfolding percent
utf8_percent c =
    if ltb c 0x80
    then percent c
    else if ltb c 0x800
    then percent (0xc0 + c / 64) ++ percent (0x80 + c % 64)
    else if ltb c 0x10000
    then percent (0xe0 + c / 4096) ++ percent (0x80 + c / 64 % 64) ++ percent (0x80 + c % 64)
    else percent (0xf0 + c / 262144)
      ++ percent (0x80 + c / 4096 % 64)
      ++ percent (0x80 + c / 64 % 64)
      ++ percent (0x80 + c % 64)

abbrev pub is_alphanumeric : ℕ → Bool
is_alphanumeric c = is_digit c || is_lower c || is_upper c

-- The marks that `encodeURIComponent` leaves alone: - _ . ! ~ * ' ( )
abbrev uri_marks : Text
uri_marks = b'-' ∷ b'_' ∷ b'.' ∷ b'!' ∷ b'~' ∷ b'*' ∷ 39 ∷ b'(' ∷ b')' ∷ []

unfoldable pub is_unescaped : ℕ → Bool
unfolding has
is_unescaped c = is_alphanumeric c || has c uri_marks

unfoldable pub is_high : ℕ → Bool
is_high c = leb 0xd800 c && leb c 0xdbff

unfoldable pub is_low : ℕ → Bool
is_low c = leb 0xdc00 c && leb c 0xdfff

unfoldable pub escape_unit : ℕ → Text
unfolding is_unescaped utf8_percent
escape_unit c = if is_unescaped c then c ∷ [] else utf8_percent c

unfoldable pub surrogate_pair : ℕ → ℕ → ℕ
surrogate_pair high low = 0x10000 + (high - 0xd800) * 1024 + (low - 0xdc00)

abbrev put : Text → Option Text → Option Text
put s none = none
put s (some t) = some (s ++ t)

-- `high` is the surrogate that waits for its second half; a surrogate without one throws.
unfoldable pub encode_from : Option ℕ → Text → Option Text
unfolding is_high is_low escape_unit surrogate_pair utf8_percent
encode_from none [] = some []
encode_from (some high) [] = none
encode_from none (c ∷ s) = elim (is_high c) [
  | true ↦ encode_from (some c) s
  | false ↦ elim (is_low c) [ true ↦ none | false ↦ put (escape_unit c) (encode_from none s) ]
]
encode_from (some high) (c ∷ s) = elim (is_low c) [
  | true ↦ put (utf8_percent (surrogate_pair high c)) (encode_from none s)
  | false ↦ none
]

-- `encodeURIComponent(s)`, or none where it throws
unfoldable pub encode_uri_component : Text → Option Text
unfolding encode_from
encode_uri_component s = encode_from none s

-- The marks that the form encoding leaves alone: * - . _
abbrev form_marks : Text
form_marks = b'*' ∷ b'-' ∷ b'.' ∷ b'_' ∷ []

unfoldable pub form_unit : ℕ → Text
unfolding has utf8_percent
form_unit c =
    if is_alphanumeric c || has c form_marks
    then c ∷ []
    else if c == b' '
    then b'+' ∷ []
    else utf8_percent c

-- A lone surrogate becomes U+FFFD, as the platform does when it converts the string.
unfoldable form_from : Option ℕ → Text → Text
unfolding is_high is_low form_unit surrogate_pair utf8_percent
form_from none [] = []
form_from (some high) [] = utf8_percent 0xfffd
form_from none (c ∷ s) = elim (is_high c) [
  | true ↦ form_from (some c) s
  | false ↦ elim (is_low c) [
    | true ↦ utf8_percent 0xfffd ++ form_from none s
    | false ↦ form_unit c ++ form_from none s
  ]
]
form_from (some high) (c ∷ s) = elim (is_low c) [
  | true ↦ utf8_percent (surrogate_pair high c) ++ form_from none s
  | false ↦
      utf8_percent 0xfffd
      ++ elim (is_high c) [ true ↦ form_from (some c) s | false ↦ form_unit c ++ form_from none s ]
]

-- One name or value of a URLSearchParams
unfoldable pub form_encode : Text → Text
unfolding form_from
form_encode s = form_from none s
