-- ===== src/Client/Encode/Safe.antt =====
-- What `encodeURIComponent` leaves in a path: nothing that ends a segment, a value or the path.
use vantric.Prelude.{
  ℕ, ◌+◌, ◌/◌, ◌%◌, ◌<◌, ◌≡◌, refl, Bool, true, false, ◌||◌, Option, none, some, [], ◌∷◌, ◌++◌,
  ◌==◌, if◌then◌else◌, every, every-append, arith,
}
use vantric.Prelude.Text.{Text, has}
use vantric.Client.Encode.{
  hex_digit, percent, utf8_percent, is_unescaped, escape_unit, encode_from, encode_uri_component,
  is_high, is_low, surrogate_pair, put,
}

-- A unit that is left as it is, or the sign of an escape
unfoldable is_inert : ℕ → Bool
is_inert c = is_unescaped c || c == b'%'

hex_digit-inert : (n : ℕ) → n < 16 → is_inert (hex_digit n) ≡ true
unfolding is_inert is_unescaped
hex_digit-inert n h = ground arith

sign-inert : is_inert b'%' ≡ true
unfolding is_inert
sign-inert = ground arith

unescaped-inert : (c : ℕ) → is_unescaped c ≡ true → is_inert c ≡ true
unfolding is_inert
unescaped-inert c h = ground arith

percent-inert : (n : ℕ) → every is_inert (percent n) ≡ true
unfolding percent
percent-inert n = ground (
  arith,
  sign-inert,
  hex_digit-inert (n / 16 % 16) (omega arith),
  hex_digit-inert (n % 16) (omega arith),
)

append-inert :
    (s t : Text)
    → every is_inert s ≡ true
    → every is_inert t ≡ true
    → every is_inert (s ++ t) ≡ true
append-inert s t hs ht = rw (every-append is_inert s t, hs) ht

two_bytes-inert : (a b : ℕ) → every is_inert (percent a ++ percent b) ≡ true
two_bytes-inert a b = append-inert (percent a) (percent b) (percent-inert a) (percent-inert b)

three_bytes-inert : (a b c : ℕ) → every is_inert (percent a ++ percent b ++ percent c) ≡ true
three_bytes-inert a b c =
    append-inert (percent a ++ percent b) (percent c) (two_bytes-inert a b) (percent-inert c)

utf8_percent-inert : (c : ℕ) → every is_inert (utf8_percent c) ≡ true
unfolding utf8_percent
utf8_percent-inert c =
    let last = 0x80 + c % 64 in
    let middle = 0x80 + c / 64 % 64 in
    let head = 0xf0 + c / 262144 in
    let second = 0x80 + c / 4096 % 64 in
    ground (
      arith,
      percent-inert c,
      two_bytes-inert (0xc0 + c / 64) last,
      three_bytes-inert (0xe0 + c / 4096) middle last,
      append-inert (percent head ++ percent second ++ percent middle) (percent last)
          (three_bytes-inert head second middle) (percent-inert last),
    )

escape_unit-inert : (c : ℕ) → every is_inert (escape_unit c) ≡ true
unfolding escape_unit
escape_unit-inert c =
    elim (is_unescaped c)
        as (λ b.
          is_unescaped c ≡ b → every is_inert (if b then c ∷ [] else utf8_percent c) ≡ true) [
            | true ↦ λ e. ground (arith, unescaped-inert c e)
            | false ↦ λ e. utf8_percent-inert c
          ]
      refl

put-inert :
    (s : Text) (o : Option Text) (t : Text)
    → every is_inert s ≡ true
    → ((u : Text) → o ≡ some u → every is_inert u ≡ true)
    → put s o ≡ some t
    → every is_inert t ≡ true
put-inert s none t hs ho h = absurd (cc)
put-inert s (some u) t hs ho h = ground (arith, append-inert s u hs (ho u refl))

encode_from-inert :
    (high : Option ℕ) (s t : Text) → encode_from high s ≡ some t → every is_inert t ≡ true
unfolding encode_from
encode_from-inert none [] t = λ h. ground arith
encode_from-inert (some high) [] t = λ h. absurd (cc)
encode_from-inert none (c ∷ s) t =
    elim (is_high c)
      as (λ b.
        elim b [
          | true ↦ encode_from (some c) s
          | false ↦ elim (is_low c) [
            | true ↦ none
            | false ↦ put (escape_unit c) (encode_from none s)
          ]
        ]
          ≡ some t
        → every is_inert t ≡ true) [
          | true ↦ encode_from-inert (some c) s t
          | false ↦
              elim (is_low c)
                as (λ b.
                  elim b [ true ↦ none | false ↦ put (escape_unit c) (encode_from none s) ] ≡ some t
                  → every is_inert t ≡ true) [
                    | true ↦ λ h. absurd (cc)
                    | false ↦
                        put-inert (escape_unit c) (encode_from none s) t (escape_unit-inert c)
                          (encode_from-inert none s)
                  ]
        ]
encode_from-inert (some high) (c ∷ s) t =
    elim (is_low c)
      as (λ b.
        elim b [
          | true ↦ put (utf8_percent (surrogate_pair high c)) (encode_from none s)
          | false ↦ none
        ]
          ≡ some t
        → every is_inert t ≡ true) [
          | true ↦
              put-inert (utf8_percent (surrogate_pair high c)) (encode_from none s) t
                (utf8_percent-inert (surrogate_pair high c)) (encode_from-inert none s)
          | false ↦ λ h. absurd (cc)
        ]

every-has : (p : ℕ → Bool) (c : ℕ) (s : Text) → every p s ≡ true → p c ≡ false → has c s ≡ false
unfolding has
every-has p c [] h e = refl
every-has p c (d ∷ s) h e = grind (arith, every-has p c s)

delimiter-escaped :
    (c : ℕ)
    → has c (b'/' ∷ b'?' ∷ b'#' ∷ b'&' ∷ b'=' ∷ b'+' ∷ b' ' ∷ []) ≡ true
    → is_inert c ≡ false
unfolding is_inert is_unescaped has
delimiter-escaped c h = ground arith

-- What `encodeURIComponent` makes of a value holds none of the units that end a part of a URL: no
-- slash, question mark, hash, ampersand, equals sign, plus or space.
pub encode_uri_component-inert :
    (s t : Text) (c : ℕ)
    → encode_uri_component s ≡ some t
    → has c (b'/' ∷ b'?' ∷ b'#' ∷ b'&' ∷ b'=' ∷ b'+' ∷ b' ' ∷ []) ≡ true
    → has c t ≡ false
unfolding encode_uri_component
encode_uri_component-inert s t c h e =
    every-has is_inert c t (encode_from-inert none s t h) (delimiter-escaped c e)
