-- ===== src/Prelude/Text.antt =====
-- Text as the program has it: a list of UTF-16 code units, with the string methods the code calls.
pub mod Decimal
pub mod Trim
pub mod Split
pub mod Ends
use Prim.Native.Nat.{ℕ, zero, suc, ◌+◌, ◌-◌, ◌*◌, ◌/◌, ◌%◌, ◌≤◌, ◌<◌}
use Prim.Native.Char.{code}
use Prim.Native.String.{String}
use mathlib.Core.Path.{◌≡◌, refl}
use mathlib.Core.Bool.{Bool, true, false, not, ◌&&◌, ◌||◌}
use mathlib.Core.Logic.{◌↔◌, ◌⊎◌, inl, inr}
use mathlib.Core.List.{List, [], ◌∷◌, ◌++◌, reverse, map}
use mathlib.Core.Option.{Option, none, some}
use native.Mathlib.Omega.{arith}
use vantric.Prelude.Tests.{ltb, leb, ◌==◌, if◌then◌else◌, ==_iff, and_iff, or_iff}
use vantric.Prelude.Lists.{length, take, drop}

abbrev pub Text : Type 0
Text = List ℕ

-- The code units of a literal (no literal of the source lies above U+FFFF).
unfoldable pub text : String → Text
text String.[] = []
text (String.◌∷◌ c s) = code c ∷ text s

-- `a === b`
unfoldable pub same : Text → Text → Bool
same [] [] = true
same (x ∷ xs) (y ∷ ys) = x == y && same xs ys
same _ _ = false

pub same_sound : (a b : Text) → same a b ≡ true → a ≡ b
unfolding same
same_sound [] [] h = refl
same_sound (x ∷ xs) (y ∷ ys) h = ground (arith, same_sound xs ys)
same_sound [] (y ∷ ys) h = cc
same_sound (x ∷ xs) [] h = cc

pub same_refl : (a : Text) → same a a ≡ true
unfolding same
same_refl [] = refl
same_refl (x ∷ xs) = ground (arith, same_refl xs)

pub same_iff : (a b : Text) → (same a b ≡ true) ↔ (a ≡ b)
same_iff a b = (same_sound a b, λ e. rw e (same_refl b))

-- `texts.includes(s)`, and what it means
unfoldable pub among : Text → List Text → Bool
unfolding same
among s [] = false
among s (t ∷ ts) = same s t || among s ts

abbrev pub Among : Text → List Text → Type 0
Among s [] = ⊥
Among s (t ∷ ts) = (s ≡ t) ⊎ Among s ts

pub among_sound : (s : Text) (ts : List Text) → among s ts ≡ true → Among s ts
unfolding among
among_sound s [] h = absurd (cc)
among_sound s (t ∷ ts) h = elim ((or_iff _ _).0 h) [
  | inl e ↦ inl ((same_iff s t).0 e)
  | inr e ↦ inr (among_sound s ts e)
]

pub among_complete : (s : Text) (ts : List Text) → Among s ts → among s ts ≡ true
unfolding among
among_complete s [] h = absurd h
among_complete s (t ∷ ts) (inl e) = (or_iff _ _).1 (inl ((same_iff s t).1 e))
among_complete s (t ∷ ts) (inr e) = (or_iff _ _).1 (inr (among_complete s ts e))

pub among_iff : (s : Text) (ts : List Text) → (among s ts ≡ true) ↔ Among s ts
among_iff s ts = (among_sound s ts, among_complete s ts)

-- `!s`
abbrev pub is_empty : Text → Bool
is_empty [] = true
is_empty (_ ∷ _) = false

pub is_empty_iff : (s : Text) → (is_empty s ≡ true) ↔ (s ≡ [])
is_empty_iff [] = (λ _. refl, λ _. refl)
is_empty_iff (c ∷ s) = (λ h. absurd (cc), λ h. absurd (cc))

-- The white space of `\s` and of `trim`.
unfoldable pub is_space : ℕ → Bool
is_space c =
    (leb 9 c && leb c 13)
    || c == 32
    || c == 160
    || c == 0x1680
    || (leb 0x2000 c && leb c 0x200a)
    || c == 0x2028
    || c == 0x2029
    || c == 0x202f
    || c == 0x205f
    || c == 0x3000
    || c == 0xfeff

unfoldable pub trim_start : Text → Text
trim_start [] = []
trim_start (c ∷ s) = if is_space c then trim_start s else c ∷ s

-- `s.trim()`
unfoldable pub trim : Text → Text
unfolding trim_start is_space
trim s = reverse (trim_start (reverse (trim_start s)))

-- `s.includes(c)` for one code unit
unfoldable pub has : ℕ → Text → Bool
has c [] = false
has c (d ∷ s) = d == c || has c s

-- `s.startsWith(p)`
unfoldable pub starts : Text → Text → Bool
starts [] s = true
starts (c ∷ p) [] = false
starts (c ∷ p) (d ∷ s) = c == d && starts p s

-- `s.endsWith(p)`
unfoldable pub ends : Text → Text → Bool
unfolding starts
ends p s = starts (reverse p) (reverse s)

-- `s.includes(p)`
unfoldable pub includes : Text → Text → Bool
unfolding starts
includes p [] = starts p []
includes p (c ∷ s) = starts p (c ∷ s) || includes p s

-- `s.split(c)` for one code unit: `cur` is the part so far
unfoldable pub split_from : ℕ → Text → Text → List Text
split_from c cur [] = cur ∷ []
split_from c cur (d ∷ s) = elim (d == c) [
  | true ↦ cur ∷ split_from c [] s
  | false ↦ split_from c (cur ++ d ∷ []) s
]

unfoldable pub split : ℕ → Text → List Text
unfolding split_from
split c s = split_from c [] s

-- `parts.join(sep)`
unfoldable pub join : Text → List Text → Text
join sep [] = []
join sep (p ∷ []) = p
join sep (p ∷ q ∷ ps) = p ++ (sep ++ join sep (q ∷ ps))

-- `s.slice(0, -n)` for a positive `n`
unfoldable pub without_last : ℕ → Text → Text
without_last n s = take (length s - n) s

abbrev pub is_digit : ℕ → Bool
is_digit c = leb b'0' c && leb c b'9'

abbrev pub is_lower : ℕ → Bool
is_lower c = leb b'a' c && leb c b'z'

abbrev pub is_upper : ℕ → Bool
is_upper c = leb b'A' c && leb c b'Z'

-- Lower case on ASCII: what `toLowerCase` does to a code unit below 128.
unfoldable pub lower_ascii : Text → Text
lower_ascii [] = []
lower_ascii (c ∷ s) = (if is_upper c then c + 32 else c) ∷ lower_ascii s

-- `Number(s)` for a string of decimal digits
unfoldable pub number_from : ℕ → Text → ℕ
number_from n [] = n
number_from n (c ∷ s) = number_from (n * 10 + (c - b'0')) s

unfoldable pub number : Text → ℕ
unfolding number_from
number s = number_from 0 s

-- `String(n)` for a natural number. A round divides by ten, so `n` rounds are enough.
unfoldable pub show_from : ℕ → ℕ → Text → Text
show_from zero n out = (b'0' + n % 10) ∷ out
show_from (suc fuel) n out =
    let rest = show_from fuel (n / 10) ((b'0' + n % 10) ∷ out) in
    if ltb n 10 then (b'0' + n) ∷ out else rest

unfoldable pub show : ℕ → Text
unfolding show_from
show n = show_from n n []
