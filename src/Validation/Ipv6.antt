-- ===== src/Validation/Ipv6.antt =====
-- IPv6 addresses in frontend/src/validation.ts.
use vantric.Prelude.{
  ℕ, ◌+◌, Bool, true, false, ◌&&◌, ◌||◌, Option, none, some, List, [], ◌∷◌, ◌++◌, ltb, leb, ◌==◌,
  if◌then◌else◌, length, every,
}
use vantric.Prelude.Text.{Text, has, split, is_digit}
use vantric.Regex.{Regex, cls, seq, up_to, test}
use vantric.Validation.Ipv4.{is_ipv4}

-- `value.split('::')`: `cur` is the part so far, and `waiting` says that a colon was read that is
-- not yet known to begin a pair.
pub split_pairs : Bool → Text → Text → List Text
split_pairs false cur [] = cur ∷ []
split_pairs true cur [] = (cur ++ b':' ∷ []) ∷ []
split_pairs false cur (c ∷ s) = split_pairs (c == b':') (if c == b':' then cur else cur ++ c ∷ []) s
split_pairs true cur (c ∷ s) = elim (c == b':') [
  | true ↦ cur ∷ split_pairs false [] s
  | false ↦ split_pairs false (cur ++ b':' ∷ c ∷ []) s
]

-- `halves.flatMap((half) => (half ? half.split(':') : []))`
pub groups_of : List Text → List Text
groups_of [] = []
groups_of ([] ∷ halves) = groups_of halves
groups_of ((c ∷ s) ∷ halves) = split b':' (c ∷ s) ++ groups_of halves

-- `[0-9a-f]`, of either case
abbrev pub hex_digit : ℕ → Bool
hex_digit c = is_digit c || (leb b'a' c && leb c b'f') || (leb b'A' c && leb c b'F')

-- `/^[0-9a-f]{1,4}$/i`
pub hex_group_re : Regex
hex_group_re = seq (cls hex_digit) (up_to 3 (cls hex_digit))

-- The last group, if any, and the groups before it.
pub last_group : List Text → Option (List Text × Text)
last_group [] = none
last_group (g ∷ []) = some ([], g)
last_group (g ∷ h ∷ gs) = elim (last_group (h ∷ gs)) [
  | none ↦ none
  | some (before, last) ↦ some (g ∷ before, last)
]

-- Whether the number of groups fits: fewer than eight where `::` stands for the others.
abbrev pub count_fits : List Text → ℕ → Bool
count_fits halves count = if length halves == 2 then leb count 7 else count == 8

-- `rest` is what is left of the groups, and `extra` the two groups that an IPv4 part stands for.
pub rest_fits : List Text → List Text → ℕ → Bool
unfolding hex_group_re
rest_fits halves rest extra =
    every (test hex_group_re) rest && count_fits halves (length rest + extra)

pub is_ipv6 : Text → Bool
unfolding split_pairs groups_of last_group rest_fits
is_ipv6 value =
    let halves = split_pairs false [] value in
    let groups = groups_of halves in
    if ltb 2 (length halves) then false else elim (last_group groups) [
      | none ↦ rest_fits halves groups 0
      | some (before, last) ↦
          if has b'.' last
          then is_ipv4 last && rest_fits halves before 2
          else rest_fits halves groups 0
    ]
