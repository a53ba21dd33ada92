-- ===== src/Prelude/Pattern.antt =====
-- Regular expressions with captures and word boundaries, matched anywhere in a text the way the language
-- does: from the first place that matches, the first choice of an alternative first, a repetition as
-- long as it can be, and both given up one by one where what follows fails.
use Prim.Native.Nat.{ℕ, ◌-◌}
use mathlib.Core.Bool.{Bool, true, false, not, ◌&&◌, ◌||◌}
use mathlib.Core.Option.{Option, none, some}
use mathlib.Core.List.{[], ◌∷◌}
use vantric.Prelude.Tests.{◌==◌, if◌then◌else◌}
use vantric.Prelude.Lists.{length, take}
use vantric.Prelude.Text.{Text, is_digit, is_lower, is_upper}

pub data Pattern : Type 0 where
  empty boundary : Pattern
  -- one unit of a class, and as many as there are, one at least
  unit many : (ℕ → Bool) → Pattern
  seq alt : Pattern → Pattern → Pattern
  -- the first and the second group
  group₁ group₂ : Pattern → Pattern

-- Where the matcher stands: the unit before, what follows, and the groups so far.
pub record Place : Type 0 where
  pub before : Option ℕ
  pub rest : Text
  pub first : Option Text
  pub second : Option Text

abbrev pub is_word : ℕ → Bool
is_word c = is_digit c || is_lower c || is_upper c || c == b'_'

abbrev word_before : Option ℕ → Bool
word_before none = false
word_before (some c) = is_word c

abbrev word_after : Text → Bool
word_after [] = false
word_after (c ∷ s) = is_word c

abbrev at_boundary : Place → Bool
at_boundary p = elim (word_before p.before) [
  | true ↦ not (word_after p.rest)
  | false ↦ word_after p.rest
]

abbrev moved_on : Place → ℕ → Text → Place
moved_on p c s = record p { before = some c; rest = s }

abbrev or_try : {A : Type 0} → Option A → Option A → Option A
or_try none other = other
or_try (some a) other = some a

abbrev consumed : Text → Text → Text
consumed start end = take (length start - length end) start

abbrev take_unit : (ℕ → Bool) → (Place → Option Place) → Place → Text → Option Place
take_unit f k p [] = none
take_unit f k p (c ∷ s) = if f c then k (moved_on p c s) else none

-- One unit is taken already.
unfoldable pub take_more : (ℕ → Bool) → (Place → Option Place) → Place → Text → Option Place
take_more f k p [] = k p
take_more f k p (c ∷ s) =
    let more = take_more f k (moved_on p c s) s in if f c then or_try more (k p) else k p

abbrev take_many : (ℕ → Bool) → (Place → Option Place) → Place → Text → Option Place
take_many f k p [] = none
take_many f k p (c ∷ s) = if f c then take_more f k (moved_on p c s) s else none

-- `k` is what has to match afterwards.
unfoldable pub exec_at : Pattern → (Place → Option Place) → Place → Option Place
unfolding take_more
exec_at empty k p = k p
exec_at boundary k p = if at_boundary p then k p else none
exec_at (unit f) k p = take_unit f k p p.rest
exec_at (many f) k p = take_many f k p p.rest
exec_at (seq a b) k p = exec_at a (exec_at b k) p
exec_at (alt a b) k p = or_try (exec_at a k p) (exec_at b k p)
exec_at (group₁ a) k p = exec_at a (λ q. k (record q { first = some (consumed p.rest q.rest) })) p
exec_at (group₂ a) k p = exec_at a (λ q. k (record q { second = some (consumed p.rest q.rest) })) p

abbrev start_at : Option ℕ → Text → Place
start_at before s = record { before = before; rest = s; first = none; second = none }

unfoldable pub search_from : Pattern → Option ℕ → Text → Option Place
unfolding exec_at
search_from r before [] = exec_at r some (start_at before [])
search_from r before (c ∷ s) =
    or_try (exec_at r some (start_at before (c ∷ s))) (search_from r (some c) s)

-- `s.match(r)`, less the text of the whole match
unfoldable pub search_in : Pattern → Text → Option Place
unfolding search_from
search_in r s = search_from r none s

abbrev pub maybe : Pattern → Pattern
maybe r = alt r empty

abbrev same_letter : ℕ → ℕ → Bool
same_letter c d = c == d || (is_lower c && d == c - 32)

-- A word in either case; it is written in lower case.
abbrev pub word : Text → Pattern
word [] = empty
word (c ∷ s) = seq (unit (same_letter c)) (word s)
