-- ===== src/Regex.antt =====
-- The regular expressions of the source, as data, with a matcher that runs: `test r s` is
-- `/^r$/.test(s)`. Character classes are tests on a code unit.
pub mod Lang
pub mod Classes
pub mod Labels
use vantric.Prelude.{ℕ, zero, suc, Bool, true, false, ◌&&◌, ◌||◌, [], ◌∷◌, if◌then◌else◌}
use vantric.Prelude.Text.{Text}

pub data Regex : Type 0 where
  fail eps : Regex
  cls : (ℕ → Bool) → Regex
  seq alt : Regex → Regex → Regex
  star : Regex → Regex

-- `r?`, `r+` and `r{0,n}`
abbrev pub opt : Regex → Regex
opt r = alt r eps

abbrev pub plus : Regex → Regex
plus r = seq r (star r)

abbrev pub up_to : ℕ → Regex → Regex
up_to zero r = eps
up_to (suc n) r = opt (seq r (up_to n r))

-- `[f]([m]*[e])?`, and the same with at most `n` units in the middle.
abbrev pub label : (f m e : ℕ → Bool) → Regex
label f m e = seq (cls f) (opt (seq (star (cls m)) (cls e)))

abbrev pub bounded_label : ℕ → (f m e : ℕ → Bool) → Regex
bounded_label n f m e = seq (cls f) (opt (seq (up_to n (cls m)) (cls e)))

unfoldable pub nullable : Regex → Bool
nullable fail = false
nullable eps = true
nullable (cls p) = false
nullable (seq a b) = nullable a && nullable b
nullable (alt a b) = nullable a || nullable b
nullable (star a) = true

-- What is left to match after the code unit `c`.
unfoldable pub deriv : ℕ → Regex → Regex
deriv c fail = fail
deriv c eps = fail
deriv c (cls p) = if p c then eps else fail
deriv c (seq a b) = alt (seq (deriv c a) b) (seq (if nullable a then eps else fail) (deriv c b))
deriv c (alt a b) = alt (deriv c a) (deriv c b)
deriv c (star a) = seq (deriv c a) (star a)

unfoldable pub test : Regex → Text → Bool
unfolding nullable deriv
test r [] = nullable r
test r (c ∷ s) = test (deriv c r) s
