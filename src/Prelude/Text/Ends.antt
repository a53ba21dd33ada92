-- ===== src/Prelude/Text/Ends.antt =====
-- `startsWith`, `endsWith` and `includes` read off the shape of a text.
use Prim.Native.Nat.{ℕ}
use mathlib.Core.Path.{◌≡◌, refl}
use mathlib.Core.Bool.{true, false, ◌||◌}
use mathlib.Core.List.{[], ◌∷◌, ◌++◌, reverse_aux}
use native.Mathlib.Omega.{arith}
use vantric.Prelude.Tests.{◌==◌}
use vantric.Prelude.Lists.{All}
use vantric.Prelude.Text.{Text, has, starts, ends}

-- The last unit of a text that starts with `c`.
abbrev pub last_of : ℕ → Text → ℕ
last_of c [] = c
last_of c (d ∷ s) = last_of d s

pub last_of-append : (c : ℕ) (u : Text) (d : ℕ) (s : Text) → last_of c (u ++ d ∷ s) ≡ last_of d s
last_of-append c [] d s = refl
last_of-append c (x ∷ u) d s = last_of-append x u d s

starts-reverse_aux :
    (c x : ℕ) (s out : Text) → starts (c ∷ []) (reverse_aux (x ∷ s) out) ≡ (c == last_of x s)
unfolding starts
starts-reverse_aux c x [] out = ground arith
starts-reverse_aux c x (y ∷ s) out = starts-reverse_aux c y s (x ∷ out)

-- Whether a text ends with a unit is told by its last unit.
pub ends_one : (c x : ℕ) (s : Text) → ends (c ∷ []) (x ∷ s) ≡ (c == last_of x s)
unfolding ends
ends_one c x s = starts-reverse_aux c x s []

pub has_of_starts : (c : ℕ) (p s : Text) → starts p s ≡ true → has c p ≡ true → has c s ≡ true
unfolding starts has
has_of_starts c [] s h k = absurd (cc)
has_of_starts c (d ∷ p) [] h k = absurd (cc)
has_of_starts c (d ∷ p) (e ∷ s) h k = ground (arith, has_of_starts c p s)

pub has-append : (c : ℕ) (s t : Text) → has c (s ++ t) ≡ (has c s || has c t)
unfolding has
has-append c [] t = refl
has-append c (d ∷ s) t = ground (arith, has-append c s t)

pub not-has_of_All : (c : ℕ) (s : Text) → All (λ d. (d == c) ≡ false) s → has c s ≡ false
unfolding has
not-has_of_All c [] h = refl
not-has_of_All c (d ∷ s) (hd, h) = ground (arith, not-has_of_All c s h)
