-- ===== src/Prelude/Text/Trim.antt =====
-- Text that `trim` leaves alone.
use Prim.Native.Nat.{ℕ, ◌≤◌}
use mathlib.Core.Path.{◌≡◌, refl}
use mathlib.Core.Bool.{false}
use mathlib.Core.List.{[], ◌∷◌, reverse, reverse-reverse}
use native.Mathlib.Omega.{arith}
use vantric.Prelude.Lists.{All, All-reverse, All-imp}
use vantric.Prelude.Text.{Text, is_space, trim_start, trim, show}
use vantric.Prelude.Text.Decimal.{show-AllDigits}

abbrev pub NoSpace : Text → Type 0
NoSpace = All (λ c. is_space c ≡ false)

trim_start_of_NoSpace : (s : Text) → NoSpace s → trim_start s ≡ s
unfolding trim_start
trim_start_of_NoSpace [] h = refl
trim_start_of_NoSpace (c ∷ s) (h, hs) = rw h

pub trim_of_NoSpace : (s : Text) → NoSpace s → trim s ≡ s
unfolding trim
trim_of_NoSpace s h =
    rw (trim_start_of_NoSpace s h, trim_start_of_NoSpace (reverse s) (All-reverse _ s h))
      (reverse-reverse s)

-- A unit of printable ASCII is no white space.
pub not-space_of_ascii : (c : ℕ) → 33 ≤ c → c ≤ 126 → is_space c ≡ false
unfolding is_space
not-space_of_ascii c h k = ground arith

pub trim-show : (n : ℕ) → trim (show n) ≡ show n
trim-show n = trim_of_NoSpace (show n) (
    All-imp (show n) (λ c h. not-space_of_ascii c (ground arith) (ground arith)) (show-AllDigits n))
