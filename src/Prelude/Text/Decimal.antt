-- ===== src/Prelude/Text/Decimal.antt =====
-- Decimal numbers: `show` and `number`.
use Prim.Native.Nat.{ℕ, zero, suc, ◌+◌, ◌*◌, ◌/◌, ◌%◌, ◌≤◌, ◌<◌}
use mathlib.Core.Path.{◌≡◌, ap}
use mathlib.Core.Bool.{true}
use mathlib.Core.Logic.{◌≢◌}
use mathlib.Core.List.{[], ◌∷◌}
use native.Mathlib.Omega.{arith}
use vantric.Prelude.Lists.{All, length}
use vantric.Prelude.Text.{Text, is_digit, number_from, number, show_from, show}

abbrev pub AllDigits : Text → Type 0
AllDigits = All (λ c. is_digit c ≡ true)

show_from-AllDigits : (f n : ℕ) (out : Text) → AllDigits out → AllDigits (show_from f n out)
unfolding show_from
show_from-AllDigits zero n out h = (ground arith, h)
show_from-AllDigits (suc f) n out h =
    ground (arith, show_from-AllDigits f (n / 10) ((b'0' + n % 10) ∷ out))

pub show-AllDigits : (n : ℕ) → AllDigits (show n)
unfolding show
show-AllDigits n = show_from-AllDigits n n [] tt

number_from-show_from :
    (f n : ℕ) (out : Text) → n ≤ f → number_from 0 (show_from f n out) ≡ number_from n out
unfolding number_from show_from
number_from-show_from zero n out h = ap (λ k. number_from k out) (omega arith)
number_from-show_from (suc f) n out h =
    ground (arith, number_from-show_from f (n / 10) ((b'0' + n % 10) ∷ out))

-- Reading a printed number gives it back.
pub number-show : (n : ℕ) → number (show n) ≡ n
unfolding number show number_from
number-show n = number_from-show_from n n [] (omega arith)

-- 10 ^ (k + 1)
abbrev pub ten_pow : ℕ → ℕ
ten_pow zero = 10
ten_pow (suc k) = 10 * ten_pow k

length-show_from :
    (k f n : ℕ) (out : Text)
    → n < ten_pow k
    → n ≤ f
    → length (show_from f n out) ≤ suc k + length out
unfolding show_from
length-show_from k zero n out small enough = omega arith
length-show_from zero (suc f) n out small enough = ground arith
length-show_from (suc k) (suc f) n out small enough =
    ground (arith, length-show_from k f (n / 10) ((b'0' + n % 10) ∷ out))

-- A number below 10 ^ (k + 1) prints with at most k + 1 digits.
pub length-show : (k n : ℕ) → n < ten_pow k → length (show n) ≤ suc k
unfolding show
length-show k n h = omega (arith, length-show_from k n n [] h)

show_from-ne-nil : (f n c : ℕ) (out : Text) → (show_from f n (c ∷ out) ≢ [])
unfolding show_from
show_from-ne-nil zero n c out = λ e. cc
show_from-ne-nil (suc f) n c out =
    ground (arith, show_from-ne-nil f (n / 10) (b'0' + n % 10) (c ∷ out))

pub show-ne-nil : (n : ℕ) → show n ≢ []
unfolding show show_from
show-ne-nil zero = λ e. cc
show-ne-nil (suc n) = ground (arith, show_from-ne-nil n (suc n / 10) (b'0' + suc n % 10) [])
