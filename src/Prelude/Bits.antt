-- ===== src/Prelude/Bits.antt =====
-- The bitwise "and" with a mask whose low bits are clear.
use Prim.Native.Nat.{
  ℕ, zero, suc, ◌+◌, ◌-◌, ◌*◌, ◌/◌, ◌%◌, ◌^◌, ◌≤◌, ◌<◌, min, bit_and, digits, bit_and-bitwise,
}
use mathlib.Core.Path.{◌≡◌, refl, ◌∙◌}
use mathlib.Core.Logic.{inl, inr}
use vantric.Prelude.Tests.{◌==◌, ==_iff, and_iff, Bool-cases}
use mathlib.Core.Bool.{Bool, true, ◌&&◌}
use native.Mathlib.Omega.{arith}
use native.Mathlib.Nat.{pow-suc, le_refl, div-div-eq-div-mul}

-- A test that holds of every number up to a bound
unfoldable pub checked : (ℕ → Bool) → ℕ → Bool
checked test zero = test zero
checked test (suc bound) = checked test bound && test (suc bound)

pub checked_sound :
    (test : ℕ → Bool) (bound k : ℕ) → k ≤ bound → checked test bound ≡ true → test k ≡ true
unfolding checked
checked_sound test zero k small all = let e : k ≡ 0 = omega arith in rw e all
checked_sound test (suc bound) k small all = elim (Bool-cases (k == suc bound)) [
  | inl last ↦ let e = (==_iff k (suc bound)).0 last in rw e ((and_iff _ _).0 all).1
  | inr before ↦ checked_sound test bound k (ground arith) ((and_iff _ _).0 all).0
]

-- The digits that two numbers share, as the native operation is defined, with fuel to spare
abbrev shared : ℕ → ℕ → ℕ → ℕ
shared fuel = digits (λ _. zero) min fuel

shared_one_more : (fuel x y : ℕ) → x ≤ fuel → shared (suc fuel) x y ≡ shared fuel x y
shared_one_more (suc fuel) (suc x) y few =
    omega (arith, shared_one_more fuel (suc x / 2) (y / 2) (omega arith))
shared_one_more (suc fuel) zero y few = refl
shared_one_more zero (suc x) y few = omega arith
shared_one_more zero zero y few = refl

shared_spare : (spare fuel x y : ℕ) → x ≤ fuel → shared (fuel + spare) x y ≡ shared fuel x y
shared_spare zero fuel x y few = let e : fuel + 0 ≡ fuel = omega arith in rw e refl
shared_spare (suc spare) fuel x y few =
    let e : fuel + suc spare ≡ suc (fuel + spare) = omega arith in
    rw e (shared_one_more (fuel + spare) x y (omega arith) ∙ shared_spare spare fuel x y few)

bit_and-zero_left : (m : ℕ) → bit_and 0 m ≡ 0
bit_and-zero_left = bit_and-bitwise 0

-- The lowest digit, and those above it
bit_and_step : (a b : ℕ) → bit_and a b ≡ bit_and (a / 2) (b / 2) * 2 + min (a % 2) (b % 2)
bit_and_step zero b = omega (arith, bit_and-zero_left b, bit_and-zero_left (b / 2))
bit_and_step (suc a) b =
    let half = suc a / 2 in
    let e : half + (a - half) ≡ a = omega arith in
    let tail = rw e at (shared_spare (a - half) half half (b / 2) (omega arith)) in
    omega (arith, tail, bit_and-bitwise (suc a) b, bit_and-bitwise half (b / 2))

-- 2 ^ n, and 2 ^ n - 1, by recursion on the exponent
abbrev pub two_pow : ℕ → ℕ
two_pow zero = 1
two_pow (suc n) = 2 * two_pow n

abbrev pub ones : ℕ → ℕ
ones zero = 0
ones (suc n) = 2 * ones n + 1

bit_and-ones : (n x : ℕ) → x < two_pow n → bit_and x (ones n) ≡ x
bit_and-ones zero zero h = bit_and-zero_left 0
bit_and-ones zero (suc x) h = absurd (omega arith)
bit_and-ones (suc n) x h =
    let half : (2 * ones n + 1) / 2 ≡ ones n = omega arith in
    let step = rw half at (bit_and_step x (2 * ones n + 1)) in
    omega (arith, step, bit_and-ones n (x / 2) (omega arith))

-- A mask of `n` ones above `k` zeros clears the low `k` bits.
pub bit_and-mask :
    (k n x : ℕ)
    → x < two_pow k * two_pow n
    → bit_and x (two_pow k * ones n) ≡ two_pow k * (x / two_pow k)
bit_and-mask zero n x h =
    let whole : 1 * ones n ≡ ones n = omega arith in
    rw (whole, bit_and-ones n x (omega arith)) (omega arith)
bit_and-mask (suc k) n x h =
    let even : 2 * two_pow k * ones n / 2 ≡ two_pow k * ones n = omega arith in
    let step = rw even at (bit_and_step x (2 * two_pow k * ones n)) in
    rw (← div-div-eq-div-mul x 2 (two_pow k))
      (omega (arith, step, bit_and-mask k n (x / 2) (omega arith)))

pub pow-two : (n : ℕ) → 2 ^ n ≡ two_pow n
pow-two zero = refl
pow-two (suc n) = omega (arith, pow-suc 2 n, pow-two n)

shared-zero : (fuel x : ℕ) → x ≤ fuel → shared fuel x 0 ≡ 0
shared-zero zero x few = refl
shared-zero (suc fuel) zero few = refl
shared-zero (suc fuel) (suc x) few = omega (arith, shared-zero fuel (suc x / 2) (omega arith))

bit_and-zero_right : (x : ℕ) → bit_and x 0 ≡ 0
bit_and-zero_right x = omega (arith, bit_and-bitwise x 0, shared-zero x x (le_refl x))

bit_and_low_one : (a m : ℕ) → bit_and a (2 * m + 1) ≡ 2 * bit_and (a / 2) m + a % 2
bit_and_low_one a m =
    let half : (2 * m + 1) / 2 ≡ m = omega arith in
    let step = rw half at (bit_and_step a (2 * m + 1)) in omega (arith, step)

bit_and_low_four : (a : ℕ) → bit_and a 15 ≡ a % 16
bit_and_low_four a = omega (
  arith,
  bit_and_low_one a 7,
  bit_and_low_one (a / 2) 3,
  bit_and_low_one (a / 2 / 2) 1,
  bit_and_low_one (a / 2 / 2 / 2) 0,
  bit_and-zero_right (a / 2 / 2 / 2 / 2),
)

-- A mask of eight ones keeps the low byte.
pub bit_and-byte : (a : ℕ) → bit_and a 255 ≡ a % 256
bit_and-byte a = omega (
  arith,
  bit_and_low_one a 127,
  bit_and_low_one (a / 2) 63,
  bit_and_low_one (a / 2 / 2) 31,
  bit_and_low_one (a / 2 / 2 / 2) 15,
  bit_and_low_four (a / 2 / 2 / 2 / 2),
)
