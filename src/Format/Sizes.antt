-- ===== src/Format/Sizes.antt =====
-- How a count of bytes is brought under a unit.
use vantric.Prelude.{
  ℕ, zero, suc, ◌*◌, ◌/◌, ◌^◌, ◌≤◌, ◌<◌, ◌≡◌, refl, ap, sym, subst, ◌∙◌, ◌⊎◌, inl, inr, ◌++◌, ◌==◌,
  leb, leb→le, false, arith, Bool-cases,
}
use Prim.Native.Nat.pow
use vantric.Prelude.Text.{text}
use vantric.Format.{unit_index, unit_name, format_value, format_bytes}

unit_index-step :
    (left bytes : ℕ)
    → 1024 ≤ bytes
    → unit_index (suc left) bytes ≡ suc (unit_index left (bytes / 1024))
unfolding unit_index
unit_index-step left bytes h = ground arith

unit_index-nil : (bytes : ℕ) → unit_index 0 bytes ≡ 0
unfolding unit_index
unit_index-nil bytes = refl

unit_index-stop : (left bytes : ℕ) → bytes < 1024 → unit_index left bytes ≡ 0
unfolding unit_index
unit_index-stop zero bytes h = refl
unit_index-stop (suc left) bytes h = ground arith

pow_suc : (i : ℕ) → 1024 ^ suc i ≡ 1024 * 1024 ^ i
pow_suc i = pow.suc 1024 i ∙ swapped (1024 ^ i)
  where
    swapped : (p : ℕ) → p * 1024 ≡ 1024 * p
    swapped p = omega arith

pow_zero : (i : ℕ) → i ≡ 0 → 1024 ^ i ≡ 1
pow_zero i e = ap (λ n. 1024 ^ n) e ∙ pow.zero 1024

abbrev Fits : ℕ → ℕ → ℕ → Type 0
Fits left bytes i =
    (i ≤ left) × ((i ≡ 0) ⊎ (1024 ^ i ≤ bytes)) × ((i ≡ left) ⊎ (bytes < 1024 * 1024 ^ i))

goes_once :
    (bytes i p : ℕ)
    → 1024 ≤ bytes
    → (i ≡ 0) ⊎ (p ≤ bytes / 1024)
    → (i ≡ 0 → p ≡ 1)
    → 1024 * p ≤ bytes
goes_once bytes i p h (inl e) one = omega (arith, one e)
goes_once bytes i p h (inr k) one = omega arith

below : (bytes p : ℕ) → bytes / 1024 < 1024 * p → bytes < 1024 * (1024 * p)
below bytes p h = omega arith

Fits-step :
    (left bytes i : ℕ) → 1024 ≤ bytes → Fits left (bytes / 1024) i → Fits (suc left) bytes (suc i)
Fits-step left bytes i h (small, low, high) = (
  omega arith,
  inr (rw (pow_suc i) (goes_once bytes i (1024 ^ i) h low (λ e. pow_zero i e))),
  above high,
)
  where
    above :
        (i ≡ left) ⊎ (bytes / 1024 < 1024 * 1024 ^ i)
        → (suc i ≡ suc left) ⊎ (bytes < 1024 * 1024 ^ suc i)
    above (inl e) = inl (ap suc e)
    above (inr k) = inr (rw (pow_suc i) (below bytes (1024 ^ i) k))

unit_index-Fits : (left bytes : ℕ) → Fits left bytes (unit_index left bytes)
unit_index-Fits zero bytes =
    subst (Fits zero bytes) (sym (unit_index-nil bytes)) (omega arith, inl refl, inl refl)
unit_index-Fits (suc left) bytes = elim (Bool-cases (leb 1024 bytes)) [
  | inl e ↦ subst (Fits (suc left) bytes) (sym (unit_index-step left bytes (leb→le _ _ e))) (
      Fits-step left bytes (unit_index left (bytes / 1024)) (leb→le _ _ e)
        (unit_index-Fits left (bytes / 1024)))
  | inr e ↦
      subst (Fits (suc left) bytes) (sym (unit_index-stop (suc left) bytes (ground arith)))
        (omega arith, inl refl, inr (ground (arith, pow_zero 0 refl)))
]

-- A count of bytes that is not 0 is shown in a unit that fits it: the unit goes at least once into the
-- count, unless it is the byte, and less than 1,024 times, unless it is the terabyte.
pub format_bytes-Fits :
    (bytes : ℕ)
    → 0 < bytes
    → (i : ℕ) × (format_bytes bytes ≡ format_value bytes (1024 ^ i) ++ (text " " ++ unit_name i))
      × (i ≤ 4)
      × ((i ≡ 0) ⊎ (1024 ^ i ≤ bytes))
      × ((i ≡ 4) ⊎ (bytes < 1024 * 1024 ^ i))
unfolding format_bytes
format_bytes-Fits bytes h =
    let fits = unit_index-Fits 4 bytes in
    (unit_index 4 bytes, rw (not_zero bytes h) refl, fits.0, fits.1, fits.2)
  where
    not_zero : (n : ℕ) → 0 < n → (n == 0) ≡ false
    not_zero n h = ground arith
