-- ===== src/Validation/Numbers/Accepts.antt =====
-- Which numbers the validators of frontend/src/validation.ts let through.
use vantric.Prelude.{
  ℕ, suc, ◌+◌, ◌≤◌, ◌<◌, true, none, [], ◌∷◌, ◌≡◌, ◌≢◌, refl, ◌↔◌, ◌⊎◌, inl, inr, arith, ◌==◌,
  length, Bool-cases,
}
use vantric.Prelude.Text.{Text, is_empty_iff, is_digit, trim, number, show}
use vantric.Prelude.Text.Decimal.{AllDigits, show-AllDigits, show-ne-nil, length-show, number-show}
use vantric.Prelude.Text.Trim.{trim-show}
use vantric.Regex.{test, up_to, cls}
use vantric.Regex.Lang.{test_iff}
use vantric.Regex.Classes.{cls-seq_iff, not-cls-seq_nil, up_to_iff}
use vantric.Validation.Numbers.{
  Number, nan, whole, above, is_falsy, port_error, ttl_error, digits_re, vlan_id_error,
}

-- A port passes exactly if the field is empty (0 or NaN) or it is an integer from 1 to 65535.
pub port_error-eq-none_iff :
    (value : Number)
    → (port_error value ≡ none)
      ↔ ((is_falsy value ≡ true) ⊎ ((n : ℕ) × (value ≡ whole n) × (1 ≤ n) × (n ≤ 65535)))
unfolding port_error
port_error-eq-none_iff nan = (λ _. inl refl, λ _. refl)
port_error-eq-none_iff (whole n) = (
  λ h. elim (Bool-cases (n == 0)) [
    | inl z ↦ inl z
    | inr nz ↦ inr (n, refl, ground arith, ground arith)
  ],
  λ h. elim h [ inl z ↦ ground arith | inr (m, e, low, high) ↦ ground arith ],
)
port_error-eq-none_iff _ =
    (λ h. absurd (cc), λ h. elim h [ inl z ↦ absurd (cc) | inr (n, e, low, high) ↦ absurd (cc) ])

-- The range of TTLs that are let through, fractions included: at least 60 and at most 86400.
abbrev pub InTtlRange : Number → Type 0
InTtlRange (whole n) = (60 ≤ n) × (n ≤ 86400)
InTtlRange (above n) = (60 ≤ n) × (n < 86400)
InTtlRange _ = ⊥

pub ttl_error-eq-none_iff :
    (seconds : Number)
    → (ttl_error seconds ≡ none) ↔ ((is_falsy seconds ≡ true) ⊎ InTtlRange seconds)
unfolding ttl_error
ttl_error-eq-none_iff nan = (λ _. inl refl, λ _. refl)
ttl_error-eq-none_iff (whole n) = ground arith
ttl_error-eq-none_iff (above n) = ground arith
ttl_error-eq-none_iff _ = (λ h. absurd (cc), λ h. elim h [ inl z ↦ absurd (cc) | inr e ↦ absurd e ])

pub digits_re_iff :
    (n : ℕ) (s : Text)
    → (test (digits_re n) s ≡ true) ↔ ((s ≢ []) × AllDigits s × (length s ≤ n + 1))
unfolding digits_re
digits_re_iff n [] = (
  λ h. absurd (not-cls-seq_nil is_digit (up_to n (cls is_digit)) ((test_iff _ []).0 h)),
  λ h. absurd (h.0 refl),
)
digits_re_iff n (c ∷ s) = (sound, complete)
  where
    sound :
        test (digits_re n) (c ∷ s) ≡ true
        → (c ∷ s ≢ []) × AllDigits (c ∷ s) × (suc (length s) ≤ n + 1)
    sound h =
        let (hc, rest) =
          (cls-seq_iff is_digit (up_to n (cls is_digit)) c s).0 ((test_iff _ (c ∷ s)).0 h) in
        let (all, short) = (up_to_iff n is_digit s).0 rest in ((λ e. cc), (hc, all), omega arith)

    complete :
        (c ∷ s ≢ []) × AllDigits (c ∷ s) × (suc (length s) ≤ n + 1)
        → test (digits_re n) (c ∷ s) ≡ true
    complete (_, (hc, all), short) = (test_iff _ (c ∷ s)).1 (
        (cls-seq_iff is_digit (up_to n (cls is_digit)) c s).1
          (hc, (up_to_iff n is_digit s).1 (all, omega arith)))

-- A VLAN ID passes exactly if, trimmed, it is empty or one to four decimal digits whose value lies
-- between 1 and 4094.
pub vlan_id_error-eq-none_iff :
    (value : Text)
    → (vlan_id_error value ≡ none) ↔ (
        (trim value ≡ [])
        ⊎ ((trim value ≢ [])
            × AllDigits (trim value)
            × (length (trim value) ≤ 4)
            × (1 ≤ number (trim value))
            × (number (trim value) ≤ 4094)))
unfolding vlan_id_error
vlan_id_error-eq-none_iff value =
    ground (arith, is_empty_iff (trim value), digits_re_iff 3 (trim value))

-- Every ID of the 802.1Q tag that is not reserved can be typed in as printed.
pub vlan_id_error-show : (n : ℕ) → (vlan_id_error (show n) ≡ none) ↔ ((1 ≤ n) × (n ≤ 4094))
vlan_id_error-show n =
    let shape = rw (trim-show n) at (vlan_id_error-eq-none_iff (show n)) in
    (
      λ h. elim (shape.0 h) [
        | inl nothing ↦ absurd (show-ne-nil n nothing)
        | inr (some_digit, all, short, low, high) ↦
            (omega (arith, number-show n), omega (arith, number-show n))
      ],
      λ h. shape.1 (
          inr (
            show-ne-nil n,
            show-AllDigits n,
            length-show 3 n (omega arith),
            omega (arith, number-show n),
            omega (arith, number-show n),
          )),
    )
