-- ===== src/Validation/Names/Accepts.antt =====
-- Which names the validators of frontend/src/validation.ts let through.
use vantric.Prelude.{
  ◌≤◌, true, false, none, [], ◌∷◌, ◌≡◌, refl, ◌↔◌, ◌⊎◌, inl, inr, arith, length, Bool-cases,
  All-imp,
}
use vantric.Prelude.Text.{Text, text, same_iff, has, includes, is_empty_iff, is_lower, trim}
use vantric.Prelude.Text.Trim.{NoSpace, trim_of_NoSpace, not-space_of_ascii}
use vantric.Regex.{opt, test, cls, star, seq}
use vantric.Regex.Lang.{test_iff}
use vantric.Regex.Classes.{
  IsLabel, Only, label_iff, bounded_label_iff, cls-seq_iff, not-cls-seq_nil, star_iff,
}
use vantric.Validation.Names.{
  lower_or_digit, alphanumeric, resource_unit, resource_name_re, resource_name_error, instance_unit,
  instance_name_re, instance_name_error, identifier_start, identifier_unit, identifier_start_test,
  identifier_re, identifier_error, bucket_unit, bucket_name_re, bucket_name_error, dotted_quad_re,
}

resource_name_re_iff :
    (s : Text)
    → (test resource_name_re s ≡ true)
      ↔ (IsLabel is_lower resource_unit lower_or_digit s × (length s ≤ 63))
unfolding resource_name_re
resource_name_re_iff s =
    let lang =
      bounded_label_iff is_lower resource_unit lower_or_digit (λ c h. ground arith)
        (λ c h. ground arith) 61 s in
    (λ h. lang.0 ((test_iff _ s).0 h), λ h. (test_iff _ s).1 (lang.1 h))

-- A resource name passes exactly if it is empty, or a lower-case letter followed by lower-case
-- letters, digits and hyphens of which the last is no hyphen, 63 code units in all at most.
pub resource_name_error-eq-none_iff :
    (to_lower_case : Text → Text) (value : Text)
    → (resource_name_error to_lower_case value ≡ none)
      ↔ ((value ≡ []) ⊎ (IsLabel is_lower resource_unit lower_or_digit value × (length value ≤ 63)))
unfolding resource_name_error
resource_name_error-eq-none_iff low [] = (λ _. inl refl, λ _. refl)
resource_name_error-eq-none_iff low (c ∷ s) = elim (Bool-cases (test resource_name_re (c ∷ s))) [
  | inl good ↦ rw good (λ _. inr ((resource_name_re_iff (c ∷ s)).0 good), λ _. refl)
  | inr bad ↦ rw bad (
    λ h. absurd (cc),
    λ h. elim h [ inl e ↦ cc | inr e ↦ let good = (resource_name_re_iff (c ∷ s)).1 e in cc ],
  )
]

instance_name_re_iff :
    (s : Text)
    → (test instance_name_re s ≡ true) ↔ IsLabel alphanumeric instance_unit alphanumeric s
unfolding instance_name_re
instance_name_re_iff s =
    let lang =
      label_iff alphanumeric instance_unit alphanumeric (λ c h. h) (λ c h. ground arith) s in
    (λ h. lang.0 ((test_iff _ s).0 h), λ h. (test_iff _ s).1 (lang.1 h))

-- An instance name passes exactly if, trimmed, it is empty or a DNS label of either case: letters,
-- digits and hyphens, no hyphen at either end, 63 code units at most.
pub instance_name_error-eq-none_iff :
    (value : Text)
    → (instance_name_error value ≡ none) ↔ (
        (trim value ≡ [])
        ⊎ (IsLabel alphanumeric instance_unit alphanumeric (trim value)
            × (length (trim value) ≤ 63)))
unfolding instance_name_error
instance_name_error-eq-none_iff value =
    ground (arith, is_empty_iff (trim value), instance_name_re_iff (trim value))

identifier_re_iff :
    (s : Text)
    → (test identifier_re s ≡ true) ↔ ((identifier_start_test s ≡ true) × Only identifier_unit s)
unfolding identifier_re identifier_start_test
identifier_re_iff [] = (
  λ h. absurd (not-cls-seq_nil identifier_start (star (cls identifier_unit)) ((test_iff _ []).0 h)),
  λ h. absurd (cc),
)
identifier_re_iff (c ∷ s) =
    let shape = cls-seq_iff identifier_start (star (cls identifier_unit)) c s in
    let later = star_iff identifier_unit s in
    (
      λ h.
          let (hc, rest) = shape.0 ((test_iff _ (c ∷ s)).0 h) in (hc, (ground arith, later.0 rest)),
      λ h. (test_iff _ (c ∷ s)).1 (shape.1 (h.0, later.1 h.1.1)),
    )

-- A database identifier passes exactly if, trimmed, it is empty, or starts with a letter or an
-- underscore, holds only letters, digits, `_`, `$` and `-`, and has at most 63 code units.
pub identifier_error-eq-none_iff :
    (value : Text)
    → (identifier_error value ≡ none) ↔ (
        (trim value ≡ [])
        ⊎ ((identifier_start_test (trim value) ≡ true)
            × Only identifier_unit (trim value)
            × (length (trim value) ≤ 63)))
unfolding identifier_error
identifier_error-eq-none_iff value =
    ground (arith, is_empty_iff (trim value), identifier_re_iff (trim value))

bucket_name_re_iff :
    (s : Text)
    → 2 ≤ length s
    → (test bucket_name_re s ≡ true) ↔ IsLabel lower_or_digit bucket_unit lower_or_digit s
unfolding bucket_name_re
bucket_name_re_iff [] h = absurd (omega arith)
bucket_name_re_iff (c ∷ []) h = absurd (omega arith)
bucket_name_re_iff (c ∷ d ∷ s) h =
    let tail = seq (star (cls bucket_unit)) (cls lower_or_digit) in
    let lang =
      label_iff lower_or_digit bucket_unit lower_or_digit (λ c h. h) (λ c h. ground arith)
        (c ∷ d ∷ s) in
    let with_opt = cls-seq_iff lower_or_digit (opt tail) c (d ∷ s) in
    let shape = cls-seq_iff lower_or_digit tail c (d ∷ s) in
    (
      λ t.
          let (hc, rest) = shape.0 ((test_iff _ (c ∷ d ∷ s)).0 t) in
          lang.0 (with_opt.1 (hc, inl rest)),
      λ t.
          let (hc, rest) = with_opt.0 (lang.1 t) in
          (test_iff _ (c ∷ d ∷ s)).1
            (shape.1 (hc, elim rest [ inl r ↦ r | inr nothing ↦ absurd (cc) ])),
    )

Only-no_underscore : (s : Text) → Only bucket_unit s → has b'_' s ≡ false
unfolding has
Only-no_underscore [] h = refl
Only-no_underscore (c ∷ s) (h, hs) = ground (arith, Only-no_underscore s hs)

IsLabel-no_underscore :
    (s : Text) → IsLabel lower_or_digit bucket_unit lower_or_digit s → has b'_' s ≡ false
unfolding has
IsLabel-no_underscore [] h = absurd h
IsLabel-no_underscore (c ∷ s) (hc, hs, last) = ground (arith, Only-no_underscore s hs)

-- A bucket name passes exactly if, trimmed, it is empty, or is its own lower case, has 3 to 63 code
-- units, no two dots in a row, not the shape of an IPv4 address, and lower-case letters, digits,
-- dots and hyphens with a letter or a digit at either end.
pub bucket_name_error-eq-none_iff :
    (to_lower_case : Text → Text) (value : Text)
    → (bucket_name_error to_lower_case value ≡ none) ↔ (
        (trim value ≡ [])
        ⊎ ((trim value ≡ to_lower_case (trim value))
            × (3 ≤ length (trim value))
            × (length (trim value) ≤ 63)
            × (includes (text "..") (trim value) ≡ false)
            × (test dotted_quad_re (trim value) ≡ false)
            × IsLabel lower_or_digit bucket_unit lower_or_digit (trim value)))
unfolding bucket_name_error
bucket_name_error-eq-none_iff low value = ground (
  arith,
  is_empty_iff (trim value),
  same_iff (trim value) (low (trim value)),
  bucket_name_re_iff (trim value),
  IsLabel-no_underscore (trim value),
)

IsLabel-NoSpace : (s : Text) → IsLabel is_lower resource_unit lower_or_digit s → NoSpace s
IsLabel-NoSpace [] h = absurd h
IsLabel-NoSpace (c ∷ s) (hc, hs, last) = (
  not-space_of_ascii c (ground arith) (ground arith),
  All-imp s (λ d h. not-space_of_ascii d (ground arith) (ground arith)) hs,
)

IsLabel-weaken :
    (s : Text)
    → IsLabel is_lower resource_unit lower_or_digit s
    → IsLabel alphanumeric instance_unit alphanumeric s
IsLabel-weaken [] h = h
IsLabel-weaken (c ∷ s) (hc, hs, last) =
    (ground arith, All-imp s (λ d h. ground arith) hs, ground arith)

-- What passes as a resource name passes as an instance name too.
pub resource_name-instance_name :
    (to_lower_case : Text → Text) (value : Text)
    → resource_name_error to_lower_case value ≡ none
    → instance_name_error value ≡ none
resource_name-instance_name low value h =
    (instance_name_error-eq-none_iff value).1
      (elim ((resource_name_error-eq-none_iff low value).0 h) [
        | inl e ↦ inl (rw (trim_of_NoSpace value (rw e tt)) e)
        | inr (ok, short) ↦
            inr (
              rw (trim_of_NoSpace value (IsLabel-NoSpace value ok))
                (IsLabel-weaken value ok, short))
      ])
