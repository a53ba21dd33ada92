-- ===== src/Retention/Tests.antt =====
-- A platform whose numbers are the whole ones, and a policy read back.
use vantric.Prelude.{
  ℕ, ◌≡◌, ◌≢◌, refl, true, false, ◌&&◌, Option, none, some, [], ◌∷◌, every, ltb, if◌then◌else◌,
  arith, subst, Bool-cases, inl, inr, not, ◌==◌,
}
use vantric.Prelude.Text.{Text, text, among, is_digit, is_space, number, show}
use vantric.Prelude.Text.Decimal.{AllDigits, show-AllDigits, show-ne-nil}
use mathlib.Core.Option.{none-ne-some, some-injective}
use vantric.Retention.{Counts, rules, set_count, parse, expression, positive_count}
use vantric.Retention.ReadBack.{is_plain, keys, parse-expression}

abbrev positive : Text → Option Text
positive x = if every is_digit x && ltb 0 (number x) then some (show (number x)) else none

digit_no_space : (d : ℕ) → is_digit d ≡ true → is_space d ≡ false
unfolding is_space
digit_no_space d h = ground arith

digits-is_plain : (s : Text) → s ≢ [] → AllDigits s → is_plain s ≡ true
digits-is_plain [] some_digit h = absurd (some_digit refl)
digits-is_plain (c ∷ s) some_digit h = marks (c ∷ s) h
  where
    marks :
        (u : Text)
        → AllDigits u
        → every (λ d. not (d == b',') && not (d == b'=') && not (is_space d)) u ≡ true
    marks [] h = refl
    marks (d ∷ u) (hd, h) = ground (arith, marks u h, digit_no_space d hd)

positive-is_plain : (x t : Text) → positive x ≡ some t → is_plain t ≡ true
positive-is_plain x t h = elim (Bool-cases (every is_digit x && ltb 0 (number x))) [
  | inl e ↦
      subst (λ u. is_plain u ≡ true) (some-injective _ _ (rw e at h))
        (digits-is_plain (show (number x)) (show-ne-nil (number x)) (show-AllDigits (number x)))
  | inr e ↦ absurd (none-ne-some t (rw e at h))
]

abbrev fortnight : Counts
fortnight = set_count (text "keep-daily") (text "014") (λ _. none)

parse-expression_example : parse (expression positive fortnight) (text "keep-daily") ≡ (
    if among (text "keep-daily") (keys rules)
    then positive_count positive (fortnight (text "keep-daily"))
    else none)
parse-expression_example = parse-expression positive positive-is_plain fortnight (text "keep-daily")
