-- ===== src/Bulk/Report.antt =====
-- What the outcome of several calls says.
use vantric.Prelude.{ℕ, Option, none, some, List, [], ◌∷◌, length, ◌≡◌, refl, ◌↔◌, arith, All}
use vantric.Prelude.Text.{Text}
use vantric.Bulk.{failures, report, call_all, settle}

failures-nil_iff :
    (call : Text → Option Text) (names : List Text)
    → (failures (call_all call names) ≡ []) ↔ All (λ name. call name ≡ none) names
unfolding failures
failures-nil_iff call [] = (λ _. tt, λ _. refl)
failures-nil_iff call (name ∷ names) =
    elim (call name)
      as (λ o.
        (failures (o ∷ call_all call names) ≡ []) ↔ ((o ≡ none) × All (λ n. call n ≡ none) names)) [
          | none ↦ (
            λ h. (refl, (failures-nil_iff call names).0 h),
            λ (_, h). (failures-nil_iff call names).1 h,
          )
          | some reason ↦ (λ h. absurd (cc), λ (e, _). absurd (cc))
        ]

report-none_iff : (fs : List Text) (n : ℕ) → (report fs n ≡ none) ↔ (fs ≡ [])
unfolding report
report-none_iff [] n = (λ _. refl, λ _. refl)
report-none_iff (f ∷ fs) n = ground arith

-- The outcome is a success exactly if every call succeeded.
pub settle-none_iff :
    (names : List Text) (call : Text → Option Text)
    → (settle names call ≡ none) ↔ All (λ name. call name ≡ none) names
unfolding settle
settle-none_iff names call =
    let nothing = report-none_iff (failures (call_all call names)) (length names) in
    let all = failures-nil_iff call names in (λ h. all.0 (nothing.0 h), λ h. nothing.1 (all.1 h))
