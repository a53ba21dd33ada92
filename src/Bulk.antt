-- ===== src/Bulk.antt =====
-- frontend/src/bulk.ts: one action against several resources, reported as one outcome.
pub mod Report
use vantric.Prelude.{
  ℕ, suc, Bool, Option, none, some, List, [], ◌∷◌, ◌++◌, length, ◌==◌, if◌then◌else◌,
}
use vantric.Prelude.Text.{Text, text, show}

-- `results.filter((r) => r.status === 'rejected')`: a result is none where the call succeeded, and
-- the message of its error where it did not.
unfoldable pub failures : List (Option Text) → List Text
failures [] = []
failures (none ∷ results) = failures results
failures (some reason ∷ results) = reason ∷ failures results

-- The message of the one error, or none
unfoldable pub report : List Text → ℕ → Option Text
unfolding text
report [] names = none
report (reason ∷ more) names =
    if length (reason ∷ more) == names
    then some reason
    else some
        (show (length (reason ∷ more)) ++ text " of " ++ show names ++ text " failed — " ++ reason)

abbrev pub call_all : {A : Type 0} → (A → Option Text) → List A → List (Option Text)
call_all call [] = []
call_all call (name ∷ names) = call name ∷ call_all call names

-- Every name is called, whatever becomes of the others; `call` is the promise of one name.
unfoldable pub settle : List Text → (Text → Option Text) → Option Text
unfolding failures report
settle names call = report (failures (call_all call names)) (length names)
