-- ===== src/Recheck/Tests.antt =====
-- Concrete bursts of 401s.
use vantric.Prelude.{List, [], ◌∷◌, ◌++◌, ◌≡◌, refl, inl}
use vantric.Recheck.{RecheckEvent, unauthorized, microtask, at_rest, recheck_run}
use vantric.Recheck.Burst.{IsSettled, burst, recheck_run-IsSettled, recheck_run-burst}

abbrev noise : List RecheckEvent
noise = unauthorized ∷ unauthorized ∷ microtask ∷ microtask ∷ unauthorized ∷ []

recheck_run-IsSettled_example : IsSettled (recheck_run noise (at_rest 0))
recheck_run-IsSettled_example = recheck_run-IsSettled noise (at_rest 0) (inl (refl, refl))

recheck_run-burst_example : recheck_run (burst 4 ++ microtask ∷ []) (at_rest 2) ≡ at_rest 3
recheck_run-burst_example = recheck_run-burst 3 2
