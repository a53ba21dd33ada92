-- ===== src/Recheck/Burst.antt =====
-- A burst of 401s asks once.
use vantric.Prelude.{ℕ, zero, suc, true, false, List, [], ◌∷◌, ◌++◌, ◌≡◌, refl, ◌⊎◌, arith}
use vantric.Recheck.{
  Recheck, at_rest, RecheckEvent, unauthorized, microtask, notify, run_task, recheck_step,
  recheck_run,
}

-- The flag is up exactly while one microtask waits, and never do two.
abbrev pub IsSettled : Recheck → Type 0
IsSettled r = ((r.scheduled ≡ false) × (r.queued ≡ 0)) ⊎ ((r.scheduled ≡ true) × (r.queued ≡ 1))

step-IsSettled : (e : RecheckEvent) (r : Recheck) → IsSettled r → IsSettled (recheck_step e r)
unfolding recheck_step notify run_task
step-IsSettled unauthorized r h = ground arith
step-IsSettled microtask r h = ground arith

-- Whatever the order of 401s and microtasks, at most one check waits at any time, and one waits exactly
-- while the flag is up.
pub recheck_run-IsSettled :
    (events : List RecheckEvent) (r : Recheck) → IsSettled r → IsSettled (recheck_run events r)
unfolding recheck_run
recheck_run-IsSettled [] r h = h
recheck_run-IsSettled (e ∷ events) r h =
    recheck_run-IsSettled events (recheck_step e r) (step-IsSettled e r h)

abbrev pub burst : ℕ → List RecheckEvent
burst zero = []
burst (suc n) = unauthorized ∷ burst n

abbrev waiting : ℕ → Recheck
waiting asked = record { scheduled = true; queued = 1; asked = asked }

burst_waits :
    (n asked : ℕ) → recheck_run (burst n ++ microtask ∷ []) (waiting asked) ≡ at_rest (suc asked)
unfolding recheck_run recheck_step notify run_task
burst_waits zero asked = refl
burst_waits (suc n) asked = burst_waits n asked

-- A burst of one or more 401s asks who is signed in once.
pub recheck_run-burst :
    (n asked : ℕ)
    → recheck_run (burst (suc n) ++ microtask ∷ []) (at_rest asked) ≡ at_rest (suc asked)
unfolding recheck_run recheck_step notify run_task
recheck_run-burst n asked = burst_waits n asked
