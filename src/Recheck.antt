-- ===== src/Recheck.antt =====
-- `useSession` of frontend/src/user.ts: how a 401 makes the console ask again who is signed in. Every
-- hook shares the flag, and the browser runs a microtask when what is running has ended.
pub mod Tests
pub mod Burst
use vantric.Prelude.{ℕ, zero, suc, ◌+◌, Bool, true, false, List, [], ◌∷◌, if◌then◌else◌}

pub record Recheck : Type 0 where
  -- `recheckScheduled`
  pub scheduled : Bool
  -- microtasks that wait
  pub queued : ℕ
  -- how often the session query was invalidated
  pub asked : ℕ

abbrev pub at_rest : ℕ → Recheck
at_rest asked = record { scheduled = false; queued = 0; asked = asked }

-- A listener is told; or the browser takes a microtask, where one waits.
pub data RecheckEvent : Type 0 where
  unauthorized microtask : RecheckEvent

unfoldable pub notify : Recheck → Recheck
notify r =
    if r.scheduled then r else record { scheduled = true; queued = suc r.queued; asked = r.asked }

unfoldable pub run_task : Recheck → Recheck
run_task r = elim r.queued [
  | zero ↦ r
  | suc waiting ↦ record { scheduled = false; queued = waiting; asked = suc r.asked }
]

unfoldable pub recheck_step : RecheckEvent → Recheck → Recheck
unfolding notify run_task
recheck_step unauthorized r = notify r
recheck_step microtask r = run_task r

unfoldable pub recheck_run : List RecheckEvent → Recheck → Recheck
unfolding recheck_step
recheck_run [] r = r
recheck_run (e ∷ events) r = recheck_run events (recheck_step e r)
