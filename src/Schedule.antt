-- ===== src/Schedule.antt =====
-- `build` of frontend/src/components/ScheduleBuilder.tsx: a schedule in the hypervisor's own grammar.
pub mod Tests
pub mod Week
use vantric.Prelude.{ℕ, Bool, not, ◌||◌, List, [], ◌∷◌, ◌++◌, if◌then◌else◌, filter_by}
use vantric.Prelude.Text.{Text, text, join, show, among}
use vantric.Validation.Numbers.{Number, whole, is_integer, lt_num, gt_num}

-- The keys of `days`, in the order of the week
abbrev pub days : List Text
days = text "mon" ∷ text "tue" ∷ text "wed" ∷ text "thu" ∷ text "fri" ∷ text "sat" ∷ text "sun" ∷ []

pub data Frequency : Type 0 where
  daily weekdays on_days hours : Frequency

-- `${n}` for a whole number; no other is printed here.
abbrev pub show_whole : Number → Text
show_whole (whole n) = show n
show_whole _ = []

unfoldable pub ordered : List Text → List Text
unfolding among
ordered picked = filter_by (λ d. among d picked) days

unfoldable pub days_schedule : Text → List Text → Text
days_schedule time [] = []
days_schedule time (d ∷ ds) = join (b',' ∷ []) (d ∷ ds) ++ b' ' ∷ time

unfoldable pub hours_schedule : Number → Text
unfolding text
hours_schedule n =
    if not (is_integer n) || lt_num n 1 || gt_num n 23
    then []
    else text "*/" ++ show_whole n ++ text ":00"

-- `to_number` is the platform's `Number` on a text.
unfoldable pub build : (Text → Number) → Frequency → Text → List Text → Text → Text
unfolding ordered days_schedule hours_schedule text
build to_number daily time picked every = time
build to_number weekdays time picked every = text "mon..fri " ++ time
build to_number on_days time picked every = days_schedule time (ordered picked)
build to_number hours time picked every = hours_schedule (to_number every)
