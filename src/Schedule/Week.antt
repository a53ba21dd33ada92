-- ===== src/Schedule/Week.antt =====
-- The order in which the days were picked does not matter.
use vantric.Prelude.{Bool, List, [], ◌∷◌, ◌≡◌, refl, ap, arith, filter_by}
use vantric.Prelude.Text.{Text, among}
use vantric.Validation.Numbers.{Number}
use vantric.Schedule.{
  days, Frequency, daily, weekdays, on_days, hours, ordered, days_schedule, build,
}

filter_by-same :
    (p q : Text → Bool)
    → ((d : Text) → p d ≡ q d)
    → (ds : List Text) → filter_by p ds ≡ filter_by q ds
filter_by-same p q same_test [] = refl
filter_by-same p q same_test (d ∷ ds) = ground (arith, same_test d, filter_by-same p q same_test ds)

-- The same days make the same schedule, in whatever order they were picked.
pub build-order :
    (to_number : Text → Number) (f : Frequency) (time every : Text) (picked others : List Text)
    → ((d : Text) → among d picked ≡ among d others)
    → build to_number f time picked every ≡ build to_number f time others every
unfolding build ordered
build-order to_number daily time every picked others h = refl
build-order to_number weekdays time every picked others h = refl
build-order to_number on_days time every picked others h =
    ap (days_schedule time) (filter_by-same (λ d. among d picked) (λ d. among d others) h days)
build-order to_number hours time every picked others h = refl
