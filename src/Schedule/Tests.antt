-- ===== src/Schedule/Tests.antt =====
-- A concrete schedule.
use vantric.Prelude.{List, [], ◌∷◌, ◌≡◌, arith}
use vantric.Prelude.Text.{Text, text, among}
use vantric.Validation.Numbers.{nan}
use vantric.Schedule.{on_days, build}
use vantric.Schedule.Week.{build-order}

abbrev clicked : List Text
clicked = text "sun" ∷ text "mon" ∷ []

abbrev in_week : List Text
in_week = text "mon" ∷ text "sun" ∷ []

same_days : (d : Text) → among d clicked ≡ among d in_week
unfolding among
same_days d = ground (arith)

build-order_example :
    build (λ _. nan) on_days (text "02:00") clicked []
    ≡ build (λ _. nan) on_days (text "02:00") in_week []
build-order_example = build-order (λ _. nan) on_days (text "02:00") [] clicked in_week same_days
