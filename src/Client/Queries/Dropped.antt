-- ===== src/Client/Queries/Dropped.antt =====
-- What the query strings of frontend/src/api/client.ts leave out.
use vantric.Prelude.{
  ℕ, zero, suc, ◌≡◌, refl, Option, none, some, List, [], ◌∷◌, arith, if◌then◌else◌,
}
use vantric.Prelude.Text.{Text, text, same, same_iff, join, show}
use vantric.Client.Queries.{AiRequestQuery, ai_query, set, set_text, set_number, set_list}

-- `params.get(name)`
unfoldable pub get_param : Text → List (Text × Text) → Option Text
unfolding same
get_param name [] = none
get_param name ((n, v) ∷ pairs) = if same name n then some v else get_param name pairs

-- What the query says of a filter: its text, unless it is empty
abbrev pub told : Option Text → Option Text
told none = none
told (some []) = none
told (some (c ∷ s)) = some (c ∷ s)

get_param-set :
    (n m v : Text) (pairs : List (Text × Text))
    → get_param n (set m v pairs) ≡ (if same n m then some v else get_param n pairs)
unfolding get_param set
get_param-set n m v [] = refl
get_param-set n m v ((k, w) ∷ pairs) =
    ground (arith, get_param-set n m v pairs, same_iff n m, same_iff n k, same_iff m k)

-- What the query says of a list: its items with commas, unless there are none
abbrev pub told_list : Option (List Text) → Option Text
told_list none = none
told_list (some []) = none
told_list (some (s ∷ items)) = some (join (b',' ∷ []) (s ∷ items))

-- What the query says of a number, unless it is 0
abbrev pub told_number : Option ℕ → Option Text
told_number none = none
told_number (some zero) = none
told_number (some (suc n)) = some (show (suc n))

abbrev over : Option Text → Option Text → Option Text
over none before = before
over (some v) before = some v

get_param-set_text :
    (n m : Text) (o : Option Text) (pairs : List (Text × Text))
    → get_param n (set_text m o pairs)
      ≡ (if same n m then over (told o) (get_param n pairs) else get_param n pairs)
get_param-set_text n m none pairs = ground arith
get_param-set_text n m (some []) pairs = ground arith
get_param-set_text n m (some (c ∷ s)) pairs = get_param-set n m (c ∷ s) pairs

get_param-set_list :
    (n m : Text) (o : Option (List Text)) (pairs : List (Text × Text))
    → get_param n (set_list m o pairs)
      ≡ (if same n m then over (told_list o) (get_param n pairs) else get_param n pairs)
get_param-set_list n m none pairs = ground arith
get_param-set_list n m (some []) pairs = ground arith
get_param-set_list n m (some (c ∷ s)) pairs = get_param-set n m (join (b',' ∷ []) (c ∷ s)) pairs

get_param-set_number :
    (n m : Text) (o : Option ℕ) (pairs : List (Text × Text))
    → get_param n (set_number m o pairs)
      ≡ (if same n m then over (told_number o) (get_param n pairs) else get_param n pairs)
get_param-set_number n m none pairs = ground arith
get_param-set_number n m (some zero) pairs = ground arith
get_param-set_number n m (some (suc k)) pairs = get_param-set n m (show (suc k)) pairs

over-none : (o : Option Text) → over o none ≡ o
over-none none = refl
over-none (some s) = refl

get_param-nil : (n : Text) → get_param n [] ≡ none
unfolding get_param
get_param-nil n = refl

ruleset params =
    (get_param-set_text, get_param-set_list, get_param-set_number, get_param-nil, over-none)

-- The query string of the request log says of each filter what the caller gave, and nothing of a
-- filter that is absent, empty or 0.
pub ai_query-told :
    (q : AiRequestQuery)
    → (get_param (text "limit") (ai_query q) ≡ told_number q.limit)
      × (get_param (text "offset") (ai_query q) ≡ told_number q.offset)
      × (get_param (text "sortBy") (ai_query q) ≡ told q.sort_by)
      × (get_param (text "order") (ai_query q) ≡ told q.order)
      × (get_param (text "providers") (ai_query q) ≡ told_list q.providers)
      × (get_param (text "models") (ai_query q) ≡ told_list q.models)
      × (get_param (text "callers") (ai_query q) ≡ told_list q.callers)
      × (get_param (text "status") (ai_query q) ≡ told q.status)
      × (get_param (text "search") (ai_query q) ≡ told q.search)
      × (get_param (text "since") (ai_query q) ≡ told q.since)
      × (get_param (text "until") (ai_query q) ≡ told q.until)
unfolding ai_query text same
ai_query-told q = (
  simp params refl,
  simp params refl,
  simp params refl,
  simp params refl,
  simp params refl,
  simp params refl,
  simp params refl,
  simp params refl,
  simp params refl,
  simp params refl,
  simp params refl,
)
