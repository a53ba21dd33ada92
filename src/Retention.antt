-- ===== src/Retention.antt =====
-- frontend/src/components/RetentionBuilder.tsx: the boxes of a retention policy, the policy that they
-- write, and how a policy is read back into them. `positive` stands for the platform's numbers: the text
-- of `Number(x)` where that is more than 0.
pub mod ReadBack
pub mod Tests
use vantric.Prelude.{
  ℕ, Bool, true, false, Option, none, some, List, [], ◌∷◌, ◌++◌, map, filter_by, if◌then◌else◌,
}
use vantric.Prelude.Text.{Text, text, same, is_empty, is_digit, trim, split, join}

pub record Rule : Type 0 where
  pub key : Text
  pub label : Text
  pub says : Text → Text

abbrev around : Text → Text → Text → Text
around before after n = before ++ (n ++ after)

abbrev pub rules : List Rule
rules =
    record { key = text "keep-last"; label = text "Last"; says = around (text "the newest ") [] }
    ∷ record {
      key = text "keep-hourly";
      label = text "Hourly";
      says = around (text "one per hour for ") (text " hours");
    }
    ∷ record {
      key = text "keep-daily";
      label = text "Daily";
      says = around (text "one per day for ") (text " days");
    }
    ∷ record {
      key = text "keep-weekly";
      label = text "Weekly";
      says = around (text "one per week for ") (text " weeks");
    }
    ∷ record {
      key = text "keep-monthly";
      label = text "Monthly";
      says = around (text "one per month for ") (text " months");
    }
    ∷ record {
      key = text "keep-yearly";
      label = text "Yearly";
      says = around (text "one per year for ") (text " years");
    }
    ∷ []

-- `counts`: what each box holds, by its key
abbrev pub Counts : Type 0
Counts = Text → Option Text

unfoldable pub set_count : Text → Text → Counts → Counts
unfolding same
set_count key count counts k = if same key k then some count else counts k

-- A box takes the digits of what is typed.
unfoldable pub type_count : Text → Text → Counts → Counts
unfolding set_count
type_count key typed counts = set_count key (filter_by is_digit typed) counts

-- `if (key && count) out[key] = count`, with the first two parts around `=`; a part that is missing is
-- as good as an empty one.
unfoldable pub parse_pair : List Text → Counts → Counts
unfolding set_count trim
parse_pair (key ∷ count ∷ rest) out =
    if is_empty (trim key)
    then out
    else if is_empty (trim count)
    then out
    else set_count (trim key) (trim count) out
parse_pair _ out = out

unfoldable pub parse_parts : List Text → Counts → Counts
unfolding parse_pair split
parse_parts [] out = out
parse_parts (part ∷ parts) out = parse_parts parts (parse_pair (split b'=' part) out)

unfoldable pub parse : Text → Counts
unfolding parse_parts split
parse value = parse_parts (split b',' value) (λ _. none)

abbrev pub rule_entry : Rule × Text → Text
rule_entry (r, n) = r.key ++ b'=' ∷ n

module _ (positive : Text → Option Text) where
  abbrev pub positive_count : Option Text → Option Text
  positive_count none = none
  positive_count (some count) = positive count

  -- The boxes that keep anything, with their numbers
  unfoldable pub kept : Counts → List Rule → List (Rule × Text)
  kept counts [] = []
  kept counts (r ∷ rs) =
      let rest = kept counts rs in
      elim (positive_count (counts r.key)) [ none ↦ rest | some n ↦ (r, n) ∷ rest ]

  unfoldable pub expression : Counts → Text
  unfolding kept text
  expression counts = join (text ",") (map rule_entry (kept counts rules))

  unfoldable pub summary : Counts → List Text
  unfolding kept
  summary counts = map (λ e. e.0.says e.1) (kept counts rules)
