-- ===== src/Retention/ReadBack.antt =====
-- What the builder writes it reads back.
use vantric.Prelude.{
  ◌≡◌, refl, ap, subst, sym, ◌∙◌, Bool, true, false, Option, none, some, List, [], ◌∷◌, ◌++◌, map,
  All, All-append, if◌then◌else◌, arith, Option-cases, inl, inr, ◌==◌, not, ◌&&◌, ◌||◌, every,
  and_iff, ◌↔◌,
}
use vantric.Prelude.Text.{
  Text, text, same, same_iff, same_sound, among, is_empty, is_space, split, split_from, join,
}
use vantric.Prelude.Text.Split.{Lacks, split_of_Lacks, split-append, split-join}
use vantric.Prelude.Text.Trim.{NoSpace, trim_of_NoSpace}
use vantric.Retention.{
  Rule, rules, Counts, set_count, parse_pair, parse_parts, parse, positive_count, kept, rule_entry,
  expression,
}

-- A text that the format carries: not empty, without its marks and white space.
abbrev pub is_plain : Text → Bool
is_plain s =
    not (is_empty s) && every (λ c. not (c == b',') && not (c == b'=') && not (is_space c)) s

abbrev Plain : Text → Type 0
Plain s = (is_empty s ≡ false) × Lacks b',' s × Lacks b'=' s × NoSpace s

every_plain :
    (s : Text)
    → every (λ c. not (c == b',') && not (c == b'=') && not (is_space c)) s ≡ true
    → Lacks b',' s × Lacks b'=' s × NoSpace s
every_plain [] h = (tt, tt, tt)
every_plain (c ∷ s) h = ground (arith, every_plain s)

Plain-of_is_plain : (s : Text) → is_plain s ≡ true → Plain s
Plain-of_is_plain [] h = absurd (cc)
Plain-of_is_plain (c ∷ s) h = let marks = every_plain (c ∷ s) h in (refl, marks.0, marks.1, marks.2)

abbrev pub keys : List Rule → List Text
keys = map (λ r. r.key)

abbrev set_all : List (Rule × Text) → Counts → Counts
set_all [] out = out
set_all ((r, n) ∷ entries) out = set_all entries (set_count r.key n out)

abbrev PlainEntries : List (Rule × Text) → Type 0
PlainEntries = All (λ e. Plain e.0.key × Plain e.1)

parse_entry :
    (key n : Text) (out : Counts)
    → Plain key
    → Plain n
    → parse_pair (split b'=' (key ++ b'=' ∷ n)) out ≡ set_count key n out
unfolding parse_pair
parse_entry key n out (some_key, no_comma, no_sign, no_space)
      (some_n, no_comma', no_sign', no_space') =
    rw (split-append b'=' key n no_sign, split_of_Lacks b'=' n no_sign')
      (rw (trim_of_NoSpace key no_space, trim_of_NoSpace n no_space') (rw (some_key, some_n) refl))

parse_entries :
    (entries : List (Rule × Text)) (out : Counts)
    → PlainEntries entries
    → parse_parts (map rule_entry entries) out ≡ set_all entries out
unfolding parse_parts
parse_entries [] out h = refl
parse_entries ((r, n) ∷ entries) out ((hr, hn), h) =
    ap (parse_parts (map rule_entry entries)) (parse_entry r.key n out hr hn)
    ∙ parse_entries entries (set_count r.key n out) h

rule_entry-Lacks :
    (entries : List (Rule × Text))
    → PlainEntries entries
    → All (Lacks b',') (map rule_entry entries)
rule_entry-Lacks [] h = tt
rule_entry-Lacks ((r, n) ∷ entries) ((hr, hn), h) =
    (All-append _ r.key (b'=' ∷ n) hr.1 (refl, hn.1), rule_entry-Lacks entries h)

parse_nil : parse [] ≡ (λ _. none)
unfolding parse parse_parts parse_pair split split_from
parse_nil = refl

parse_joined :
    (entries : List (Rule × Text))
    → PlainEntries entries
    → parse (join (text ",") (map rule_entry entries)) ≡ set_all entries (λ _. none)
unfolding parse text join
parse_joined [] h = parse_nil
parse_joined (e ∷ entries) h =
    ap (λ parts. parse_parts parts (λ _. none))
      (split-join b',' (rule_entry e) (map rule_entry entries) (rule_entry-Lacks (e ∷ entries) h).0
        (rule_entry-Lacks (e ∷ entries) h).1)
    ∙ parse_entries (e ∷ entries) (λ _. none) h

-- No key stands twice.
abbrev are_distinct : List Text → Bool
are_distinct [] = true
are_distinct (k ∷ ks) = not (among k ks) && are_distinct ks

abbrev or_old : Option Text → Option Text → Option Text
or_old none old = old
or_old (some n) old = some n

key_skipped :
    (b a : Bool) (o old : Option Text)
    → (b ≡ true → o ≡ none)
    → (if a then or_old o old else old) ≡ (if b || a then or_old o old else old)
key_skipped false a o old h = refl
key_skipped true false o old h = rw (h refl) refl
key_skipped true true o old h = refl

key_set :
    (b c a : Bool) (n : Text) (o old : Option Text)
    → b ≡ c
    → (b ≡ true → o ≡ some n)
    → (b ≡ true → a ≡ false)
    → (if a then or_old o (if c then some n else old) else (if c then some n else old))
      ≡ (if b || a then or_old o old else old)
key_set false false a n o old e h k = refl
key_set false true a n o old e h k = absurd (cc)
key_set true false a n o old e h k = absurd (cc)
key_set true true false n o old e h k = rw (h refl) refl
key_set true true true n o old e h k = absurd (ground arith)

same_comm : (a b : Text) → same a b ≡ same b a
same_comm a b = ground (arith, same_iff a b, same_iff b a)

not_iff : (b : Bool) → (not b ≡ true) ↔ (b ≡ false)
not_iff b = ground arith

rules-plain : every (λ r. is_plain r.key) rules ≡ true
unfolding is_space text
rules-plain = refl

rules-distinct : are_distinct (keys rules) ≡ true
unfolding among same text
rules-distinct = refl

none_old :
    (b : Bool) (o : Option Text) → (if b then or_old o none else none) ≡ (if b then o else none)
none_old false o = refl
none_old true none = refl
none_old true (some n) = refl

module _ (positive : Text → Option Text)
    (plain : (x t : Text) → positive x ≡ some t → is_plain t ≡ true) where
  kept_none :
      (counts : Counts) (r : Rule) (rs : List Rule)
      → positive_count positive (counts r.key) ≡ none
      → kept positive counts (r ∷ rs) ≡ kept positive counts rs
  unfolding kept
  kept_none counts r rs h = rw (kept, h) refl

  kept-some :
      (counts : Counts) (r : Rule) (rs : List Rule) (n : Text)
      → positive_count positive (counts r.key) ≡ some n
      → kept positive counts (r ∷ rs) ≡ (r, n) ∷ kept positive counts rs
  unfolding kept
  kept-some counts r rs n h = rw (kept, h) refl

  positive_count-Plain : (o : Option Text) (n : Text) → positive_count positive o ≡ some n → Plain n
  positive_count-Plain none n h = absurd (cc)
  positive_count-Plain (some count) n h = Plain-of_is_plain n (plain count n h)

  kept-PlainEntries :
      (counts : Counts) (rs : List Rule)
      → every (λ r. is_plain r.key) rs ≡ true
      → PlainEntries (kept positive counts rs)
  unfolding kept
  kept-PlainEntries counts [] h = tt
  kept-PlainEntries counts (r ∷ rs) h =
      elim (Option-cases (positive_count positive (counts r.key))) [
        | inl e ↦
            subst PlainEntries (sym (kept_none counts r rs e))
              (kept-PlainEntries counts rs (((and_iff _ _).0 h).1))
        | inr (n, e) ↦ subst PlainEntries (sym (kept-some counts r rs n e)) (
          (
            Plain-of_is_plain r.key (((and_iff _ _).0 h).0),
            positive_count-Plain (counts r.key) n e,
          ),
          kept-PlainEntries counts rs (((and_iff _ _).0 h).1),
        )
      ]

  -- What the entries set, on top of what was there
  set_all-kept :
      (counts out : Counts) (rs : List Rule) (k : Text)
      → are_distinct (keys rs) ≡ true
      → set_all (kept positive counts rs) out k
        ≡ (if among k (keys rs) then or_old (positive_count positive (counts k)) (out k) else out k)
  unfolding kept among set_count
  set_all-kept counts out [] k h = refl
  set_all-kept counts out (r ∷ rs) k h =
      elim (Option-cases (positive_count positive (counts r.key))) [
        | inl e ↦
            ap (λ entries. set_all entries out k) (kept_none counts r rs e)
            ∙ set_all-kept counts out rs k (((and_iff _ _).0 h).1)
            ∙ key_skipped (same k r.key) (among k (keys rs)) (positive_count positive (counts k))
                (out k)
                (λ b. ap (λ j. positive_count positive (counts j)) (same_sound k r.key b) ∙ e)
        | inr (n, e) ↦
            ap (λ entries. set_all entries out k) (kept-some counts r rs n e)
            ∙ set_all-kept counts (set_count r.key n out) rs k (((and_iff _ _).0 h).1)
            ∙ key_set (same k r.key) (same r.key k) (among k (keys rs)) n
                (positive_count positive (counts k)) (out k) (same_comm k r.key)
                (λ b. ap (λ j. positive_count positive (counts j)) (same_sound k r.key b) ∙ e)
                (λ b.
                  ap (λ j. among j (keys rs)) (same_sound k r.key b)
                  ∙ (not_iff _).0 (((and_iff _ _).0 h).0))
      ]

  -- What the builder writes is read back box by box: the box of a rule gets the number that it kept, and
  -- no other box anything.
  pub parse-expression :
      (counts : Counts) (k : Text)
      → parse (expression positive counts) k
        ≡ (if among k (keys rules) then positive_count positive (counts k) else none)
  unfolding expression
  parse-expression counts k =
      ap (λ out. out k)
        (parse_joined (kept positive counts rules) (kept-PlainEntries counts rules rules-plain))
      ∙ set_all-kept counts (λ _. none) rules k rules-distinct
      ∙ none_old (among k (keys rules)) (positive_count positive (counts k))
