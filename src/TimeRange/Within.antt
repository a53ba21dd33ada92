-- ===== src/TimeRange/Within.antt =====
-- Which rows a range keeps.
use vantric.Prelude.{
  ℕ, ◌≤◌, ◌≡◌, refl, true, false, Option, none, some, arith, ◌↔◌, Bool-cases, inl, inr, and_iff,
}
use vantric.Prelude.Text.{Text}
use vantric.TimeRange.{
  TimeRange, At, at_time, bound, has_bound, starts_by, ends_by, in_bounds, in_range,
}

-- Not before a bound, and not after one; a bound that is none lets all pass.
abbrev pub NotBefore : Option ℕ → ℕ → Type 0
NotBefore none ms = Unit
NotBefore (some since) ms = since ≤ ms

abbrev pub NotAfter : Option ℕ → ℕ → Type 0
NotAfter none ms = Unit
NotAfter (some until) ms = ms ≤ until

abbrev pub Within : Option ℕ → Option ℕ → Option ℕ → Type 0
Within since until none = Unit
Within since until (some ms) = NotBefore since ms × NotAfter until ms

starts_by_iff : (since : Option ℕ) (ms : ℕ) → (starts_by since ms ≡ true) ↔ NotBefore since ms
starts_by_iff none ms = (λ _. tt, λ _. refl)
starts_by_iff (some since) ms = ground arith

ends_by_iff : (until : Option ℕ) (ms : ℕ) → (ends_by until ms ≡ true) ↔ NotAfter until ms
ends_by_iff none ms = (λ _. tt, λ _. refl)
ends_by_iff (some until) ms = ground arith

module _ (time_of : Text → Option ℕ) where
  in_bounds_iff :
      (range : TimeRange) (at : Option ℕ)
      → (in_bounds time_of range at ≡ true)
        ↔ Within (bound time_of range.since) (bound time_of range.until) at
  in_bounds_iff range none = (λ _. tt, λ _. refl)
  in_bounds_iff range (some ms) = (
    λ h.
        let both = (and_iff _ _).0 h in
        ((starts_by_iff _ ms).0 both.0, (ends_by_iff _ ms).0 both.1),
    λ h. (and_iff _ _).1 ((starts_by_iff _ ms).1 h.0, (ends_by_iff _ ms).1 h.1),
  )

  -- Without a bound nothing is kept out.
  no_bound : (o : Option Text) → has_bound o ≡ false → bound time_of o ≡ none
  no_bound none h = refl
  no_bound (some iso) h = ground arith

  no_bounds :
      (range : TimeRange) (at : Option ℕ)
      → has_bound range.since ≡ false
      → has_bound range.until ≡ false
      → Within (bound time_of range.since) (bound time_of range.until) at
  no_bounds range none h k = tt
  no_bounds range (some ms) h k = rw (no_bound range.since h, no_bound range.until k) (tt, tt)

  -- A row is kept exactly if it has no time that can be read, or its time is neither before the start of
  -- the range nor after its end; a bound that is absent, empty or no date keeps nothing out.
  pub in_range_iff :
      (range : TimeRange) (at : At)
      → (in_range time_of range at ≡ true)
        ↔ Within (bound time_of range.since) (bound time_of range.until) (at_time time_of at)
  unfolding in_range
  in_range_iff range at = elim (Bool-cases (has_bound range.since)) [
    | inl e ↦ rw e (in_bounds_iff range (at_time time_of at))
    | inr e ↦ elim (Bool-cases (has_bound range.until)) [
      | inl k ↦ rw (e, k) (in_bounds_iff range (at_time time_of at))
      | inr k ↦ rw (e, k) (λ _. no_bounds range (at_time time_of at) e k, λ _. refl)
    ]
  ]
