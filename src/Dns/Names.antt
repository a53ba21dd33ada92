-- ===== src/Dns/Names.antt =====
-- The part of a record's name that is not the zone.
use vantric.Prelude.{
  ℕ, ◌+◌, ◌-◌, true, false, [], ◌∷◌, ◌++◌, ◌≡◌, refl, sym, ap, ◌∙◌, ◌⊎◌, inl, inr, arith, length,
  length-append, take, reverse, Bool-cases,
}
use mathlib.Core.List.{reverse-append, reverse-reverse}
use vantric.Prelude.Text.{Text, same, same_iff, starts, ends, without_last}
use vantric.Dns.{relative_name}

starts-append : (p s : Text) → starts p (p ++ s) ≡ true
unfolding starts
starts-append [] s = refl
starts-append (c ∷ p) s = ground (arith, starts-append p s)

starts_sound : (p s : Text) → starts p s ≡ true → (t : Text) × (s ≡ p ++ t)
unfolding starts
starts_sound [] s h = (s, refl)
starts_sound (c ∷ p) [] h = absurd (cc)
starts_sound (c ∷ p) (d ∷ s) h =
    let (t, e) = starts_sound p s (ground arith) in (t, ground (arith, e))

ends-append : (u p : Text) → ends p (u ++ p) ≡ true
unfolding ends
ends-append u p = rw (reverse-append u p) (starts-append (reverse p) (reverse u))

ends_sound : (p s : Text) → ends p s ≡ true → (u : Text) × (s ≡ u ++ p)
unfolding ends
ends_sound p s h =
    let (t, e) = starts_sound (reverse p) (reverse s) h in
    (
      reverse t,
      sym (reverse-reverse s)
          ∙ ap reverse e
          ∙ reverse-append (reverse p) t
          ∙ ap (λ q. reverse t ++ q) (reverse-reverse p),
    )

take-append : (u s : Text) → take (length u) (u ++ s) ≡ u
take-append [] s = refl
take-append (c ∷ u) s = ap (λ r. c ∷ r) (take-append u s)

without_last-append : (n : ℕ) (u s : Text) → length s ≡ n → without_last n (u ++ s) ≡ u
unfolding without_last
without_last-append n u s h =
    let front : length (u ++ s) - n ≡ length u = omega (arith, length-append u s) in
    rw front (take-append u s)

-- The name of a record under a zone is shown without the zone.
pub relative_name-append : (part zone : Text) → relative_name (part ++ b'.' ∷ zone) zone ≡ part
unfolding relative_name
relative_name-append part zone = elim (Bool-cases (same (part ++ b'.' ∷ zone) zone)) [
  | inl equal ↦
      let long = ap length ((same_iff (part ++ b'.' ∷ zone) zone).0 equal) in
      absurd (omega (arith, long, length-append part (b'.' ∷ zone)))
  | inr differ ↦
      rw (differ, ends-append part (b'.' ∷ zone))
        (without_last-append (length zone + 1) part (b'.' ∷ zone) (omega arith))
]

-- What is shown tells the record's name: it is the zone where nothing is shown, or what is shown in
-- front of the zone, or the name itself where it is not under the zone.
pub relative_name_sound :
    (name zone : Text)
    → ((name ≡ zone) × (relative_name name zone ≡ []))
      ⊎ ((name ≡ relative_name name zone ++ b'.' ∷ zone)
          ⊎ ((ends (b'.' ∷ zone) name ≡ false) × (relative_name name zone ≡ name)))
unfolding relative_name
relative_name_sound name zone = elim (Bool-cases (same name zone)) [
  | inl equal ↦ inl ((same_iff name zone).0 equal, rw equal refl)
  | inr differ ↦ elim (Bool-cases (ends (b'.' ∷ zone) name)) [
    | inl under ↦ inr (inl (under_zone under))
    | inr outside ↦ inr (inr (outside, rw (differ, outside) refl))
  ]
]
  where
    under_zone : ends (b'.' ∷ zone) name ≡ true → name ≡ relative_name name zone ++ b'.' ∷ zone
    under_zone under =
        let (u, e) = ends_sound (b'.' ∷ zone) name under in
        let shown = ap (λ n. relative_name n zone) e ∙ relative_name-append u zone in
        e ∙ ap (λ r. r ++ b'.' ∷ zone) (sym shown)
