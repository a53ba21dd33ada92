-- ===== src/Remediation/Newest.antt =====
-- The order on reported systems, and what `newestOSInEstate` finds by it.
use vantric.Prelude.{
  ℕ, ◌≡◌, refl, sym, ap, ◌∙◌, true, false, Option, none, some, List, [], ◌∷◌, if◌then◌else◌, arith,
  All, In, inl, inr, ◌⊎◌, Bool-cases, and_iff, subst,
}
use mathlib.Core.Option.{none-ne-some, some-injective}
use vantric.Prelude.Text.{Text, same, same_sound, same_iff}
use vantric.Remediation.Os.{
  newer_parts, newer_parsed, is_newer_os, parse_os, newest, newest_os_in_estate,
}

newer_parts_irrefl : (xs : List ℕ) → newer_parts xs xs ≡ false
unfolding newer_parts
newer_parts_irrefl [] = refl
newer_parts_irrefl (x ∷ xs) = ground (arith, newer_parts_irrefl xs)

newer_parts_trans :
    (xs ys zs : List ℕ)
    → newer_parts xs ys ≡ true
    → newer_parts ys zs ≡ true
    → newer_parts xs zs ≡ true
unfolding newer_parts
newer_parts_trans [] [] [] h k = h
newer_parts_trans [] [] (z ∷ zs) h k = k
newer_parts_trans [] (y ∷ ys) [] h k = ground (arith, newer_parts_trans [] ys [])
newer_parts_trans [] (y ∷ ys) (z ∷ zs) h k = ground (arith, newer_parts_trans [] ys zs)
newer_parts_trans (x ∷ xs) [] [] h k = h
newer_parts_trans (x ∷ xs) [] (z ∷ zs) h k = ground (arith, newer_parts_trans xs [] zs)
newer_parts_trans (x ∷ xs) (y ∷ ys) [] h k = ground (arith, newer_parts_trans xs ys [])
newer_parts_trans (x ∷ xs) (y ∷ ys) (z ∷ zs) h k = ground (arith, newer_parts_trans xs ys zs)

newer_parsed_irrefl : (a : Option (Text × List ℕ)) → newer_parsed a a ≡ false
unfolding newer_parsed
newer_parsed_irrefl none = refl
newer_parsed_irrefl (some (family, xs)) = ground (arith, newer_parts_irrefl xs)

newer_parsed_trans :
    (a b c : Option (Text × List ℕ))
    → newer_parsed a b ≡ true
    → newer_parsed b c ≡ true
    → newer_parsed a c ≡ true
unfolding newer_parsed
newer_parsed_trans none b c h k = h
newer_parsed_trans (some a) none c h k = absurd (cc)
newer_parsed_trans (some a) (some b) none h k = k
newer_parsed_trans (some (f, xs)) (some (g, ys)) (some (e, zs)) h k = (and_iff _ _).1 (
  (same_iff f e).1
      (same_sound f g (((and_iff _ _).0 h).0) ∙ same_sound g e (((and_iff _ _).0 k).0)),
  newer_parts_trans xs ys zs (((and_iff _ _).0 h).1) (((and_iff _ _).0 k).1),
)

is_newer_os_irrefl : (a : Text) → is_newer_os a a ≡ false
unfolding is_newer_os
is_newer_os_irrefl a = newer_parsed_irrefl (parse_os a)

is_newer_os_trans :
    (a b c : Text) → is_newer_os a b ≡ true → is_newer_os b c ≡ true → is_newer_os a c ≡ true
unfolding is_newer_os
is_newer_os_trans a b c = newer_parsed_trans (parse_os a) (parse_os b) (parse_os c)

-- To be newer is a strict order on the reported systems: none is newer than itself, no two are newer
-- than each other, and what is newer than a newer one is newer.
pub is_newer_os_strict :
    (a b c : Text)
    → (is_newer_os a a ≡ false)
      × (is_newer_os a b ≡ true → is_newer_os b a ≡ false)
      × (is_newer_os a b ≡ true → is_newer_os b c ≡ true → is_newer_os a c ≡ true)
is_newer_os_strict a b c = (
  is_newer_os_irrefl a,
  λ h. elim (Bool-cases (is_newer_os b a)) [
    | inr e ↦ e
    | inl e ↦ absurd (ground (arith, is_newer_os_trans a b a h e, is_newer_os_irrefl a))
  ],
  is_newer_os_trans a b c,
)

abbrev Reached : Text → List Text → Text → Type 0
Reached os hosts n = (n ≡ os) ⊎ (In n hosts × (is_newer_os os n ≡ true))

newest_nil : (os : Text) → newest os [] ≡ os
unfolding newest
newest_nil os = refl

newest_newer :
    (os h : Text) (hosts : List Text)
    → is_newer_os os h ≡ true
    → newest os (h ∷ hosts) ≡ newest h hosts
unfolding newest
newest_newer os h hosts e = ap (λ b. newest (if b then h else os) hosts) e

newest_kept :
    (os h : Text) (hosts : List Text)
    → is_newer_os os h ≡ false
    → newest os (h ∷ hosts) ≡ newest os hosts
unfolding newest
newest_kept os h hosts e = ap (λ b. newest (if b then h else os) hosts) e

Reached-kept :
    (os h : Text) (hosts : List Text) (n : Text) → Reached os hosts n → Reached os (h ∷ hosts) n
Reached-kept os h hosts n (inl e) = inl e
Reached-kept os h hosts n (inr (member, newer)) = inr (inr member, newer)

Reached-newer :
    (os h : Text) (hosts : List Text) (n : Text)
    → is_newer_os os h ≡ true
    → Reached h hosts n
    → Reached os (h ∷ hosts) n
Reached-newer os h hosts n e (inl first) = inr (inl first, rw first e)
Reached-newer os h hosts n e (inr (member, newer)) =
    inr (inr member, is_newer_os_trans os h n e newer)

newest-Reached : (os : Text) (hosts : List Text) → Reached os hosts (newest os hosts)
newest-Reached os [] = inl (newest_nil os)
newest-Reached os (h ∷ hosts) = elim (Bool-cases (is_newer_os os h)) [
  | inr e ↦
      subst (Reached os (h ∷ hosts)) (sym (newest_kept os h hosts e))
        (Reached-kept os h hosts (newest os hosts) (newest-Reached os hosts))
  | inl e ↦
      subst (Reached os (h ∷ hosts)) (sym (newest_newer os h hosts e))
        (Reached-newer os h hosts (newest h hosts) e (newest-Reached h hosts))
]

-- What is not newer than the start is not newer than what was reached from it.
not_newer_of_Reached :
    (os : Text) (hosts : List Text) (n h : Text)
    → Reached os hosts n
    → is_newer_os os h ≡ false
    → is_newer_os n h ≡ false
not_newer_of_Reached os hosts n h (inl e) k = rw e k
not_newer_of_Reached os hosts n h (inr (member, newer)) k = elim (Bool-cases (is_newer_os n h)) [
  | inr e ↦ e
  | inl e ↦ absurd (ground (arith, is_newer_os_trans os n h newer e))
]

abbrev NoneNewer : Text → List Text → Type 0
NoneNewer n = All (λ h. is_newer_os n h ≡ false)

newest-NoneNewer : (os : Text) (hosts : List Text) → NoneNewer (newest os hosts) hosts
newest-NoneNewer os [] = tt
newest-NoneNewer os (h ∷ hosts) = elim (Bool-cases (is_newer_os os h)) [
  | inl e ↦
      subst (λ n. NoneNewer n (h ∷ hosts)) (sym (newest_newer os h hosts e))
        (
          not_newer_of_Reached h hosts (newest h hosts) h (newest-Reached h hosts)
              (is_newer_os_irrefl h),
          newest-NoneNewer h hosts,
        )
  | inr e ↦
      subst (λ n. NoneNewer n (h ∷ hosts)) (sym (newest_kept os h hosts e))
        (
          not_newer_of_Reached os hosts (newest os hosts) h (newest-Reached os hosts) e,
          newest-NoneNewer os hosts,
        )
]

-- The system that is suggested for a host is one that the estate reports, newer than the host's own, and
-- none of the estate is newer than it; where none is suggested, none of the estate is newer than the
-- host's own.
pub newest_os_in_estate_best :
    (os : Text) (hosts : List Text)
    → ((n : Text)
        → newest_os_in_estate os hosts ≡ some n
        → In n hosts × (is_newer_os os n ≡ true) × NoneNewer n hosts)
      × (newest_os_in_estate os hosts ≡ none → NoneNewer os hosts)
unfolding newest_os_in_estate
newest_os_in_estate_best os hosts = (
  λ n h. suggested n (newest os hosts) (newest-Reached os hosts) (newest-NoneNewer os hosts) h,
  λ h. nothing (newest os hosts) (newest-NoneNewer os hosts) h,
)
  where
    suggested :
        (n m : Text)
        → Reached os hosts m
        → NoneNewer m hosts
        → (if same m os then none else some m) ≡ some n
        → In n hosts × (is_newer_os os n ≡ true) × NoneNewer n hosts
    suggested n m (inl e) k h = absurd (ground (arith, (same_iff m os).1 e))
    suggested n m (inr (member, newer)) k h = elim (Bool-cases (same m os)) [
      | inl e ↦ absurd (none-ne-some n (rw e at h))
      | inr e ↦
          subst (λ t. In t hosts × (is_newer_os os t ≡ true) × NoneNewer t hosts)
            (some-injective _ _ (rw e at h)) (member, newer, k)
    ]

    nothing :
        (m : Text)
        → NoneNewer m hosts
        → (if same m os then none else some m) ≡ none
        → NoneNewer os hosts
    nothing m k h = elim (Bool-cases (same m os)) [
      | inl e ↦ subst (λ t. NoneNewer t hosts) (same_sound m os e) k
      | inr e ↦ absurd (none-ne-some m (sym (rw e at h)))
    ]
