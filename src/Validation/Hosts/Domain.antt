-- ===== src/Validation/Hosts/Domain.antt =====
-- Which domains pass `domainRe` and `domainError`.
use vantric.Prelude.{
  ℕ, ◌≤◌, true, false, none, List, [], ◌∷◌, ◌++◌, ◌≡◌, refl, ◌↔◌, ◌⊎◌, inl, inr, arith, ◌==◌,
  length, All, All-imp, All-append, append-nil, Bool-cases, or_iff,
}
use vantric.Prelude.Text.{Text, text, is_empty_iff, trim, split, has, ends}
use vantric.Prelude.Text.Split.{Lacks, behind, behind-split}
use vantric.Prelude.Text.Ends.{
  last_of, last_of-append, ends_one, has_of_starts, has-append, not-has_of_All,
}
use vantric.Regex.{test}
use vantric.Regex.Lang.{Lang, test_iff}
use vantric.Regex.Classes.{IsLabel, label_iff}
use vantric.Regex.Labels.{two_labels_iff}
use vantric.Validation.Names.{lower_or_digit}
use vantric.Validation.Hosts.{domain_unit, domain_label, domain_re, starts_http, domain_error}

-- A label: lower-case letters, digits and hyphens, with no hyphen at either end.
abbrev pub IsDomainLabel : Text → Type 0
IsDomainLabel = IsLabel lower_or_digit domain_unit lower_or_digit

-- Two labels or more, joined by dots.
abbrev pub IsDomain : Text → Type 0
IsDomain s = (2 ≤ length (split b'.' s)) × All IsDomainLabel (split b'.' s)

domain_label_iff : (s : Text) → Lang domain_label s ↔ IsDomainLabel s
domain_label_iff s =
    label_iff lower_or_digit domain_unit lower_or_digit (λ c h. h) (λ c h. ground arith) s

IsDomainLabel-Lacks : (s : Text) → IsDomainLabel s → Lacks b'.' s
IsDomainLabel-Lacks [] h = absurd h
IsDomainLabel-Lacks (c ∷ s) (hc, hs, last) = (ground arith, All-imp s (λ d h. ground arith) hs)

-- The expression accepts exactly two or more labels joined by dots.
pub domain_re_iff : (s : Text) → (test domain_re s ≡ true) ↔ IsDomain s
unfolding domain_re
domain_re_iff s =
    let shape =
      two_labels_iff b'.' domain_label (λ l h. IsDomainLabel-Lacks l ((domain_label_iff l).0 h))
        s in
    (
      λ h.
          let (two, all) = shape.0 ((test_iff _ s).0 h) in
          (two, All-imp (split b'.' s) (λ l h. (domain_label_iff l).0 h) all),
      λ h.
          (test_iff _ s).1
            (shape.1 (h.0, All-imp (split b'.' s) (λ l h. (domain_label_iff l).1 h) h.1)),
    )

-- No unit of a label is `c`, so no unit of the labels joined by dots is.
labels-Lacks :
    (c : ℕ)
    → ((d : ℕ) → domain_unit d ≡ true → (d == c) ≡ false)
    → (b'.' == c) ≡ false
    → (p : Text) (ps : List Text) → IsDomainLabel p
    → All IsDomainLabel ps
    → Lacks c (p ++ behind b'.' ps)
labels-Lacks c out dot [] ps hp hps = absurd hp
labels-Lacks c out dot (x ∷ p) ps (hx, hp, last) hps =
    (out x (ground arith), All-append _ p (behind b'.' ps) (All-imp p out hp) (later ps hps))
  where
    later : (ps : List Text) → All IsDomainLabel ps → Lacks c (behind b'.' ps)
    later [] h = tt
    later ([] ∷ ps) h = absurd h.0
    later ((y ∷ q) ∷ ps) ((hy, hq, end), hs) = (
      dot,
      (out y (ground arith), All-append _ q (behind b'.' ps) (All-imp q out hq) (later ps hs)),
    )

-- Labels joined by dots do not end with a dot.
labels-no_dot_end :
    (x : ℕ) (p : Text) (ps : List Text)
    → lower_or_digit (last_of x p) ≡ true
    → All IsDomainLabel ps
    → lower_or_digit (last_of x (p ++ behind b'.' ps)) ≡ true
labels-no_dot_end x p [] h hs = rw append-nil h
labels-no_dot_end x p ([] ∷ ps) h hs = absurd hs.0
labels-no_dot_end x p ((y ∷ q) ∷ ps) h ((hy, hq, end), hs) =
    rw (last_of-append x p b'.' (y ∷ (q ++ behind b'.' ps))) (labels-no_dot_end y q ps end hs)

has_dot_behind : (p q : Text) (ps : List Text) → has b'.' (p ++ behind b'.' (q ∷ ps)) ≡ true
unfolding has
has_dot_behind p q ps = rw (has-append b'.' p (b'.' ∷ (q ++ behind b'.' ps))) (ground arith)

slash_in_schemes : (has b'/' (text "http://") ≡ true) × (has b'/' (text "https://") ≡ true)
unfolding has text
slash_in_schemes = (refl, refl)

-- A text with a scheme holds a slash.
pub starts_http-slash : (s : Text) → starts_http s ≡ true → has b'/' s ≡ true
unfolding starts_http
starts_http-slash s h = elim ((or_iff _ _).0 h) [
  | inl plain ↦ has_of_starts b'/' (text "http://") s plain slash_in_schemes.0
  | inr secure ↦ has_of_starts b'/' (text "https://") s secure slash_in_schemes.1
]

-- What the tests before the expression ask of a domain, for labels joined by dots.
labels_pass :
    (p q : Text) (ps : List Text)
    → IsDomainLabel p
    → All IsDomainLabel (q ∷ ps)
    → (starts_http (p ++ behind b'.' (q ∷ ps)) ≡ false)
      × (ends (text ".") (p ++ behind b'.' (q ∷ ps)) ≡ false)
      × (has b'.' (p ++ behind b'.' (q ∷ ps)) ≡ true)
unfolding text
labels_pass [] q ps hp hs = absurd hp
labels_pass (x ∷ p) q ps (hx, hp, last) hs =
    let s = (x ∷ p) ++ behind b'.' (q ∷ ps) in
    let no_slash =
      not-has_of_All b'/' s
        (labels-Lacks b'/' (λ d h. ground arith) refl (x ∷ p) (q ∷ ps) (hx, hp, last) hs) in
    (
      ground (arith, starts_http-slash s, no_slash),
      rw (ends_one b'.' x (p ++ behind b'.' (q ∷ ps)))
          (ground (arith, labels-no_dot_end x p (q ∷ ps) last hs)),
      has_dot_behind (x ∷ p) q ps,
    )

IsDomain-pass :
    (s : Text)
    → IsDomain s
    → (starts_http s ≡ false) × (ends (text ".") s ≡ false) × (has b'.' s ≡ true)
IsDomain-pass s (two, all) =
    let (p, ps, cut, spell) = behind-split b'.' s in
    rw spell (go p ps (rw cut at two) (rw cut at all))
  where
    go :
        (p : Text) (ps : List Text)
        → 2 ≤ length (p ∷ ps)
        → All IsDomainLabel (p ∷ ps)
        → (starts_http (p ++ behind b'.' ps) ≡ false)
          × (ends (text ".") (p ++ behind b'.' ps) ≡ false)
          × (has b'.' (p ++ behind b'.' ps) ≡ true)
    go p [] two h = absurd (omega arith)
    go p (q ∷ ps) two (hp, hs) = labels_pass p q ps hp hs

-- A domain passes exactly if, trimmed and in lower case, it is empty or two or more DNS labels joined
-- by dots: the tests for a scheme, a trailing dot and a missing dot refuse nothing else.
pub domain_error-eq-none_iff :
    (to_lower_case : Text → Text) (value : Text)
    → (domain_error to_lower_case value ≡ none)
      ↔ ((to_lower_case (trim value) ≡ []) ⊎ IsDomain (to_lower_case (trim value)))
unfolding domain_error
domain_error-eq-none_iff low value =
    let d = low (trim value) in
    elim (Bool-cases (test domain_re d)) [
      | inl good ↦
          let is_domain = (domain_re_iff d).0 good in
          let (no_scheme, no_dot, a_dot) = IsDomain-pass d is_domain in
          (λ _. inr is_domain, λ _. ground arith)
      | inr bad ↦ (
        λ h. inl ((is_empty_iff d).0 (ground arith)),
        λ h. elim h [
          | inl e ↦ ground (arith, is_empty_iff d)
          | inr dom ↦ absurd (cc ((domain_re_iff d).1 dom))
        ],
      )
    ]
