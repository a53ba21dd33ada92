-- ===== src/Validation/Hosts/Link.antt =====
-- Which links `shortcutLinkError` lets through.
use vantric.Prelude.{true, false, none, some, [], ◌∷◌, ◌++◌, ◌≡◌, ◌≢◌, refl, ◌↔◌, arith}
use vantric.Prelude.Text.{
  Text, text, among, Among, among_iff, is_empty, is_empty_iff, trim, starts, lower_ascii,
}
use vantric.Regex.Classes.{Only}
use vantric.Validation.Names.{letter}
use vantric.Validation.Hosts.{
  shortcut_schemes, scheme_unit, scheme_tail, scheme_match, shortcut_link_error,
}

-- A scheme: a letter, then letters, digits, `+`, `.` and `-`.
abbrev pub IsScheme : Text → Type 0
IsScheme [] = ⊥
IsScheme (c ∷ s) = (letter c ≡ true) × Only scheme_unit s

scheme_tail-append :
    (s address : Text)
    → Only scheme_unit s
    → scheme_tail (s ++ text "://" ++ address) ≡ some (s, address)
unfolding scheme_tail text starts
scheme_tail-append [] address h = refl
scheme_tail-append (c ∷ s) address (hc, h) = ground (arith, scheme_tail-append s address h)

scheme_match-append :
    (scheme address : Text)
    → IsScheme scheme
    → scheme_match (scheme ++ text "://" ++ address) ≡ some (scheme, address)
unfolding scheme_match
scheme_match-append [] address h = absurd h
scheme_match-append (c ∷ s) address (hc, h) = ground (arith, scheme_tail-append s address h)

link_outcome :
    (value scheme address : Text)
    → is_empty (trim value) ≡ false
    → scheme_match (trim value) ≡ some (scheme, address)
    → (shortcut_link_error value ≡ none)
      ↔ ((among (lower_ascii scheme) shortcut_schemes ≡ true) × (address ≢ []))
unfolding shortcut_link_error
link_outcome value scheme address given found = ground (arith, is_empty_iff address)

-- A link with a scheme passes exactly if the scheme is listed, in either case, and something follows
-- the slashes.
pub shortcut_link_error-scheme_iff :
    (value scheme address : Text)
    → IsScheme scheme
    → trim value ≡ scheme ++ text "://" ++ address
    → (shortcut_link_error value ≡ none)
      ↔ (Among (lower_ascii scheme) shortcut_schemes × (address ≢ []))
shortcut_link_error-scheme_iff value [] address is_scheme e = absurd is_scheme
shortcut_link_error-scheme_iff value (c ∷ s) address is_scheme e =
    let found = rw (← e) at (scheme_match-append (c ∷ s) address is_scheme) in
    let given : is_empty (trim value) ≡ false = rw e refl in
    let listed = among_iff (lower_ascii (c ∷ s)) shortcut_schemes in
    let outcome = link_outcome value (c ∷ s) address given found in
    (
      λ h. let (ok, some_address) = outcome.0 h in (listed.0 ok, some_address),
      λ h. outcome.1 (listed.1 h.0, h.1),
    )
