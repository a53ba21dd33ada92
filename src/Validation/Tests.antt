-- ===== src/Validation/Tests.antt =====
-- Concrete fields for the theorems on names, numbers and hosts.
use vantric.Prelude.{◌≤◌, none, [], ◌++◌, ◌≡◌, ◌≢◌, refl, ◌↔◌, ◌⊎◌, inr, arith, length}
use vantric.Prelude.Text.{text, trim, trim_start, is_space, is_lower, lower_ascii, Among}
use vantric.Regex.Classes.{IsLabel}
use vantric.Validation.Names.{resource_unit, lower_or_digit, resource_name_error}
use vantric.Validation.Names.Accepts.{resource_name_error-eq-none_iff}
use vantric.Validation.Hosts.{domain_error, shortcut_link_error, shortcut_schemes}
use vantric.Validation.Hosts.Domain.{IsDomain, domain_error-eq-none_iff}
use vantric.Validation.Hosts.Link.{IsScheme, shortcut_link_error-scheme_iff}

resource_name_error-eq-none_iff_example :
    (resource_name_error lower_ascii (text "web-01") ≡ none) ↔ (
      (text "web-01" ≡ [])
      ⊎ (IsLabel is_lower resource_unit lower_or_digit (text "web-01")
          × (length (text "web-01") ≤ 63)))
resource_name_error-eq-none_iff_example =
    resource_name_error-eq-none_iff lower_ascii (text "web-01")

web-IsLabel : IsLabel is_lower resource_unit lower_or_digit (text "web")
unfolding text
web-IsLabel = (refl, (refl, (refl, tt)), refl)

web_passes : resource_name_error lower_ascii (text "web") ≡ none
unfolding text
web_passes =
    (resource_name_error-eq-none_iff lower_ascii (text "web")).1 (inr (web-IsLabel, omega arith))

domain_error-eq-none_iff_example : (domain_error lower_ascii (text "Example.org") ≡ none) ↔ (
    (lower_ascii (trim (text "Example.org")) ≡ [])
    ⊎ IsDomain (lower_ascii (trim (text "Example.org"))))
domain_error-eq-none_iff_example = domain_error-eq-none_iff lower_ascii (text "Example.org")

trimmed_link : trim (text "ssh://host") ≡ text "ssh" ++ text "://" ++ text "host"
unfolding trim trim_start is_space text
trimmed_link = refl

ssh-IsScheme : IsScheme (text "ssh")
unfolding text
ssh-IsScheme = (refl, (refl, (refl, tt)))

shortcut_link_error-scheme_iff_example :
    (shortcut_link_error (text "ssh://host") ≡ none)
    ↔ (Among (lower_ascii (text "ssh")) shortcut_schemes × (text "host" ≢ []))
shortcut_link_error-scheme_iff_example =
    shortcut_link_error-scheme_iff (text "ssh://host") (text "ssh") (text "host") ssh-IsScheme
      trimmed_link
