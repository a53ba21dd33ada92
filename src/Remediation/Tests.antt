-- ===== src/Remediation/Tests.antt =====
-- A concrete host.
use mathlib.Core.List.{Perm}
use vantric.Prelude.{arith, ℕ, ◌++◌, none, true, refl, In, All}
use vantric.Prelude.Sort.{Sign, ascending, ascending-IsPreorder}
use vantric.Prelude.Text.{same, split, split_from, number, number_from, trim, trim_start, is_space}
use vantric.Remediation.{Group, application, set_key, rank_of}
use vantric.Remediation.Items.{
  Installed, values_of, item_of, items_of, item_order, installed_needing_update, sort_items,
  product_order, product_rank, product_score, worst_ranks, worst_scores,
}
use vantric.Remediation.Os.{
  newest_os_in_estate, newest, is_newer_os, parse_os, match_version, version_here, version_run,
  is_tail, version_parts, newer_parsed, newer_parts,
}
use vantric.Remediation.Newest.{newest_os_in_estate_best}
use vantric.Remediation.Together.{sort_items-together}
use vantric.Remediation.Ordered.{Ordered, ItemBefore, CveBefore, installed_needing_update-Ordered}
use vantric.Remediation.ByProduct.{
  LacksNul, flaws_in, group_in, worst_standing, standing_of, worst_of_product,
}
use vantric.Prelude.{some, List, [], ◌∷◌, ◌≡◌, false}
use vantric.Prelude.Text.{Text, text}
use vantric.Remediation.{
  RemediationCve, Package, product_of, cpe_product, fifth, get_key, group_packages,
}

abbrev flaw : Text → Text → RemediationCve
flaw cve severity = record {
  cve = cve;
  severity = severity;
  cvss_score = 75;
  known_exploited = false;
  resolved_in_version = [];
}

abbrev python : Text → List RemediationCve → Package
python name flaws = record {
  name = name;
  version = text "3.13";
  cpe = text "cpe:2.3:a:python:python:3.13";
  source = text "programs";
  vulnerabilities = some flaws;
  discarded = false;
}

abbrev host : List Package
host =
    python (text "Python") (flaw (text "CVE-1") (text "LOW") ∷ [])
    ∷ python (text "Python pip") (flaw (text "CVE-2") (text "HIGH") ∷ [])
    ∷ []

versions_plain : LacksNul (text "3.13") × All (λ p. LacksNul p.version) host
unfolding text
versions_plain = ground arith

worst_of_product_example :
    standing_of (group_in (text "python") (text "3.13") (values_of (group_packages [] host)))
    ≡ worst_standing (flaws_in (text "python") (text "3.13") host)
worst_of_product_example =
    worst_of_product (text "python") (text "3.13") host versions_plain.0 versions_plain.1

both_flaws :
    flaws_in (text "python") (text "3.13") host
    ≡ flaw (text "CVE-1") (text "LOW") ∷ flaw (text "CVE-2") (text "HIGH") ∷ []
unfolding flaws_in same product_of cpe_product fifth split split_from text
both_flaws = refl

abbrev estate : List Text
estate = text "macOS 26.2" ∷ text "macOS 26.6.2" ∷ text "Ubuntu 24.04.1 LTS" ∷ []

newest_os_in_estate_best_example :
    ((n : Text)
      → newest_os_in_estate (text "macOS 26.2") estate ≡ some n
      → In n estate
        × (is_newer_os (text "macOS 26.2") n ≡ true)
        × All (λ h. is_newer_os n h ≡ false) estate)
    × (newest_os_in_estate (text "macOS 26.2") estate ≡ none
        → All (λ h. is_newer_os (text "macOS 26.2") h ≡ false) estate)
newest_os_in_estate_best_example = newest_os_in_estate_best (text "macOS 26.2") estate

newer_here : newest_os_in_estate (text "macOS 26.2") estate ≡ some (text "macOS 26.6.2")
unfolding newest_os_in_estate newest is_newer_os parse_os match_version version_here version_run
    is_tail version_parts newer_parsed newer_parts same text split split_from number number_from
    trim trim_start is_space
newer_here = refl

-- A platform that compares texts by their first units
abbrev by_first : Text → ℕ
by_first [] = 0
by_first (c ∷ s) = c

abbrev first_units : Text → Text → Sign
first_units = ascending by_first

abbrev packages_here : Text → Text → Installed
packages_here name version = record {
  name = name;
  version = version;
  severity = text "HIGH";
  worst_score = 75;
  kind = application;
  count = 1;
  product = text "python";
  cves = [];
  discarded = false;
}

installed_needing_update-Ordered_example :
    Perm (installed_needing_update first_units (λ s. s) host) (items_of first_units (λ s. s) host)
    × Ordered
        (ItemBefore first_units (items_of first_units (λ s. s) host))
        (installed_needing_update first_units (λ s. s) host)
    × All
        (λ i. Ordered (CveBefore first_units) i.cves)
        (installed_needing_update first_units (λ s. s) host)
    × ((g : Group) → Perm (item_of first_units (λ s. s) g).cves (values_of g.cves))
installed_needing_update-Ordered_example =
    installed_needing_update-Ordered first_units (ascending-IsPreorder by_first) (λ s. s) host

abbrev three : List Installed
three =
    packages_here (text "B") (text "3.12")
    ∷ packages_here (text "C") (text "3.14")
    ∷ packages_here (text "A") (text "3.13")
    ∷ []

three-sorted :
    sort_items first_units three
    ≡ []
      ++ (packages_here (text "A") (text "3.13") ∷ (packages_here (text "B") (text "3.12") ∷ [])
          ++ packages_here (text "C") (text "3.14") ∷ [])
unfolding sort_items item_order product_order product_rank product_score worst_ranks worst_scores
    get_key set_key rank_of same text
three-sorted = refl

sort_items-together_example :
    All
      (λ b. first_units b.product (text "python") ≡ Sign.same)
      (packages_here (text "B") (text "3.12") ∷ [])
sort_items-together_example =
    sort_items-together first_units (ascending-IsPreorder by_first) three []
      (packages_here (text "A") (text "3.13")) (packages_here (text "B") (text "3.12") ∷ [])
      (packages_here (text "C") (text "3.14")) [] three-sorted refl
