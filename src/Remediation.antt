-- ===== src/Remediation.antt =====
-- frontend/src/remediation.ts and frontend/src/severity.ts: the vulnerable packages of a host, grouped
-- into the software that somebody updates. A CVSS score is counted in tenths.
pub mod Tests
pub mod Worst
pub mod Severity
pub mod ByProduct
pub mod ByWorst
pub mod Ordered
pub mod Items
pub mod Os
pub mod Together
pub mod Newest
use vantric.Prelude.{
  ℕ, Bool, true, false, Option, none, some, List, [], ◌∷◌, ◌++◌, ltb, if◌then◌else◌, max, any_of,
  length,
}
use vantric.Prelude.Text.{Text, text, same, among, starts, split, is_empty}

-- Where a severity sorts: an unknown one last.
unfoldable pub rank_of : Text → ℕ
unfolding same text
rank_of severity =
    if same severity (text "CRITICAL")
    then 0
    else if same severity (text "HIGH")
    then 1
    else if same severity (text "MEDIUM")
    then 2
    else if same severity (text "LOW")
    then 3
    else if same severity (text "MINIMAL")
    then 4
    else 9

-- A flaw as it arrives, and as a row carries it: what is absent is false or empty.
pub record RemediationCve : Type 0 where
  pub cve : Text
  pub severity : Text
  pub cvss_score : ℕ
  pub known_exploited : Bool
  pub resolved_in_version : Text

pub record Package : Type 0 where
  pub name : Text
  pub version : Text
  pub cpe : Text
  pub source : Text
  pub vulnerabilities : Option (List RemediationCve)
  pub discarded : Bool

abbrev pub runtime_sources : List Text
runtime_sources =
    text "python_packages"
    ∷ text "npm_packages"
    ∷ text "homebrew_packages"
    ∷ text "deb_packages"
    ∷ text "rpm_packages"
    ∷ text "pacman_packages"
    ∷ []

abbrev pub runtime_names : List Text
runtime_names =
    text "python"
    ∷ text "node"
    ∷ text "nodejs"
    ∷ text "openjdk"
    ∷ text "java"
    ∷ text "jre"
    ∷ text "jdk"
    ∷ text "ruby"
    ∷ text "perl"
    ∷ text "php"
    ∷ text "openssl"
    ∷ text "dotnet"
    ∷ text ".net"
    ∷ text "go programming language"
    ∷ []

pub data Kind : Type 0 where
  application runtime : Kind

unfoldable pub software_kind : (Text → Text) → Text → Text → Kind
unfolding among starts text
software_kind to_lower_case name source =
    if among source runtime_sources
    then runtime
    else if any_of (λ r. starts r (to_lower_case name)) runtime_names
    then runtime
    else application

-- `parts.length > 5 ? parts[4] : ''`
unfoldable pub fifth : List Text → Text
fifth (a ∷ b ∷ c ∷ d ∷ e ∷ f ∷ parts) = e
fifth _ = []

unfoldable pub cpe_product : Text → Text
unfolding fifth split
cpe_product cpe = fifth (split b':' cpe)

-- `cpeProduct(p.cpe) || p.name`
unfoldable pub product_of : Package → Text
unfolding cpe_product
product_of p = if is_empty (cpe_product p.cpe) then p.name else cpe_product p.cpe

unfoldable pub group_key : Package → Text
unfolding product_of
group_key p = product_of p ++ 0 ∷ p.version

pub record Group : Type 0 where
  pub names : List Text
  pub version : Text
  pub product : Text
  pub source : Text
  pub cves : List (Text × RemediationCve)
  pub severity : Text
  pub worst_score : ℕ
  pub discarded : Bool

abbrev pub Groups : Type 0
Groups = List (Text × Group)

unfoldable pub start_group : Package → Group
unfolding product_of
start_group p = record {
  names = [];
  version = p.version;
  product = product_of p;
  source = p.source;
  cves = [];
  severity = [];
  worst_score = 0;
  discarded = true;
}

-- `map.get(key)` and `map.set(key, value)`
unfoldable pub get_key : {A : Type 0} → Text → List (Text × A) → Option A
unfolding same
get_key k [] = none
get_key k ((j, a) ∷ entries) = if same j k then some a else get_key k entries

unfoldable pub set_key : {A : Type 0} → Text → A → List (Text × A) → List (Text × A)
unfolding same
set_key k a [] = (k, a) ∷ []
set_key k a ((j, b) ∷ entries) = if same j k then (j, a) ∷ entries else (j, b) ∷ set_key k a entries

-- One round of the loop over a package's flaws
unfoldable pub add_flaw : RemediationCve → Group → Group
unfolding set_key rank_of
add_flaw v g = record g {
  cves = set_key v.cve v g.cves;
  severity = if ltb (rank_of v.severity) (rank_of g.severity) then v.severity else g.severity;
  worst_score = max g.worst_score v.cvss_score;
}

unfoldable pub add_flaws : List RemediationCve → Group → Group
unfolding add_flaw
add_flaws [] g = g
add_flaws (v ∷ vulns) g = add_flaws vulns (add_flaw v g)

-- A group is discarded only if every row in it is.
unfoldable pub add_row : Package → Group → Group
add_row p g = record g {
  names = g.names ++ p.name ∷ [];
  discarded = if p.discarded then g.discarded else false;
}

abbrev pub flaws_of : Option (List RemediationCve) → List RemediationCve
flaws_of none = []
flaws_of (some vulns) = vulns

abbrev pub get_or : Option Group → Group → Group
get_or none fresh = fresh
get_or (some g) fresh = g

unfoldable pub grow : Package → List RemediationCve → Groups → Groups
unfolding add_flaws add_row get_key set_key group_key start_group
grow p vulns groups =
    let g = get_or (get_key (group_key p) groups) (start_group p) in
    set_key (group_key p) (add_flaws vulns (add_row p g)) groups

-- One round of the loop over the packages: one without flaws is passed over.
unfoldable pub add_package_flaws : Package → List RemediationCve → Groups → Groups
unfolding grow
add_package_flaws p [] groups = groups
add_package_flaws p (v ∷ vulns) groups = grow p (v ∷ vulns) groups

unfoldable pub add_package : Package → Groups → Groups
unfolding add_package_flaws
add_package p groups = add_package_flaws p (flaws_of p.vulnerabilities) groups

unfoldable pub group_packages : Groups → List Package → Groups
unfolding add_package
group_packages groups [] = groups
group_packages groups (p ∷ packages) = group_packages (add_package p groups) packages
