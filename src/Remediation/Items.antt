-- ===== src/Remediation/Items.antt =====
-- The list that `installedNeedingUpdate` of frontend/src/remediation.ts makes of the groups. How texts
-- compare in the user's language is the platform's: `locale_compare`, and so is `to_lower_case`.
use vantric.Prelude.{
  ℕ, Bool, true, false, Option, none, some, List, [], ◌∷◌, map, ltb, length, min, max,
  if◌then◌else◌,
}
use vantric.Prelude.Sort.{Sign, then_by, ascending, descending, sort}
use vantric.Prelude.Text.{Text, includes}
use vantric.Remediation.{
  rank_of, RemediationCve, Package, Kind, software_kind, Group, get_key, set_key, group_packages,
}

pub record Installed : Type 0 where
  pub name : Text
  pub version : Text
  pub severity : Text
  pub worst_score : ℕ
  pub kind : Kind
  pub count : ℕ
  pub product : Text
  pub cves : List RemediationCve
  pub discarded : Bool

-- `[...map.values()]`
abbrev pub values_of : {A : Type 0} → List (Text × A) → List A
values_of [] = []
values_of ((key, a) ∷ entries) = a ∷ values_of entries

-- `names.reduce((a, b) => (b.length < a.length ? b : a))`
unfoldable pub shortest : Text → List Text → Text
shortest a [] = a
shortest a (b ∷ names) = shortest (if ltb (length b) (length a) then b else a) names

-- A group has a name from its start on, so the empty case does not arise.
abbrev pub group_name : List Text → Text
group_name [] = []
group_name (n ∷ names) = shortest n names

abbrev pub number_of : Bool → ℕ
number_of true = 1
number_of false = 0

abbrev pub get_number : ℕ → Option ℕ → ℕ
get_number missing none = missing
get_number missing (some n) = n

-- The loops that fill `worst` and `worstScore`
unfoldable pub worst_ranks : List (Text × ℕ) → List Installed → List (Text × ℕ)
unfolding get_key set_key rank_of
worst_ranks worst [] = worst
worst_ranks worst (i ∷ items) =
    worst_ranks
      (set_key i.product (min (get_number 99 (get_key i.product worst)) (rank_of i.severity)) worst)
      items

unfoldable pub worst_scores : List (Text × ℕ) → List Installed → List (Text × ℕ)
unfolding get_key set_key
worst_scores worst [] = worst
worst_scores worst (i ∷ items) =
    worst_scores
      (set_key i.product (max (get_number 0 (get_key i.product worst)) i.worst_score) worst) items

-- The worst rank and score among all the items of a product
unfoldable pub product_rank : List Installed → Installed → ℕ
unfolding worst_ranks get_key
product_rank items i = get_number 99 (get_key i.product (worst_ranks [] items))

unfoldable pub product_score : List Installed → Installed → ℕ
unfolding worst_scores get_key
product_score items i = get_number 0 (get_key i.product (worst_scores [] items))

module _ (locale_compare : Text → Text → Sign) where
  abbrev pub by_text {ℓ} : {A : Type ℓ} → (A → Text) → A → A → Sign
  by_text key a b = locale_compare (key a) (key b)

  -- Known to be exploited first, then the worst.
  unfoldable pub cve_order : RemediationCve → RemediationCve → Sign
  unfolding rank_of
  cve_order = then_by (descending (λ v. number_of v.known_exploited)) (
      then_by (ascending (λ v. rank_of v.severity))
        (then_by (descending (λ v. v.cvss_score)) (by_text (λ v. v.cve))))

  -- What the products are ordered by, over the whole list
  unfoldable pub product_order : List Installed → Installed → Installed → Sign
  unfolding product_rank product_score
  product_order items =
      then_by (ascending (product_rank items))
        (then_by (descending (product_score items)) (by_text (λ i. i.product)))

  unfoldable pub item_order : List Installed → Installed → Installed → Sign
  unfolding product_order rank_of
  item_order items = then_by (product_order items) (
      then_by (ascending (λ i. rank_of i.severity))
        (then_by (descending (λ i. i.count)) (by_text (λ i. i.name))))

  unfoldable pub sort_items : List Installed → List Installed
  unfolding item_order
  sort_items items = sort (item_order items) items

module _ (locale_compare : Text → Text → Sign) (to_lower_case : Text → Text) where
  unfoldable pub item_of : Group → Installed
  unfolding cve_order software_kind includes
  item_of g =
      let name = group_name g.names in
      record {
        name = name;
        version = if includes g.version name then [] else g.version;
        severity = g.severity;
        worst_score = g.worst_score;
        kind = software_kind to_lower_case name g.source;
        count = length g.cves;
        product = g.product;
        cves = sort (cve_order locale_compare) (values_of g.cves);
        discarded = g.discarded;
      }

  unfoldable pub items_of : List Package → List Installed
  unfolding group_packages item_of
  items_of packages = map item_of (values_of (group_packages [] packages))

  unfoldable pub installed_needing_update : List Package → List Installed
  unfolding items_of sort_items
  installed_needing_update packages = sort_items locale_compare (items_of packages)
