-- ===== src/Remediation/ByProduct.antt =====
-- The groups by product and version: a version that holds no NUL keeps the keys apart.
use vantric.Prelude.{
  ℕ, min, ◌∙◌, ap, sym, ◌&&◌, Option, none, some, List, [], ◌∷◌, ◌++◌, ◌≡◌, refl, if◌then◌else◌,
  All, inl, inr, Bool-cases,
}
use vantric.Prelude.Text.{Text, same, same_iff}
use vantric.Prelude.Text.Split.{Lacks, same-marked}
use vantric.Remediation.{
  RemediationCve, Package, Group, Groups, product_of, group_key, start_group, get_key, set_key,
  add_flaw, add_flaws, add_row, flaws_of, get_or, grow, add_package_flaws, add_package,
  group_packages,
}
use vantric.Remediation.Items.{values_of}
use vantric.Remediation.Severity.{standing, rank_of-standing}
use vantric.Remediation.Worst.{worst_rank, flaws_at, rank_at, rank_at-group_packages}

abbrev pub LacksNul : Text → Type 0
LacksNul = Lacks 0

-- The flaws of the packages of a product, as `product_of` names it, and a version
unfoldable pub flaws_in : Text → Text → List Package → List RemediationCve
unfolding same product_of
flaws_in product version [] = []
flaws_in product version (p ∷ packages) =
    let rest = flaws_in product version packages in
    if same (product_of p) product && same p.version version
    then flaws_of p.vulnerabilities ++ rest
    else rest

-- The first group of a product and a version
unfoldable pub group_in : Text → Text → List Group → Option Group
unfolding same
group_in product version [] = none
group_in product version (g ∷ groups) =
    let rest = group_in product version groups in
    if same g.product product && same g.version version then some g else rest

-- The place of the worst among flaws, and of a group; 9 where there is none
unfoldable pub worst_standing : List RemediationCve → ℕ
unfolding standing
worst_standing [] = 9
worst_standing (v ∷ vulns) = min (standing v.severity) (worst_standing vulns)

abbrev pub standing_of : Option Group → ℕ
standing_of none = 9
standing_of (some g) = standing g.severity

abbrev IsOf : Text → Group → Type 0
IsOf k g = (k ≡ g.product ++ 0 ∷ g.version) × LacksNul g.version

abbrev IsOfIfAny : Text → Option Group → Type 0
IsOfIfAny k none = Unit
IsOfIfAny k (some g) = IsOf k g

abbrev AreKeyed : Groups → Type 0
AreKeyed = All (λ e. IsOf e.0 e.1)

get_key-IsOf : (k : Text) (groups : Groups) → AreKeyed groups → IsOfIfAny k (get_key k groups)
unfolding get_key
get_key-IsOf k [] h = tt
get_key-IsOf k ((j, g) ∷ groups) (hg, h) = elim (Bool-cases (same j k)) [
  | inl e ↦ rw e (sym ((same_iff j k).0 e) ∙ hg.0, hg.1)
  | inr e ↦ rw e (get_key-IsOf k groups h)
]

set_key-AreKeyed :
    (k : Text) (g : Group) (groups : Groups)
    → IsOf k g
    → AreKeyed groups
    → AreKeyed (set_key k g groups)
unfolding set_key
set_key-AreKeyed k g [] hg h = (hg, tt)
set_key-AreKeyed k g ((j, a) ∷ groups) hg (ha, h) = elim (Bool-cases (same j k)) [
  | inl e ↦ rw e ((((same_iff j k).0 e) ∙ hg.0, hg.1), h)
  | inr e ↦ rw e (ha, set_key-AreKeyed k g groups hg h)
]

add_flaws-IsOf :
    (k : Text) (vs : List RemediationCve) (g : Group) → IsOf k g → IsOf k (add_flaws vs g)
unfolding add_flaws add_flaw
add_flaws-IsOf k [] g h = h
add_flaws-IsOf k (v ∷ vs) g h = add_flaws-IsOf k vs (add_flaw v g) h

get_or-IsOf :
    (k : Text) (o : Option Group) (g : Group) → IsOfIfAny k o → IsOf k g → IsOf k (get_or o g)
get_or-IsOf k none g h hg = hg
get_or-IsOf k (some a) g h hg = h

grow-AreKeyed :
    (p : Package) (vs : List RemediationCve) (groups : Groups)
    → LacksNul p.version
    → AreKeyed groups
    → AreKeyed (grow p vs groups)
unfolding grow add_row start_group group_key
grow-AreKeyed p vs groups lacks h =
    let g = get_or (get_key (group_key p) groups) (start_group p) in
    set_key-AreKeyed (group_key p) (add_flaws vs (add_row p g)) groups
      (add_flaws-IsOf (group_key p) vs (add_row p g) (
        get_or-IsOf (group_key p) (get_key (group_key p) groups) (start_group p)
          (get_key-IsOf (group_key p) groups h) (refl, lacks)))
      h

add_package_flaws-AreKeyed :
    (p : Package) (vs : List RemediationCve) (groups : Groups)
    → LacksNul p.version
    → AreKeyed groups
    → AreKeyed (add_package_flaws p vs groups)
unfolding add_package_flaws
add_package_flaws-AreKeyed p [] groups lacks h = h
add_package_flaws-AreKeyed p (v ∷ vs) groups lacks h = grow-AreKeyed p (v ∷ vs) groups lacks h

group_packages-AreKeyed :
    (groups : Groups) (packages : List Package)
    → All (λ p. LacksNul p.version) packages
    → AreKeyed groups
    → AreKeyed (group_packages groups packages)
unfolding group_packages add_package
group_packages-AreKeyed groups [] lacks h = h
group_packages-AreKeyed groups (p ∷ packages) (hp, lacks) h =
    group_packages-AreKeyed (add_package p groups) packages lacks
      (add_package_flaws-AreKeyed p (flaws_of p.vulnerabilities) groups hp h)

module _ (product version : Text) (lacks : LacksNul version) where
  abbrev own_key : Text
  own_key = product ++ 0 ∷ version

  group_in-get_key :
      (groups : Groups)
      → AreKeyed groups
      → group_in product version (values_of groups) ≡ get_key own_key groups
  unfolding group_in get_key
  group_in-get_key [] h = refl
  group_in-get_key ((k, g) ∷ groups) (hg, h) =
      rw
        (
          group_in-get_key groups h,
          ap (λ j. same j own_key) hg.0
              ∙ same-marked 0 g.product product g.version version hg.1 lacks,
        )
        refl

  flaws_at-flaws_in :
      (packages : List Package)
      → All (λ p. LacksNul p.version) packages
      → flaws_at own_key packages ≡ flaws_in product version packages
  unfolding flaws_in group_key
  flaws_at-flaws_in [] h = refl
  flaws_at-flaws_in (p ∷ packages) (hp, h) =
      rw
        (
          flaws_at-flaws_in packages h,
          same-marked 0 (product_of p) product p.version version hp lacks,
        )
        refl

worst_rank-standing : (vs : List RemediationCve) → worst_rank vs ≡ worst_standing vs
unfolding worst_standing
worst_rank-standing [] = refl
worst_rank-standing (v ∷ vs) =
    ap (λ n. min n (worst_rank vs)) (rank_of-standing v.severity)
    ∙ ap (min (standing v.severity)) (worst_rank-standing vs)

rank_at-standing : (o : Option Group) → rank_at o ≡ standing_of o
rank_at-standing none = refl
rank_at-standing (some g) = rank_of-standing g.severity

-- If no version holds a NUL: the group of a product, as `product_of` names it, and a version has the severity
-- of the worst flaw of all the packages of that product and version, wherever in the list they stand, and
-- there is no group only where none of those flaws has a severity that is known.
pub worst_of_product :
    (product version : Text) (packages : List Package)
    → LacksNul version
    → All (λ p. LacksNul p.version) packages
    → standing_of (group_in product version (values_of (group_packages [] packages)))
      ≡ worst_standing (flaws_in product version packages)
worst_of_product product version packages lacks h =
    let groups = group_packages [] packages in
    ap standing_of
      (group_in-get_key product version lacks groups (group_packages-AreKeyed [] packages h tt))
    ∙ sym (rank_at-standing (get_key (product ++ 0 ∷ version) groups))
    ∙ rank_at-group_packages (product ++ 0 ∷ version) packages
    ∙ ap worst_rank (flaws_at-flaws_in product version lacks packages h)
    ∙ worst_rank-standing (flaws_in product version packages)
