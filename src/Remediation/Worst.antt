-- ===== src/Remediation/Worst.antt =====
-- A group is as bad as its worst flaw, and discarded only if all of it is.
use vantric.Prelude.{
  ℕ, ◌≤◌, min, Bool, true, false, Option, none, some, List, [], ◌∷◌, ◌++◌, if◌then◌else◌, ◌≡◌, refl,
  ◌∙◌, ap, sym, arith,
}
use vantric.Prelude.Text.{Text, same, same_iff}
use vantric.Remediation.{
  rank_of, RemediationCve, Package, Group, Groups, group_key, start_group, get_key, set_key,
  add_flaw, add_flaws, add_row, flaws_of, get_or, grow, add_package_flaws, add_package,
  group_packages,
}

pub get_key-set_key :
    {A : Type 0} (k j : Text) (a : A) (entries : List (Text × A))
    → get_key k (set_key j a entries) ≡ (if same j k then some a else get_key k entries)
unfolding get_key set_key
get_key-set_key k j a [] = refl
get_key-set_key k j a ((i, b) ∷ entries) =
    ground (arith, get_key-set_key k j a entries, same_iff i j, same_iff i k, same_iff j k)

-- The worst rank among flaws, and 9 where there are none
abbrev pub worst_rank : List RemediationCve → ℕ
worst_rank [] = 9
worst_rank (v ∷ vulns) = min (rank_of v.severity) (worst_rank vulns)

rank_of_bound : (s : Text) → rank_of s ≤ 9
unfolding rank_of
rank_of_bound s = ground arith

rank_of-add_flaws :
    (vulns : List RemediationCve) (g : Group)
    → rank_of (add_flaws vulns g).severity ≡ min (rank_of g.severity) (worst_rank vulns)
unfolding add_flaws add_flaw
rank_of-add_flaws [] g = omega (arith, rank_of_bound g.severity)
rank_of-add_flaws (v ∷ vulns) g = ground (arith, rank_of-add_flaws vulns (add_flaw v g))

-- The flaws of the packages that have the key
abbrev pub flaws_at : Text → List Package → List RemediationCve
flaws_at k [] = []
flaws_at k (p ∷ packages) =
    if same (group_key p) k
    then flaws_of p.vulnerabilities ++ flaws_at k packages
    else flaws_at k packages

-- How bad the group of a key is: as an unknown severity, where there is none
abbrev pub rank_at : Option Group → ℕ
rank_at none = 9
rank_at (some g) = rank_of g.severity

worst_rank_bound : (vs : List RemediationCve) → worst_rank vs ≤ 9
worst_rank_bound [] = omega arith
worst_rank_bound (v ∷ vs) = omega (arith, worst_rank_bound vs)

worst_rank-append :
    (vs ws : List RemediationCve) → worst_rank (vs ++ ws) ≡ min (worst_rank vs) (worst_rank ws)
worst_rank-append [] ws = omega (arith, worst_rank_bound ws)
worst_rank-append (v ∷ vs) ws = omega (arith, worst_rank-append vs ws)

rank_at_bound : (o : Option Group) → rank_at o ≤ 9
rank_at_bound none = omega arith
rank_at_bound (some g) = rank_of_bound g.severity

rank_of-get_or :
    (o : Option Group) (p : Package) → rank_of (get_or o (start_group p)).severity ≡ rank_at o
unfolding rank_of start_group same
rank_of-get_or none p = refl
rank_of-get_or (some g) p = refl

rank_of-add_row : (p : Package) (g : Group) → rank_of (add_row p g).severity ≡ rank_of g.severity
unfolding add_row
rank_of-add_row p g = refl

-- One package in the group of a key
rank_at-grow :
    (k : Text) (p : Package) (vs : List RemediationCve) (groups : Groups)
    → rank_at (get_key k (grow p vs groups)) ≡ (
        if same (group_key p) k
        then min (rank_at (get_key k groups)) (worst_rank vs)
        else rank_at (get_key k groups))
unfolding grow
rank_at-grow k p vs groups =
    let g = get_or (get_key (group_key p) groups) (start_group p) in
    let row = rank_of-add_flaws vs (add_row p g) in
    ground (
      arith,
      get_key-set_key k (group_key p) (add_flaws vs (add_row p g)) groups,
      row,
      rank_of-add_row p g,
      rank_of-get_or (get_key (group_key p) groups) p,
      same_iff (group_key p) k,
    )

rank_at-add_package_flaws :
    (k : Text) (p : Package) (vs : List RemediationCve) (groups : Groups)
    → rank_at (get_key k (add_package_flaws p vs groups)) ≡ (
        if same (group_key p) k
        then min (rank_at (get_key k groups)) (worst_rank vs)
        else rank_at (get_key k groups))
unfolding add_package_flaws
rank_at-add_package_flaws k p [] groups = ground (arith, rank_at_bound (get_key k groups))
rank_at-add_package_flaws k p (v ∷ vs) groups = rank_at-grow k p (v ∷ vs) groups

worst_rank-flaws_at :
    (k : Text) (p : Package) (packages : List Package)
    → worst_rank (flaws_at k (p ∷ packages)) ≡ (
        if same (group_key p) k
        then min (worst_rank (flaws_of p.vulnerabilities)) (worst_rank (flaws_at k packages))
        else worst_rank (flaws_at k packages))
worst_rank-flaws_at k p packages =
    ground (arith, worst_rank-append (flaws_of p.vulnerabilities) (flaws_at k packages))

min_chosen :
    (b : Bool) (r w f : ℕ) → min (if b then min r w else r) f ≡ min r (if b then min w f else f)
min_chosen true r w f = omega arith
min_chosen false r w f = refl

rank_at-group_packages_from :
    (k : Text) (packages : List Package) (groups : Groups)
    → rank_at (get_key k (group_packages groups packages))
      ≡ min (rank_at (get_key k groups)) (worst_rank (flaws_at k packages))
unfolding group_packages add_package
rank_at-group_packages_from k [] groups = omega (arith, rank_at_bound (get_key k groups))
rank_at-group_packages_from k (p ∷ packages) groups =
    let here = same (group_key p) k in
    let before = rank_at (get_key k groups) in
    let own = worst_rank (flaws_of p.vulnerabilities) in
    let others = worst_rank (flaws_at k packages) in
    rank_at-group_packages_from k packages (add_package p groups)
    ∙ ap (λ m. min m others) (rank_at-add_package_flaws k p (flaws_of p.vulnerabilities) groups)
    ∙ min_chosen here before own others
    ∙ ap (λ m. min before m) (sym (worst_rank-flaws_at k p packages))

-- A group's severity ranks as the worst flaw of all the packages that have its key, wherever in the list
-- they stand; 9 is the rank of what has none.
pub rank_at-group_packages :
    (k : Text) (packages : List Package)
    → rank_at (get_key k (group_packages [] packages)) ≡ worst_rank (flaws_at k packages)
unfolding get_key
rank_at-group_packages k packages =
    rank_at-group_packages_from k packages []
    ∙ omega (arith, worst_rank_bound (flaws_at k packages))
